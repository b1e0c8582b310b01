-- ===== src/Session/Status.antt =====
-- Session statuses: src/core/session/status.ts, and the transition table of sessionStore.ts.
pub mod Paths
pub mod Polling
use say_ur_intent.Prelude.{
  Bool, true, false, ◌||◌, ◌&&◌, not, List, [], ◌∷◌, some, none, if◌then◌else◌,
}
use say_ur_intent.Session.Types.{SessionStatus, ReviewSession, ExecutionResult, same_status}
use say_ur_intent.Session.Errors.{ErrorCode, Outcome, ok, fail}

unfoldable pub is_final_session_status : SessionStatus → Bool
unfolding same_status
is_final_session_status status =
    same_status status SessionStatus.success
    || same_status status SessionStatus.failure
    || same_status status SessionStatus.expired

-- `REVIEW_STATE_RECOMPUTE_STATUSES.has`.
unfoldable pub is_recompute_status : SessionStatus → Bool
is_recompute_status SessionStatus.wallet_connected = true
is_recompute_status SessionStatus.ready_for_wallet_review = true
is_recompute_status SessionStatus.refresh_required = true
is_recompute_status SessionStatus.blocked = true
is_recompute_status _ = false

-- `canRetainPrivateReviewArtifacts`.
unfoldable pub can_retain_private_review_artifacts : SessionStatus → Bool
unfolding is_final_session_status same_status
can_retain_private_review_artifacts status =
    not (same_status status SessionStatus.signed_pending_result)
    && not (is_final_session_status status)

-- `ALLOWED_TRANSITIONS`.
unfoldable pub allowed_transitions : SessionStatus → List SessionStatus
allowed_transitions SessionStatus.proposed =
    SessionStatus.awaiting_wallet ∷ SessionStatus.expired ∷ []
allowed_transitions SessionStatus.awaiting_wallet =
    SessionStatus.wallet_connected ∷ SessionStatus.expired ∷ []
allowed_transitions SessionStatus.wallet_connected =
    SessionStatus.ready_for_wallet_review ∷ SessionStatus.refresh_required ∷ SessionStatus.blocked
    ∷ SessionStatus.expired ∷ []
allowed_transitions SessionStatus.ready_for_wallet_review =
    SessionStatus.signed_pending_result ∷ SessionStatus.failure ∷ SessionStatus.refresh_required
    ∷ SessionStatus.blocked ∷ SessionStatus.expired ∷ []
allowed_transitions SessionStatus.refresh_required =
    SessionStatus.ready_for_wallet_review ∷ SessionStatus.blocked ∷ SessionStatus.expired ∷ []
allowed_transitions SessionStatus.blocked =
    SessionStatus.refresh_required ∷ SessionStatus.expired ∷ []
allowed_transitions SessionStatus.signed_pending_result =
    SessionStatus.success ∷ SessionStatus.failure ∷ SessionStatus.expired ∷ []
allowed_transitions SessionStatus.success = []
allowed_transitions SessionStatus.failure = []
allowed_transitions SessionStatus.expired = []

unfoldable pub includes : List SessionStatus → SessionStatus → Bool
unfolding same_status
includes [] s = false
includes (t ∷ ts) s = same_status t s || includes ts s

-- `transition` on the status field.
unfoldable pub transition_status : SessionStatus → SessionStatus → Outcome SessionStatus
unfolding same_status allowed_transitions includes
transition_status status next =
    if same_status status next
    then ok status
    else if includes (allowed_transitions status) next
    then ok next
    else fail ErrorCode.invalid_session_transition

-- `transition`, which writes the status of the session that it is given.
unfoldable pub transition : ReviewSession → SessionStatus → Outcome ReviewSession
unfolding transition_status
transition session next = elim (transition_status session.status next) [
  | Outcome.err e ↦ Outcome.err e
  | ok status ↦ ok (record session { status = status })
]

pub data PollingStatus : Type 0 where
  pending awaiting_wallet awaiting_signature refresh_required blocked : PollingStatus
  signed_pending_result success failure expired : PollingStatus

pub data StatusCategory : Type 0 where
  final user_action_required awaiting_chain_result non_terminal : StatusCategory

unfoldable pub execution_status_category : PollingStatus → StatusCategory
execution_status_category PollingStatus.success = final
execution_status_category PollingStatus.failure = final
execution_status_category PollingStatus.expired = final
execution_status_category PollingStatus.blocked = user_action_required
execution_status_category PollingStatus.refresh_required = user_action_required
execution_status_category PollingStatus.signed_pending_result = awaiting_chain_result
execution_status_category PollingStatus.pending = non_terminal
execution_status_category PollingStatus.awaiting_wallet = non_terminal
execution_status_category PollingStatus.awaiting_signature = non_terminal

abbrev stops_wait : StatusCategory → Bool
stops_wait final = true
stops_wait user_action_required = true
stops_wait awaiting_chain_result = false
stops_wait non_terminal = false

unfoldable pub is_wait_stopping_execution_status : PollingStatus → Bool
unfolding execution_status_category
is_wait_stopping_execution_status status = stops_wait (execution_status_category status)

abbrev is_open : StatusCategory → Bool
is_open final = false
is_open _ = true

unfoldable pub is_interaction_pending_review_status : PollingStatus → Bool
unfolding execution_status_category
is_interaction_pending_review_status status = is_open (execution_status_category status)

-- `executionResultStatus`.
unfoldable pub execution_result_status : ExecutionResult → PollingStatus
execution_result_status (ExecutionResult.signed_pending_result b d) =
    PollingStatus.signed_pending_result
execution_result_status (ExecutionResult.success b d r) = PollingStatus.success
execution_result_status (ExecutionResult.failure b d f r) = PollingStatus.failure

-- The `switch` on a session that has no execution result.
unfoldable pub session_polling_status : SessionStatus → PollingStatus
session_polling_status SessionStatus.proposed = PollingStatus.pending
session_polling_status SessionStatus.awaiting_wallet = PollingStatus.awaiting_wallet
session_polling_status SessionStatus.wallet_connected = PollingStatus.awaiting_signature
session_polling_status SessionStatus.ready_for_wallet_review = PollingStatus.awaiting_signature
session_polling_status SessionStatus.refresh_required = PollingStatus.refresh_required
session_polling_status SessionStatus.blocked = PollingStatus.blocked
session_polling_status SessionStatus.signed_pending_result = PollingStatus.signed_pending_result
session_polling_status SessionStatus.success = PollingStatus.success
session_polling_status SessionStatus.failure = PollingStatus.failure
session_polling_status SessionStatus.expired = PollingStatus.expired

unfoldable pub get_execution_polling_status : ReviewSession → PollingStatus
unfolding execution_result_status session_polling_status same_status
get_execution_polling_status session =
    if same_status session.status SessionStatus.expired
    then PollingStatus.expired
    else elim session.execution_result [
      | some result ↦ execution_result_status result
      | none ↦ session_polling_status session.status
    ]
