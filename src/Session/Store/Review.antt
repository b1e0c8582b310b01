-- ===== src/Session/Store/Review.antt =====
-- The review operations up to the review state: `createReviewSession`, `recordReviewPageOpened`,
-- `recordWalletConnected` and the internal method behind `recordReviewState`.
use say_ur_intent.Prelude.{
  ℕ, String, Bool, true, false, Option, some, none, List, [], ◌∷◌, if◌then◌else◌, ◌&&◌, ◌||◌, not,
  is_some, truthy, ◌==◌,
}
use say_ur_intent.Host.{parse_sui_address}
use say_ur_intent.Session.Types.{
  SessionStatus, ReviewSession, ReviewState, ActionPlan, same_status, review_status,
}
use say_ur_intent.Session.Errors.{ErrorCode, Message, Thrown, session_error, Outcome, ok, err, fail}
use say_ur_intent.Session.Artifacts.{PrivateReviewArtifacts}
use say_ur_intent.Session.Status.{transition, is_final_session_status, is_recompute_status}
use say_ur_intent.Session.World.{
  World, Env, Op, ◌>>=◌, ◌>>◌, return, lift, branch, with_session, catching, ActivityWrite,
  TransitionEvent, EventType, review_status_is, plain_event, create_local_session_base,
  hash_event_value,
}
use say_ur_intent.Session.Store.Commit.{no_side_effects, commit_process, delete_materials}
use say_ur_intent.Session.Store.Private.{
  assert_private_artifacts, artifacts_for_live_mutation, replace_private_artifacts,
}
use say_ur_intent.Session.Store.Reading.{
  log, touch, record_transition, expire_review_session, has_lapsed, require_mutable_session,
}

-- The session that `createReviewSession` starts, and its one plan.
unfoldable pub new_review_session : Env → String → String → ActionPlan → ℕ → ReviewSession
unfolding create_local_session_base
new_review_session env id token plan now = record {
  base = create_local_session_base env.host id token now env.ttl_ms;
  pending_handoff_digest = none;
  status = SessionStatus.proposed;
  plans = plan ∷ [];
  account = none;
  review_state = none;
  execution_result = none;
}

-- `createReviewSession`; `id` and `token` are the random texts.
unfoldable pub create_review_session :
    Env → String → String → List ActionPlan → ℕ → Op (ReviewSession × String)
create_review_session env id token (plan ∷ []) now = do
  let session = new_review_session env id token plan now
  let at = env.host.to_iso now
  commit_process env (ActivityWrite.review_session id plan session.status session.created_at) none
      session no_side_effects (return tt) false
  log env (plain_event EventType.session_created id at)
  return (session, token)
create_review_session env id token _ now = lift (fail ErrorCode.input_invalid)

-- The first page view moves a proposed session on.
abbrev pub opened_session : ReviewSession → Outcome ReviewSession
opened_session session =
    if same_status session.status SessionStatus.proposed
    then transition session SessionStatus.awaiting_wallet
    else ok session

unfoldable pub open_page : Env → String → ReviewSession → ℕ → Op ReviewSession
open_page env id session now = do
  moved ← lift (opened_session session)
  let at = env.host.to_iso now
  let next = touch moved at
  record_transition env
      (ActivityWrite.review_transition id TransitionEvent.opened session.status next.status none
        none at)
      session next no_side_effects false
  log env
      (record (plain_event EventType.review_opened id at) { status = review_status_is next.status })
  return next

-- `recordReviewPageOpened`.
unfoldable pub record_review_page_opened : Env → String → ℕ → Op ReviewSession
record_review_page_opened env id now = with_session id (fail ErrorCode.session_not_found) λ session.
    branch (has_lapsed env session now) (expire_review_session env id session now) (
      branch (is_final_session_status session.status) (return session)
        (open_page env id session now))

-- The status after a wallet account is bound.
unfoldable pub connected_session : ReviewSession → Outcome ReviewSession
connected_session session =
    if same_status session.status SessionStatus.proposed
    then elim (transition session SessionStatus.awaiting_wallet) [
      | err e ↦ err e
      | ok waiting ↦ transition waiting SessionStatus.wallet_connected
    ]
    else if same_status session.status SessionStatus.awaiting_wallet
    then transition session SessionStatus.wallet_connected
    else if is_recompute_status session.status
    then ok session
    else fail ErrorCode.invalid_session_transition

abbrev pub is_other_account : Option String → String → Bool
is_other_account none account = false
is_other_account (some bound) account = truthy (some bound) && not (bound == account)

-- The checks of `recordWalletConnected`, and the session that it writes.
unfoldable pub bind_account :
    Option String → ReviewSession → String → String → Outcome ReviewSession
unfolding connected_session
bind_account none session account at = fail ErrorCode.active_account_not_set
bind_account (some active) session account at =
    if not (active == account)
    then fail ErrorCode.invalid_session_transition
    else if is_other_account session.account account
    then fail ErrorCode.invalid_session_transition
    else elim (connected_session session) [
      | err e ↦ err e
      | ok moved ↦ ok (touch (record moved { account = some account }) at)
    ]

abbrev pub require_address : Option String → Outcome String
require_address none = fail ErrorCode.input_invalid
require_address (some a) = ok a

-- `activityStore.getActiveAccount`.
unfoldable pub get_active_account : Op (Option String)
get_active_account w = (ok w.active_account, w)

-- `recordWalletConnected`.
unfoldable pub record_wallet_connected : Env → String → String → ℕ → Op ReviewSession
record_wallet_connected env id account now = do
  session ← require_mutable_session env id now
  normalized ← lift (require_address (parse_sui_address env.host account))
  let at = env.host.to_iso now
  active ← get_active_account
  next ← lift (bind_account active session normalized at)
  record_transition env
      (ActivityWrite.review_transition id TransitionEvent.wallet_connected session.status
        next.status (some normalized) none at)
      session next no_side_effects false
  log env (record (plain_event EventType.wallet_connected id at) {
    wallet_address_hash = some (hash_event_value env.host normalized);
  })
  return next

has_plan : String → List ActionPlan → Bool
has_plan plan_id [] = false
has_plan plan_id (p ∷ ps) = p.id == plan_id || has_plan plan_id ps

-- `assertPlanInSession`.
unfoldable pub assert_plan_in_session : ReviewSession → String → Outcome (Unit {0})
unfolding has_plan
assert_plan_in_session session plan_id =
    if has_plan plan_id session.plans then ok tt else fail ErrorCode.plan_not_in_session

-- `assertSameSessionId`.
unfoldable pub assert_same_session_id : String → String → Outcome (Unit {0})
assert_same_session_id expected actual =
    if actual == expected then ok tt else fail ErrorCode.session_mismatch

-- `parseReviewState`.
unfoldable pub parse_review_state : Env → ReviewState → Outcome ReviewState
parse_review_state env state = elim (env.evidence.parse_review_state state) [
  | none ↦ fail ErrorCode.input_invalid
  | some parsed ↦ elim (parse_sui_address env.host parsed.account) [
    | none ↦ fail ErrorCode.input_invalid
    | some account ↦ ok (record parsed { account = account })
  ]
]

-- A review state belongs to the account that the session is bound to.
unfoldable pub assert_bound_account : ReviewSession → String → Outcome (Unit {0})
assert_bound_account session account = elim session.account [
  | none ↦ fail ErrorCode.invalid_session_transition
  | some bound ↦
      if truthy (some bound) && bound == account
      then ok tt
      else fail ErrorCode.invalid_session_transition
]

-- `isStaleReviewSessionCommitError`.
abbrev pub is_stale_commit_error : Thrown → Bool
is_stale_commit_error
      (session_error ErrorCode.invalid_session_transition Message.changed_before_commit) =
    true
is_stale_commit_error _ = false

-- The `catch` of `recordReviewStateInternal`: new artifacts go, unless another request won.
unfoldable pub drop_after_error :
    Env
    → String
    → Option PrivateReviewArtifacts
    → Outcome ReviewSession × World
    → Outcome ReviewSession × World
drop_after_error env id artifacts (ok s, w) = (ok s, w)
drop_after_error env id artifacts (err e, w) = (
  err e,
  if is_some artifacts && not (is_stale_commit_error e) then delete_materials env id w else w,
)

-- The `try` block: the snapshot write with its side effects, and the event.
unfoldable pub write_review_state :
    Env
    → String
    → ReviewSession
    → ReviewSession
    → ReviewState
    → Option PrivateReviewArtifacts
    → ℕ
    → Op ReviewSession
write_review_state env id session next state artifacts now = do
  let at = env.host.to_iso now
  write ← lift (artifacts_for_live_mutation env artifacts)
  commit_process env (ActivityWrite.review_state_snapshot id session.status state at) (some session)
      next (record { delete_transaction_materials = false; private_artifacts = write })
      (replace_private_artifacts env id artifacts) false
  log env (record (plain_event EventType.state_computed id at) {
    plan_id = some state.plan_id;
    wallet_address_hash = some (hash_event_value env.host state.account);
    status = review_status_is (review_status state.status);
  })
  return next

-- `recordReviewStateInternal`.
unfoldable pub record_review_state :
    Env → String → ReviewState → Option PrivateReviewArtifacts → ℕ → Op ReviewSession
record_review_state env id state artifacts now = do
  session ← require_mutable_session env id now
  lift (assert_same_session_id id state.review_session_id)
  lift (assert_plan_in_session session state.plan_id)
  parsed ← lift (parse_review_state env state)
  lift (assert_bound_account session parsed.account)
  assert_private_artifacts env id parsed artifacts now
  moved ← lift (transition session (review_status parsed.status))
  let next = touch (record moved { review_state = some parsed }) (env.host.to_iso now)
  catching (drop_after_error env id artifacts)
      (write_review_state env id session next parsed artifacts now)
