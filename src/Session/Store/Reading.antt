-- ===== src/Session/Store/Reading.antt =====
-- Reading review sessions: expiry, the downgrade of stale private-derived state, and the reads
-- of sessions, tokens and artifacts.
use say_ur_intent.Prelude.{
  ℕ, String, Bool, true, false, Option, some, none, lookup, keys, List, [], ◌∷◌, ◌&&◌, ◌||◌, not,
  is_some,
}
use say_ur_intent.Session.Types.{
  SessionStatus, ReviewSession, ReviewState, ReviewStatus, RefreshReason, CheckStatus, CheckSource,
  same_status,
}
use say_ur_intent.Session.Errors.{ErrorCode, ok, err, fail}
use say_ur_intent.Session.Artifacts.{PrivateReviewArtifacts}
use say_ur_intent.Session.Status.{
  transition, is_final_session_status, can_retain_private_review_artifacts,
}
use say_ur_intent.Session.World.{
  World, Env, Op, ◌>>=◌, ◌>>◌, return, lift, modify, branch, with_session, EventLogRecord,
  ActivityWrite, TransitionEvent, EventType, review_status_is, append_event_log, plain_event,
  hash_event_value, is_local_session_expired, token_matches_hash,
}
use say_ur_intent.Session.Store.Commit.{
  deleting, LiveSideEffects, commit_process, activity_only_effects,
}
use say_ur_intent.Session.Store.Private.{get_artifacts, parse_private_artifacts}

-- `appendEventLog` as an operation.
unfoldable pub log : Env → EventLogRecord → Op (Unit {0})
unfolding modify
log env r = modify (append_event_log env r)

abbrev pub touch : ReviewSession → String → ReviewSession
touch s at = record s { base = record (s.base) { last_activity_at = at } }

-- `recordReviewTransitionWithLiveSession`.
unfoldable pub record_transition :
    Env → ActivityWrite → ReviewSession → ReviewSession → LiveSideEffects → Bool → Op (Unit {0})
record_transition env write expected next fx on_failure =
    commit_process env write (some expected) next fx (activity_only_effects env expected.id fx)
      on_failure

-- `expireReviewSession`.
unfoldable pub expire_review_session : Env → String → ReviewSession → ℕ → Op ReviewSession
expire_review_session env id session now = do
  next ← lift (transition session SessionStatus.expired)
  record_transition env
      (ActivityWrite.review_transition id TransitionEvent.expired session.status next.status none
        none (env.host.to_iso now))
      session next deleting true
  return next

-- The state that replaces one whose private evidence no longer verifies.
unfoldable pub refresh_state : String → ReviewState → String → ReviewState
refresh_state id state at = record {
  plan_id = state.plan_id;
  review_session_id = id;
  account = state.account;
  status = ReviewStatus.refresh_required;
  blocked_reason = none;
  refresh_reason = some RefreshReason.quote_stale;
  checks =
      record {
        id = "private_review_artifacts_refresh_required";
        label = "Review evidence refresh";
        status = CheckStatus.fail;
        message =
            "Private review evidence expired or no longer matches stored material; recompute the account-bound review before using human-readable review facts.";
        source = CheckSource.adapter;
      }
      ∷ [];
  asset_flow_actual = none;
  before_after_balance = none;
  simulation = none;
  human_readable_review = none;
  wallet_review_adapter_contract = none;
  ptb_visualization = none;
  adapter_lifecycle = none;
  updated_at = at;
}

abbrev pub with_refresh_state : String → String → Option ReviewState → Option ReviewState
with_refresh_state id at none = none
with_refresh_state id at (some state) = some (refresh_state id state at)

abbrev pub refresh_write :
    String → String → SessionStatus → SessionStatus → Option ReviewState → ActivityWrite
refresh_write id at from to (some state) = ActivityWrite.review_state_snapshot id from state at
refresh_write id at from to none =
    ActivityWrite.review_transition id TransitionEvent.state_computed from to none
      (some "private_review_artifacts_refresh_required") at

abbrev plan_of : Option ReviewState → Option String
plan_of none = none
plan_of (some state) = some state.plan_id

abbrev account_hash_of : Env → Option ReviewState → Option String
account_hash_of env none = none
account_hash_of env (some state) = some (hash_event_value env.host state.account)

-- `markPrivateDerivedReviewStateRefreshRequired`.
unfoldable pub mark_refresh_required : Env → String → ReviewSession → ℕ → Op ReviewSession
mark_refresh_required env id session now = do
  moved ← lift (transition session SessionStatus.refresh_required)
  let at = env.host.to_iso now
  let state = with_refresh_state id at session.review_state
  let next = touch (record moved { review_state = state }) at
  record_transition env (refresh_write id at session.status next.status state) session next deleting
      false
  log env (record (plain_event EventType.state_computed id at) {
    plan_id = plan_of state;
    wallet_address_hash = account_hash_of env state;
    status = review_status_is next.status;
    reason = some "private_review_artifacts_refresh_required";
  })
  return next

abbrev pub has_private_derived : Option ReviewState → Bool
has_private_derived none = false
has_private_derived (some state) = is_some state.human_readable_review || is_some state.simulation

-- The verification of `sanitizePrivateDerivedReviewState`, where any error asks for a refresh.
unfoldable pub sanitize_with :
    Env
    → String
    → ReviewSession
    → ReviewState
    → ℕ
    → Option PrivateReviewArtifacts
    → Op ReviewSession
sanitize_with env id session state now none w = mark_refresh_required env id session now w
sanitize_with env id session state now (some a) w =
    let (parsed, w') = parse_private_artifacts env id state a now w in
    elim parsed [
      | ok verified ↦ (ok session, w')
      | err e ↦ mark_refresh_required env id session now w'
    ]

unfoldable pub sanitize_state :
    Env → String → ReviewSession → ℕ → Option ReviewState → Op ReviewSession
sanitize_state env id session now none = return session
sanitize_state env id session now (some state) = do
  found ← get_artifacts env id
  sanitize_with env id session state now found

-- `sanitizePrivateDerivedReviewState`.
unfoldable pub sanitize : Env → String → ReviewSession → ℕ → Op ReviewSession
sanitize env id session now = branch (is_some session.pending_handoff_digest) (return session) (
    branch
      (not (can_retain_private_review_artifacts session.status)
        || not (has_private_derived session.review_state))
      (return session) (sanitize_state env id session now session.review_state))

-- The test that the readers and writers share.
unfoldable pub has_lapsed : Env → ReviewSession → ℕ → Bool
has_lapsed env session now =
    is_local_session_expired env.host session.base now
    && not (is_final_session_status session.status)

-- `getReviewSession`.
unfoldable pub get_review_session : Env → String → ℕ → Op (Option ReviewSession)
get_review_session env id now = with_session id (ok none) λ session.
    branch (has_lapsed env session now)
      (do s ← expire_review_session env id session now; return (some s))
      (do s ← sanitize env id session now; return (some s))

unfoldable pub list_ids : Env → List String → ℕ → Op (List ReviewSession)
list_ids env [] now = return []
list_ids env (id ∷ ids) now =
    let rest = list_ids env ids now in
    do
      found ← get_review_session env id now
      others ← rest
      return (elim found [ none ↦ others | some s ↦ s ∷ others ])

-- `listReviewSessions`.
unfoldable pub list_review_sessions : Env → ℕ → Op (List ReviewSession)
list_review_sessions env now w = list_ids env (keys w.sessions) now w

-- `validateReviewToken`, which reads the session as it is stored.
unfoldable pub validate_review_token : Env → String → String → World → Bool
validate_review_token env id token w = elim (lookup id w.sessions) [
  | none ↦ false
  | some s ↦ token_matches_hash env.host s.token_hash token
]

-- `requireMutableSession`.
unfoldable pub require_mutable_session : Env → String → ℕ → Op ReviewSession
require_mutable_session env id now = with_session id (fail ErrorCode.session_not_found) λ session.
    branch (has_lapsed env session now)
      (do expire_review_session env id session now; lift (fail ErrorCode.session_expired))
      (branch (same_status session.status SessionStatus.expired)
        (lift (fail ErrorCode.session_expired)) (return session))
