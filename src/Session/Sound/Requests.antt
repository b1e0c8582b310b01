-- ===== src/Session/Sound/Requests.antt =====
-- The requests of the local server on the session layer, and sequences of them.
use say_ur_intent.Prelude.{ℕ, String, Option, none, keys, List, [], ◌∷◌}
use say_ur_intent.Session.Types.{ReviewState, ActionPlan, ExecutionResult}
use say_ur_intent.Session.Artifacts.{PrivateReviewArtifacts}
use say_ur_intent.Session.Wallet.Data.{WalletIdentityResult}
use say_ur_intent.Session.Wallet.Manager.{
  create_wallet_session, get_wallet_session, list_wallet_sessions, record_wallet_opened,
  record_wallet_connecting, record_wallet_result,
}
use say_ur_intent.Session.Settings.{create_settings_session, validate_settings_token}
use say_ur_intent.Session.World.{World, Env}
use say_ur_intent.Session.Store.Reading.{get_review_session, list_review_sessions}
use say_ur_intent.Session.Store.Review.{
  create_review_session, record_review_page_opened, record_wallet_connected, record_review_state,
}
use say_ur_intent.Session.Store.Execution.{record_execution_result, record_chain_execution_result}
use say_ur_intent.Session.Store.Pending.{
  get_private_artifacts, cancel_wallet_handoff, record_review_state_with_artifacts,
}
use say_ur_intent.Session.Store.Handoff.{prepare_wallet_handoff, invalidate_all_local_sessions}
use say_ur_intent.Session.Sound.Predicate.{AllSound, AllSound-nil}
use say_ur_intent.Session.Sound.Commit.{Respects}
use say_ur_intent.Session.Sound.Reading.{get_review_session-Ensures, list-Ensures}
use say_ur_intent.Session.Sound.Review.{
  create-Ensures, page_opened-Ensures, wallet_connected-Ensures, review_state-Ensures,
}
use say_ur_intent.Session.Sound.Execution.{execution_result-Ensures, chain_result-Ensures}
use say_ur_intent.Session.Sound.Handoff.{
  private_artifacts-Ensures, cancel-Ensures, state_with_artifacts-Ensures, prepare-Ensures,
  invalidate_sound,
}
use say_ur_intent.Session.Sound.Apart.{
  get_wallet-Ensures, list_wallet_ids-Ensures, open_wallet-Ensures, connect_wallet-Ensures,
  settle_wallet-Ensures, create_wallet-sessions, create_settings-sessions,
  validate_settings-sessions,
}

pub data Request : Type 0 where
  create : String → String → List ActionPlan → Request
  get open_page private_artifacts cancel : String → Request
  list : Request
  connect : String → String → Request
  record_state : String → ReviewState → Request
  record_state_with : String → ReviewState → Option PrivateReviewArtifacts → Request
  record_result record_chain_result : String → ExecutionResult → Request
  prepare : String → String → String → Request
  invalidate : String → Request
  create_wallet : String → String → Request
  get_wallet open_wallet connect_wallet : String → Request
  list_wallets : Request
  settle_wallet : String → WalletIdentityResult → Request
  create_settings : String → String → Request
  validate_settings : String → String → Request

-- The state after a request, whether it answered or threw.
unfoldable pub handle : Env → ℕ → Request → World → World
handle env now (create id token plans) w = (create_review_session env id token plans now w).1
handle env now (get id) w = (get_review_session env id now w).1
handle env now (open_page id) w = (record_review_page_opened env id now w).1
handle env now (private_artifacts id) w = (get_private_artifacts env id now w).1
handle env now (cancel id) w = (cancel_wallet_handoff env id now w).1
handle env now list w = (list_review_sessions env now w).1
handle env now (connect id account) w = (record_wallet_connected env id account now w).1
handle env now (record_state id state) w = (record_review_state env id state none now w).1
handle env now (record_state_with id state a) w =
    (record_review_state_with_artifacts env id state a now w).1
handle env now (record_result id r) w = (record_execution_result env id r now w).1
handle env now (record_chain_result id r) w = (record_chain_execution_result env id r now w).1
handle env now (prepare id plan_id account) w =
    (prepare_wallet_handoff env id plan_id account now w).1
handle env now (invalidate reason) w = invalidate_all_local_sessions env reason now w
handle env now (create_wallet id token) w = (create_wallet_session env id token now w).1
handle env now (get_wallet id) w = (get_wallet_session env id now w).1
handle env now (open_wallet id) w = (record_wallet_opened env id now w).1
handle env now (connect_wallet id) w = (record_wallet_connecting env id now w).1
handle env now list_wallets w = (list_wallet_sessions env now w).1
handle env now (settle_wallet id r) w = (record_wallet_result env id r now w).1
handle env now (create_settings id token) w = (create_settings_session env id token now w).1
handle env now (validate_settings id token) w = (validate_settings_token env id token now w).1

-- Requests one after another, each at its time.
unfoldable pub run : Env → List (ℕ × Request) → World → World
run env [] w = w
run env ((now, r) ∷ rs) w = run env rs (handle env now r w)

-- The server's state when it starts.
abbrev pub empty_world : World
empty_world = record {
  sessions = [];
  artifacts = [];
  materials = [];
  wallet_sessions = [];
  settings_sessions = [];
  active_account = none;
  events = [];
}

handle-AllSound :
    (env : Env) (now : ℕ) (r : Request) (w : World)
    → Respects env
    → AllSound w.sessions
    → AllSound (handle env now r w).sessions
unfolding handle list_wallet_sessions
handle-AllSound env now (create id token plans) w h s =
    ((create-Ensures env h id now token plans).apply w s).0
handle-AllSound env now (get id) w h s = ((get_review_session-Ensures env h id now).apply w s).0
handle-AllSound env now (open_page id) w h s = ((page_opened-Ensures env h id now).apply w s).0
handle-AllSound env now (private_artifacts id) w h s =
    ((private_artifacts-Ensures env h id now).apply w s).0
handle-AllSound env now (cancel id) w h s = ((cancel-Ensures env h id now).apply w s).0
handle-AllSound env now list w h s = ((list-Ensures env h now).apply w s).0
handle-AllSound env now (connect id account) w h s =
    ((wallet_connected-Ensures env h id now account).apply w s).0
handle-AllSound env now (record_state id state) w h s =
    ((review_state-Ensures env h id now state none).apply w s).0
handle-AllSound env now (record_state_with id state a) w h s =
    ((state_with_artifacts-Ensures env h id now state a).apply w s).0
handle-AllSound env now (record_result id r) w h s =
    ((execution_result-Ensures env h id r now).apply w s).0
handle-AllSound env now (record_chain_result id r) w h s =
    ((chain_result-Ensures env h id r now).apply w s).0
handle-AllSound env now (prepare id plan_id account) w h s =
    ((prepare-Ensures env h id now plan_id account).apply w s).0
handle-AllSound env now (invalidate reason) w h s = invalidate_sound env reason now w
handle-AllSound env now (create_wallet id token) w h s =
    rw (create_wallet-sessions env id token now w) s
handle-AllSound env now (get_wallet id) w h s = ((get_wallet-Ensures env now id).apply w s).0
handle-AllSound env now (open_wallet id) w h s = ((open_wallet-Ensures env now id).apply w s).0
handle-AllSound env now (connect_wallet id) w h s =
    ((connect_wallet-Ensures env now id).apply w s).0
handle-AllSound env now list_wallets w h s =
    ((list_wallet_ids-Ensures env now (keys w.wallet_sessions)).apply w s).0
handle-AllSound env now (settle_wallet id r) w h s =
    ((settle_wallet-Ensures env now id r).apply w s).0
handle-AllSound env now (create_settings id token) w h s =
    rw (create_settings-sessions env id token now w) s
handle-AllSound env now (validate_settings id token) w h s =
    rw (validate_settings-sessions env id token now w) s

run_sound :
    (env : Env) (rs : List (ℕ × Request)) (w : World)
    → Respects env
    → AllSound w.sessions
    → AllSound (run env rs w).sessions
unfolding run
run_sound env [] w h s = s
run_sound env ((now, r) ∷ rs) w h s =
    run_sound env rs (handle env now r w) h (handle-AllSound env now r w h s)

-- From the empty state, after any requests at any times, every stored review session is named by
-- its key, has one plan, an execution result that its status allows (a success with the receipt
-- of its own digest, no final result under another status), and a review state only for the
-- account that it is bound to. The writes that a request awaits may change the state in any way
-- that keeps this.
pub run-AllSound :
    (env : Env) (rs : List (ℕ × Request))
    → Respects env
    → AllSound (run env rs empty_world).sessions
run-AllSound env rs h = run_sound env rs empty_world h AllSound-nil
