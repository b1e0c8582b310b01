-- ===== src/Session/Store/Handoff.antt =====
-- The wallet handoff: `prepareWalletHandoff` with `gateWalletHandoff`, and
-- `invalidateAllLocalSessions`.
use say_ur_intent.Prelude.{
  ℕ, String, Bool, true, false, Option, some, none, List, [], ◌∷◌, keys, if◌then◌else◌, ◌||◌, not,
  ◌==◌, same_text,
}
use say_ur_intent.Host.{parse_sui_address}
use say_ur_intent.Session.Types.{ReviewSession, ReviewStatus}
use say_ur_intent.Session.Errors.{ErrorCode, session_error, material_error, Outcome, ok, err, fail}
use say_ur_intent.Session.Material.Data.{MaterialHandle, DigestCommitment, MaterialRecord}
use say_ur_intent.Session.Material.Verify.{verify_artifacts}
use say_ur_intent.Session.Records.{acquire_handoff_lock}
use say_ur_intent.Session.World.{
  World, Env, Op, ◌>>=◌, ◌>>◌, return, lift, branch, catching, EventType, plain_event,
  append_event_log,
}
use say_ur_intent.Session.Store.Commit.{delete_materials}
use say_ur_intent.Session.Store.Reading.{log, require_mutable_session}
use say_ur_intent.Session.Store.Review.{assert_plan_in_session}
use say_ur_intent.Session.Store.Pending.{get_private_artifacts, handle_of, digest_of, read_material}

pub record WalletHandoffMaterial : Type 0 where
  pub transaction_bytes_base64 : String
  pub transaction_material_commitment : String
  pub plan_id : String
  pub account : String

abbrev is_ready : ReviewStatus → Bool
is_ready ReviewStatus.ready_for_wallet_review = true
is_ready ReviewStatus.refresh_required = false
is_ready ReviewStatus.blocked = false

-- The reviewed commitment, where the state allows a handoff of this plan to this account.
unfoldable pub check_handoff_state :
    Env → ReviewSession → String → String → Outcome (String × String)
check_handoff_state env session plan_id account = elim session.review_state [
  | none ↦ fail ErrorCode.invalid_session_transition
  | some state ↦
      if not (is_ready state.status) || not (state.plan_id == plan_id)
      then fail ErrorCode.invalid_session_transition
      else let normalized = parse_sui_address env.host account in
        if not (same_text normalized (some state.account))
        then fail ErrorCode.input_invalid
        else elim state.wallet_review_adapter_contract [
          | none ↦ fail ErrorCode.handoff_unavailable
          | some contract ↦ ok (contract.transaction_material_commitment, state.account)
        ]
]

-- `handoff_unavailable` for what the material store refuses; any other error passes.
abbrev as_unavailable : {A : Type 0} → Outcome A → Outcome A
as_unavailable (ok a) = ok a
as_unavailable (err material_error) = fail ErrorCode.handoff_unavailable
as_unavailable (err e) = err e

unfoldable pub verify_for_handoff : Env → MaterialHandle → DigestCommitment → ℕ → Op (Unit {0})
verify_for_handoff env handle digest now w =
    let (verified, records) = verify_artifacts env.host handle digest now w.materials in
    (
      elim (as_unavailable verified) [ ok v ↦ ok tt | err e ↦ err e ],
      record w { materials = records },
    )

unfoldable pub assert_commitment : String → String → Outcome (Unit {0})
assert_commitment digest commitment =
    if digest == commitment then ok tt else fail ErrorCode.handoff_commitment_mismatch

abbrev pub require_material : Option MaterialRecord → Outcome MaterialRecord
require_material none = fail ErrorCode.handoff_unavailable
require_material (some m) = ok m

-- `acquireHandoffLock`, refused where another digest holds the lock.
unfoldable pub lock_handoff : String → String → Op (Unit {0})
lock_handoff id digest w =
    let (acquired, m) = acquire_handoff_lock id digest w.sessions in
    (if acquired then ok tt else fail ErrorCode.handoff_unavailable, record w { sessions = m })

-- From the lock on: the event, and the bytes.
unfoldable pub hand_over :
    Env → String → String → String → String → MaterialRecord → ℕ → Op WalletHandoffMaterial
hand_over env id plan_id commitment account material now = do
  lock_handoff id commitment
  log env (record (plain_event EventType.handoff_prepared id (env.host.to_iso now)) {
    plan_id = some plan_id;
  })
  return (record {
    transaction_bytes_base64 = env.host.base64 material.transaction_bytes;
    transaction_material_commitment = commitment;
    plan_id = plan_id;
    account = account;
  })

-- From the verified commitment on: the digest of the stored bytes is the reviewed one, the
-- material is there, the lock is free; then the bytes leave the store.
unfoldable pub release_bytes :
    Env
    → String
    → String
    → String
    → String
    → MaterialHandle
    → DigestCommitment
    → ℕ
    → Op WalletHandoffMaterial
release_bytes env id plan_id commitment account handle digest now = do
  verify_for_handoff env handle digest now
  lift (assert_commitment digest.transaction_digest commitment)
  found ← read_material env handle now
  material ← lift (require_material found)
  hand_over env id plan_id commitment account material now

unfoldable pub release_held :
    Env
    → String
    → String
    → String
    → String
    → ℕ
    → Option MaterialHandle
    → Option DigestCommitment
    → Op WalletHandoffMaterial
release_held env id plan_id commitment account now (some handle) (some digest) =
    branch env.has_material_store
      (release_bytes env id plan_id commitment account handle digest now)
      (lift (fail ErrorCode.handoff_unavailable))
release_held env id plan_id commitment account now _ _ = lift (fail ErrorCode.handoff_unavailable)

-- `gateWalletHandoff`.
unfoldable pub gate_wallet_handoff :
    Env → String → ReviewSession → String → String → ℕ → Op WalletHandoffMaterial
gate_wallet_handoff env id session plan_id account now = do
  checked ← lift (check_handoff_state env session plan_id account)
  artifacts ← get_private_artifacts env id now
  release_held env id plan_id checked.0 checked.1 now (handle_of artifacts) (digest_of artifacts)

-- The text of an error code in the event log.
unfoldable pub code_text : ErrorCode → String
code_text ErrorCode.active_account_not_set = "active_account_not_set"
code_text ErrorCode.input_invalid = "input_invalid"
code_text ErrorCode.invalid_session_transition = "invalid_session_transition"
code_text ErrorCode.plan_not_in_session = "plan_not_in_session"
code_text ErrorCode.execution_result_finalized = "execution_result_finalized"
code_text ErrorCode.signed_pending_result_conflict = "signed_pending_result_conflict"
code_text ErrorCode.session_expired = "session_expired"
code_text ErrorCode.session_not_found = "session_not_found"
code_text ErrorCode.session_mismatch = "session_mismatch"
code_text ErrorCode.handoff_unavailable = "handoff_unavailable"
code_text ErrorCode.handoff_commitment_mismatch = "handoff_commitment_mismatch"

-- The `catch` of `prepareWalletHandoff`: a refusal is logged and thrown again.
unfoldable pub log_refusal :
    Env
    → String
    → String
    → ℕ
    → Outcome WalletHandoffMaterial × World
    → Outcome WalletHandoffMaterial × World
unfolding code_text
log_refusal env id plan_id now (err (session_error code m), w) = (
  err (session_error code m),
  append_event_log env
      (record (plain_event EventType.handoff_refused id (env.host.to_iso now)) {
        plan_id = some plan_id;
        reason = some (code_text code);
      })
      w,
)
log_refusal env id plan_id now (r, w) = (r, w)

-- `prepareWalletHandoff`.
unfoldable pub prepare_wallet_handoff :
    Env → String → String → String → ℕ → Op WalletHandoffMaterial
prepare_wallet_handoff env id plan_id account now = do
  session ← require_mutable_session env id now
  lift (assert_plan_in_session session plan_id)
  catching (log_refusal env id plan_id now) (gate_wallet_handoff env id session plan_id account now)

unfoldable pub delete_each : Env → List String → World → World
delete_each env [] w = w
delete_each env (id ∷ ids) w = delete_each env ids (delete_materials env id w)

-- `invalidateAllLocalSessions`.
unfoldable pub invalidate_all_local_sessions : Env → String → ℕ → World → World
invalidate_all_local_sessions env reason now w =
    append_event_log env
      (record (plain_event EventType.local_sessions_invalidated "all" (env.host.to_iso now)) {
        reason = some reason;
      })
      (record (delete_each env (keys w.sessions) w) {
        sessions = [];
        wallet_sessions = [];
        settings_sessions = [];
      })
