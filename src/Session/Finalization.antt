-- ===== src/Session/Finalization.antt =====
-- Lazy finalization of a pending result from the chain receipt:
-- src/core/session/chainReceiptFinalization.ts. The verifier (suiChainReceiptVerifier.ts, over a
-- Sui full node) is an argument.
pub mod Admissible
pub mod Waiting
use say_ur_intent.Prelude.{
  ℕ, ◌+◌, ◌-◌, String, Bool, true, false, Option, some, none, if◌then◌else◌, ◌&&◌, ◌||◌, not, leb,
  ◌==◌, same_text, truthy, is_some,
}
use say_ur_intent.Session.Types.{
  SessionStatus, ReviewSession, ReviewState, ExecutionResult, ResultBase, ChainReceipt,
  FailureReason, same_status,
}
use say_ur_intent.Session.Errors.{ErrorCode, Thrown, session_error, Outcome, ok, err}
use say_ur_intent.Session.World.{World, Env, Op, ◌>>=◌, ◌>>◌, return, lift, branch, catching}
use say_ur_intent.Session.Store.Reading.{get_review_session}
use say_ur_intent.Session.Store.Execution.{record_chain_execution_result, reviewed_commitment}

abbrev pub chain_receipt_lookup_max_age_ms : ℕ
chain_receipt_lookup_max_age_ms = 600000

pub record VerifySuiChainReceiptInput : Type 0 where
  pub tx_digest : String
  pub reviewed_transaction_digest : String
  pub account : String
  pub now : ℕ

-- `SuiChainReceiptVerificationResult`; each failure has one reason.
pub data VerificationResult : Type 0 where
  verified_success verified_failure : ChainReceipt → VerificationResult
  not_found verification_failed : VerificationResult

abbrev pub ChainReceiptVerifier : Type 0
ChainReceiptVerifier = VerifySuiChainReceiptInput → VerificationResult

abbrev state_account : Option ReviewState → Option String
state_account none = none
state_account (some s) = some s.account

-- `verificationInputForPendingSession`.
unfoldable pub verification_input : ReviewSession → String → ℕ → Option VerifySuiChainReceiptInput
verification_input session tx_digest now = elim (reviewed_commitment session.review_state) [
  | none ↦ none
  | some commitment ↦ elim session.account [
    | none ↦ none
    | some account ↦
        if not (truthy (some commitment))
          || not (truthy (some account))
          || not (same_text (state_account session.review_state) (some account))
        then none
        else some (record {
          tx_digest = tx_digest;
          reviewed_transaction_digest = commitment;
          account = account;
          now = now;
        })
  ]
]

-- `pendingLookupWindowElapsed`. A clock behind the recording time has not elapsed.
unfoldable pub pending_lookup_window_elapsed : Env → String → ℕ → Bool
pending_lookup_window_elapsed env recorded_at now = elim (env.host.parse_date recorded_at) [
  | none ↦ true
  | some t ↦ leb (t + chain_receipt_lookup_max_age_ms) now
]

-- The result that `finalizePendingExecutionResultFromChain` records; `none` keeps waiting.
unfoldable pub final_base : ReviewSession → ResultBase → String → ResultBase
final_base session pending at = record {
  review_session_id = session.id;
  plan_id = pending.plan_id;
  explorer_url = none;
  summary = none;
  recorded_at = at;
}

unfoldable pub result_of :
    Env → ReviewSession → ResultBase → String → ℕ → VerificationResult → Option ExecutionResult
unfolding final_base pending_lookup_window_elapsed
result_of env session pending d now (verified_success receipt) =
    some (ExecutionResult.success (final_base session pending (env.host.to_iso now)) d receipt)
result_of env session pending d now (verified_failure receipt) = some (
    ExecutionResult.failure (final_base session pending (env.host.to_iso now)) (some d)
      FailureReason.chain_execution_failed (some receipt))
result_of env session pending d now verification_failed = some (
    ExecutionResult.failure (final_base session pending (env.host.to_iso now)) (some d)
      FailureReason.receipt_verification_failed none)
result_of env session pending d now not_found =
    if not (pending_lookup_window_elapsed env pending.recorded_at now)
    then none
    else some (
        ExecutionResult.failure (final_base session pending (env.host.to_iso now)) (some d)
          FailureReason.chain_receipt_unavailable none)

unfoldable pub chain_final_result :
    Env → ChainReceiptVerifier → ReviewSession → ResultBase → String → ℕ → Option ExecutionResult
chain_final_result env verifier session pending d now = elim (verification_input session d now) [
  | none ↦ some (
      ExecutionResult.failure (final_base session pending (env.host.to_iso now)) (some d)
        FailureReason.receipt_verification_failed none)
  | some input ↦ result_of env session pending d now (verifier input)
]

-- The errors after which the stored session is read again: another request settled it.
abbrev is_settled_meanwhile : Thrown → Bool
is_settled_meanwhile (session_error ErrorCode.execution_result_finalized m) = true
is_settled_meanwhile (session_error ErrorCode.signed_pending_result_conflict m) = true
is_settled_meanwhile (session_error ErrorCode.invalid_session_transition m) = true
is_settled_meanwhile _ = false

unfoldable pub reread : Env → String → ℕ → Thrown → Op ReviewSession
reread env id now e = do
  current ← get_review_session env id now
  lift (elim current [ none ↦ err e | some s ↦ ok s ])

unfoldable pub recover :
    Env → String → ℕ → Outcome ReviewSession × World → Outcome ReviewSession × World
recover env id now (ok s, w) = (ok s, w)
recover env id now (err e, w) = if is_settled_meanwhile e then reread env id now e w else (err e, w)

-- `recordChainFinalResult`.
unfoldable pub record_chain_final_result :
    Env → ReviewSession → ExecutionResult → ℕ → Op ReviewSession
record_chain_final_result env previous result now =
    catching (recover env previous.id now)
      (record_chain_execution_result env previous.id result now)

-- The awaited verifier: what it answers, and the state when the caller goes on. Other requests may
-- have run meanwhile.
pub record AwaitedVerifier : Type 0 where
  pub answer : ChainReceiptVerifier
  pub meanwhile : World → World

-- The state after the verifier, which is awaited only where there is something to ask.
abbrev pub after_asking : AwaitedVerifier → ReviewSession → String → ℕ → World → World
after_asking verifier session d now w =
    if is_some (verification_input session d now) then verifier.meanwhile w else w

unfoldable pub finalize_with :
    Env → AwaitedVerifier → ReviewSession → Option ExecutionResult → ℕ → Op ReviewSession
finalize_with env verifier session (some (ExecutionResult.signed_pending_result b d)) now w =
    let next = after_asking verifier session d now w in
    elim (chain_final_result env verifier.answer session b d now) [
      | none ↦ return session next
      | some result ↦ record_chain_final_result env session result now next
    ]
finalize_with env verifier session _ now w = return session w

-- `finalizePendingExecutionResultFromChain`.
unfoldable pub finalize_pending :
    Env → Option AwaitedVerifier → ReviewSession → ℕ → Op ReviewSession
unfolding finalize_with
finalize_pending env none session now = return session
finalize_pending env (some verifier) session now =
    branch (not (same_status session.status SessionStatus.signed_pending_result)) (return session)
      (finalize_with env verifier session session.execution_result now)

unfoldable pub finalize_found :
    Env → Option AwaitedVerifier → ℕ → Option ReviewSession → Op (Option ReviewSession)
finalize_found env verifier now none = return none
finalize_found env verifier now (some session) = do
  s ← finalize_pending env verifier session now
  return (some s)

-- `getReviewSessionWithLazyChainReceiptFinalization`.
unfoldable pub get_with_finalization :
    Env → Option AwaitedVerifier → String → ℕ → Op (Option ReviewSession)
get_with_finalization env verifier id now = do
  found ← get_review_session env id now
  finalize_found env verifier now found
