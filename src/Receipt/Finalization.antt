-- ===== src/Receipt/Finalization.antt =====
-- The receipt verifier as the verifier of src/core/session/chainReceiptFinalization.ts, wired in
-- src/runtime/start.ts: what a session is settled with is what the node confirmed.
use mathlib.Core.Path.{subst}
use say_ur_intent.Prelude.{
  ℕ, String, true, false, ◌==◌, some, ◌≡◌, refl, sym, ap, ◌∙◌, arith, inl, inr,
}
use say_ur_intent.Host.{Host}
use say_ur_intent.Session.Types.{ReviewSession, ExecutionResult, ResultBase, ChainReceipt}
use say_ur_intent.Session.Errors.{ok}
use say_ur_intent.Session.World.{Env}
use say_ur_intent.Session.Store.Execution.{
  parse_execution_result, assert_chain_result, reviewed_commitment,
}
use say_ur_intent.Session.Finalization.{
  VerifySuiChainReceiptInput, VerificationResult, ChainReceiptVerifier, chain_final_result,
}
use say_ur_intent.Session.Finalization.Admissible.{
  BringsReceipt, chain_final_result-IsAdmissible, chain_final_result-success,
}
use say_ur_intent.Receipt.Chain.{Library, TransactionResult, resolved}
use say_ur_intent.Receipt.Mapping.{EffectsStatus}
use say_ur_intent.Receipt.Evidence.{valid_receipt}
use say_ur_intent.Receipt.Verifier.{
  Verification, verified_success, verified_failure, not_found, verification_failed, Options,
  transaction_of, sui_chain_receipt_wait_timeout_ms, verify_sui_chain_receipt,
}
use say_ur_intent.Receipt.Verifier.Created.{Succeeded}
use say_ur_intent.Receipt.Verifier.Facts.{IsConfirmed, verify-IsConfirmed, receipt_in}

unfoldable pub report : Verification → VerificationResult
report (verified_success receipt) = VerificationResult.verified_success receipt
report (verified_failure receipt) = VerificationResult.verified_failure receipt
report not_found = VerificationResult.not_found
report (verification_failed why) = VerificationResult.verification_failed

module _ (host : Host) (library : Library) (options : Options) where
  unfoldable pub session_verifier : ChainReceiptVerifier
  unfolding report
  session_verifier input = report (verify_sui_chain_receipt host library options input)

  verified-IsConfirmed :
      (input : VerifySuiChainReceiptInput) (v : Verification) (receipt : ChainReceipt)
      → verify_sui_chain_receipt host library options input ≡ v
      → receipt_in host library v ≡ some receipt
      → IsConfirmed host library options input receipt v
  verified-IsConfirmed input v receipt e found =
      subst (IsConfirmed host library options input receipt) e (
        verify-IsConfirmed host library options input receipt
          (ap (receipt_in host library) e ∙ found))

  valid_of :
      (input : VerifySuiChainReceiptInput) (v : Verification) (receipt : ChainReceipt)
      → IsConfirmed host library options input receipt v
      → valid_receipt host library receipt ≡ true
  valid_of input v receipt (reviewed, digest, from, chain_id, expected, (valid, clean), rest) =
      valid

report-BringsReceipt :
    (env : Env) (options : Options) (input : VerifySuiChainReceiptInput) (v : Verification)
    → verify_sui_chain_receipt env.host env.library options input ≡ v
    → BringsReceipt env input.tx_digest (report v)
unfolding report
report-BringsReceipt env options input (verified_success receipt) e =
    let facts = verified-IsConfirmed env.host env.library options input _ receipt e refl in
    (facts.1, valid_of env.host env.library options input _ receipt facts)
report-BringsReceipt env options input (verified_failure receipt) e =
    let facts = verified-IsConfirmed env.host env.library options input _ receipt e refl in
    (facts.1, valid_of env.host env.library options input _ receipt facts)
report-BringsReceipt env options input not_found e = tt
report-BringsReceipt env options input (verification_failed why) e = tt

-- What finalization makes of a pending result with this verifier passes the checks that the
-- store puts on results of the chain, the schema of receipts among them.
pub session_verifier-IsAdmissible :
    (env : Env) (options : Options) (session : ReviewSession) (b : ResultBase) (d : String)
    (now : ℕ) (result : ExecutionResult)
    → session.execution_result ≡ some (ExecutionResult.signed_pending_result b d)
    → (d == "") ≡ false
    → chain_final_result env (session_verifier env.host env.library options) session b d now
      ≡ some result
    → (parse_execution_result env result ≡ ok result) × (assert_chain_result session result ≡ ok tt)
unfolding session_verifier
session_verifier-IsAdmissible env options session b d now result =
    chain_final_result-IsAdmissible env session b d now
      (session_verifier env.host env.library options) result
      (λ input.
        report-BringsReceipt env options input
          (verify_sui_chain_receipt env.host env.library options input) refl)

report-success :
    (v : Verification) (receipt : ChainReceipt)
    → report v ≡ VerificationResult.verified_success receipt
    → v ≡ verified_success receipt
unfolding report
report-success (verified_success r) receipt e = ground arith
report-success (verified_failure r) receipt e = absurd (ground arith)
report-success not_found receipt e = absurd (ground arith)
report-success (verification_failed why) receipt e = absurd (ground arith)

module _ (host : Host) (library : Library) (options : Options) (input : VerifySuiChainReceiptInput)
    (receipt : ChainReceipt) where
  -- A confirmed success: of a transaction that the node answered and that succeeded.
  success_of :
      IsConfirmed host library options input receipt (verified_success receipt)
      → (receipt.effects_status ≡ EffectsStatus.success)
        × (result : TransactionResult) × (options.client.wait_for_transaction input.tx_digest
              sui_chain_receipt_wait_timeout_ms
            ≡ resolved result)
        × Succeeded host library (transaction_of host library result)
  success_of (reviewed, digest, from, chain_id, expected, good, (result, w, facts, outcome)) =
      elim outcome [
        | inl (reported, status, done) ↦ (status, result, w, done)
        | inr (reported, gone) ↦ absurd (ground arith)
      ]

-- A session is settled as successful only with a receipt that the node confirmed: for the
-- digest that was signed, which is the one that was reviewed, from the account of the session,
-- and of a transaction that the node answered and that succeeded. The receipt that settles the
-- session is that receipt, with its facts, and says that the transaction succeeded.
pub session_verifier-success :
    (host : Host) (library : Library) (options : Options) (env : Env) (session : ReviewSession)
    (b b' : ResultBase) (d d' : String) (receipt : ChainReceipt) (now : ℕ)
    → chain_final_result env (session_verifier host library options) session b d now
      ≡ some (ExecutionResult.success b' d' receipt)
    → (input : VerifySuiChainReceiptInput) × IsConfirmed host library options input receipt
        (verified_success receipt)
      × (receipt.effects_status ≡ EffectsStatus.success)
      × ((result : TransactionResult) × (options.client.wait_for_transaction input.tx_digest
              sui_chain_receipt_wait_timeout_ms
            ≡ resolved result)
          × Succeeded host library (transaction_of host library result))
      × (receipt.tx_digest ≡ d)
      × (d' ≡ d)
      × (reviewed_commitment session.review_state ≡ some d)
      × (session.account ≡ some input.account)
unfolding session_verifier
session_verifier-success host library options env session b b' d d' receipt now e =
    let (input, found, asked, same, commits, account) =
      chain_final_result-success env (session_verifier host library options) session b b' d d'
        receipt now e in
    let verified =
      report-success (verify_sui_chain_receipt host library options input) receipt found in
    let confirmed = verified-IsConfirmed host library options input _ receipt verified refl in
    let (status, result, answer, done) = success_of host library options input receipt confirmed in
    (
      input,
      confirmed,
      status,
      (result, answer, done),
      confirmed.1 ∙ asked,
      same,
      commits ∙ ap some (sym confirmed.0 ∙ asked),
      account,
    )
