-- ===== src/Session/Finalization/Admissible.antt =====
-- The results that finalization makes from the chain receipt, against the checks of the store.
use say_ur_intent.Prelude.{
  ℕ, String, true, false, some, none, ◌≡◌, sym, arith, ◌==◌, eq_iff, Option-cases, inl, inr,
}
use say_ur_intent.Session.Types.{
  ReviewSession, ExecutionResult, ResultBase, ChainReceipt, FailureReason,
}
use say_ur_intent.Receipt.Evidence.{valid_receipt}
use say_ur_intent.Session.Errors.{ok}
use say_ur_intent.Session.World.{Env}
use say_ur_intent.Session.Store.Execution.{
  parse_execution_result, assert_chain_result, reviewed_commitment, is_chain_failure_reason,
}
use say_ur_intent.Session.Finalization.{
  VerifySuiChainReceiptInput, VerificationResult, verified_success, verified_failure, not_found,
  verification_failed, ChainReceiptVerifier, verification_input, result_of, chain_final_result,
  final_base,
}

-- The receipt is about the digest, and its schema accepts it.
abbrev pub IsReceiptOf : Env → String → ChainReceipt → Type 0
IsReceiptOf env d receipt =
    (receipt.tx_digest ≡ d) × (valid_receipt env.host env.library receipt ≡ true)

-- The receipts that a verification brings are about the digest that it was asked for.
abbrev pub BringsReceipt : Env → String → VerificationResult → Type 0
BringsReceipt env d (verified_success receipt) = IsReceiptOf env d receipt
BringsReceipt env d (verified_failure receipt) = IsReceiptOf env d receipt
BringsReceipt env d not_found = Unit {0}
BringsReceipt env d verification_failed = Unit {0}

abbrev IsAdmissible : Env → ReviewSession → ExecutionResult → Type 0
IsAdmissible env session result =
    (parse_execution_result env result ≡ ok result) × (assert_chain_result session result ≡ ok tt)

-- What the verifier is asked for.
asks :
    (session : ReviewSession) (d : String) (now : ℕ) (input : VerifySuiChainReceiptInput)
    → verification_input session d now ≡ some input
    → (input.tx_digest ≡ d)
      × (reviewed_commitment session.review_state ≡ some input.reviewed_transaction_digest)
      × (session.account ≡ some input.account)
unfolding verification_input
asks session d now input e = elim (Option-cases (reviewed_commitment session.review_state)) [
  | inl n ↦ absurd (ground arith)
  | inr (c, p) ↦ elim (Option-cases session.account) [
    | inl n ↦ absurd (ground arith)
    | inr (a, q) ↦ ground arith
  ]
]

successful :
    (env : Env) (session : ReviewSession) (b b' : ResultBase) (d d' : String)
    (receipt : ChainReceipt) (now : ℕ) (v : VerificationResult)
    → result_of env session b d now v ≡ some (ExecutionResult.success b' d' receipt)
    → (v ≡ verified_success receipt) × (d' ≡ d)
unfolding result_of
successful env session b b' d d' receipt now (verified_success r) e = ground arith
successful env session b b' d d' receipt now (verified_failure r) e = absurd (ground arith)
successful env session b b' d d' receipt now not_found e = absurd (ground arith)
successful env session b b' d d' receipt now verification_failed e = absurd (ground arith)

module _ (env : Env) (session : ReviewSession) (b : ResultBase) (d : String) (now : ℕ) where
  of_verification :
      (v : VerificationResult) (result : ExecutionResult)
      → session.execution_result ≡ some (ExecutionResult.signed_pending_result b d)
      → (d == "") ≡ false
      → BringsReceipt env d v
      → result_of env session b d now v ≡ some result
      → IsAdmissible env session result
  unfolding result_of parse_execution_result assert_chain_result is_chain_failure_reason
  of_verification (verified_success receipt) result p n h e =
      (ground (arith, eq_iff d receipt.tx_digest), ground (arith, eq_iff d d))
  of_verification (verified_failure receipt) result p n h e =
      (ground (arith, eq_iff d receipt.tx_digest), ground (arith, eq_iff d d))
  of_verification not_found result p n h e = (ground arith, ground (arith, eq_iff d d))
  of_verification verification_failed result p n h e = (ground arith, ground (arith, eq_iff d d))

  unverifiable :
      (result : ExecutionResult)
      → session.execution_result ≡ some (ExecutionResult.signed_pending_result b d)
      → some (
          ExecutionResult.failure
            (final_base session b (env.host.to_iso now))
            (some d)
            FailureReason.receipt_verification_failed
            none)
        ≡ some result
      → IsAdmissible env session result
  unfolding parse_execution_result assert_chain_result is_chain_failure_reason
  unverifiable result p e = (ground arith, ground (arith, eq_iff d d))

  -- What finalization makes of a pending result with a digest passes the checks that the store
  -- puts on results of the chain, if a verifier's receipts carry
  -- the digest that it looked up and are accepted by the schema of receipts.
  pub chain_final_result-IsAdmissible :
      (verifier : ChainReceiptVerifier) (result : ExecutionResult)
      → ((input : VerifySuiChainReceiptInput) → BringsReceipt env input.tx_digest (verifier input))
      → session.execution_result ≡ some (ExecutionResult.signed_pending_result b d)
      → (d == "") ≡ false
      → chain_final_result env verifier session b d now ≡ some result
      → (parse_execution_result env result ≡ ok result)
        × (assert_chain_result session result ≡ ok tt)
  unfolding chain_final_result
  chain_final_result-IsAdmissible verifier result h p n e =
      elim (Option-cases (verification_input session d now)) [
        | inl none_there ↦ unverifiable result p (ground arith)
        | inr (input, q) ↦
            let asked = input_asks input q in
            let brings : BringsReceipt env d (verifier input) = rw (sym asked) (h input) in
            of_verification (verifier input) result p n brings (ground arith)
      ]
    where
      input_asks :
          (input : VerifySuiChainReceiptInput)
          → verification_input session d now ≡ some input
          → input.tx_digest ≡ d
      input_asks input q = (asks session d now input q).0

-- The result is a success only where the verifier found the transaction successful, asked for
-- the pending digest together with the reviewed commitment and the account of the session.
pub chain_final_result-success :
    (env : Env) (verifier : ChainReceiptVerifier) (session : ReviewSession) (b b' : ResultBase)
    (d d' : String) (receipt : ChainReceipt) (now : ℕ)
    → chain_final_result env verifier session b d now ≡ some (ExecutionResult.success b' d' receipt)
    → (input : VerifySuiChainReceiptInput) × (verifier input ≡ verified_success receipt)
      × (input.tx_digest ≡ d)
      × (d' ≡ d)
      × (reviewed_commitment session.review_state ≡ some input.reviewed_transaction_digest)
      × (session.account ≡ some input.account)
unfolding chain_final_result
chain_final_result-success env verifier session b b' d d' receipt now e =
    elim (Option-cases (verification_input session d now)) [
      | inl q ↦ absurd (ground arith)
      | inr (input, q) ↦
          let (asked, commits, account) = asks session d now input q in
          let (found, same) =
            successful env session b b' d d' receipt now (verifier input) (ground arith) in
          (input, found, asked, same, commits, account)
    ]
