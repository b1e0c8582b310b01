-- ===== src/Receipt/Verifier/Facts.antt =====
-- What a verified receipt says about the transaction on the chain.
use mathlib.Core.Path.{subst}
use say_ur_intent.Prelude.{
  String, ◌||◌, ◌==◌, Option, some, none, ◌≡◌, refl, sym, ap, ◌∙◌, arith, ◌⊎◌, inl, inr, eq_iff,
  Bool-cases, Option-cases,
}
use say_ur_intent.Host.{Host, parse_sui_address}
use say_ur_intent.Session.Finalization.{VerifySuiChainReceiptInput}
use say_ur_intent.Receipt.Chain.{
  ExecutionStatus, succeeded, failed, ExecutionError, Transaction, TransactionResult, Answer,
  resolved, rejected, Library,
}
use say_ur_intent.Receipt.Mapping.{EffectsStatus, success, failure, effects_status_from_sdk}
use say_ur_intent.Receipt.NotFound.{is_receipt_not_found_error, is_wait_timeout_error}
use say_ur_intent.Receipt.Evidence.{SuiChainReceiptEvidence}
use say_ur_intent.Receipt.Verifier.Created.{
  IsOfTransaction, Succeeded, Failed, IsChecked, create_receipt-some,
}
use say_ur_intent.Receipt.Verifier.{
  Verification, verified_success, verified_failure, not_found, verification_failed, Failure,
  Options, transaction_of, create_receipt, by_effects, of_receipt, of_answer, verify_on_chain,
  parse_verifier_input, after_input, verify_sui_chain_receipt, sui_chain_receipt_wait_timeout_ms,
}

module _ (host : Host) (library : Library) where
  abbrev pub receipt_in : Verification → Option SuiChainReceiptEvidence
  receipt_in (verified_success receipt) = some receipt
  receipt_in (verified_failure receipt) = some receipt
  receipt_in not_found = none
  receipt_in (verification_failed why) = none

  -- A receipt is reported as a success or as a failure by its own status.
  abbrev IsByStatus : SuiChainReceiptEvidence → Verification → Type 0
  IsByStatus receipt v =
      ((v ≡ verified_success receipt) × (receipt.effects_status ≡ success))
      ⊎ ((v ≡ verified_failure receipt)
          × (kind : Option String) × (message : Option String) × (receipt.effects_status
              ≡ failure kind message))

  of_receipt-IsByStatus :
      (o : Option SuiChainReceiptEvidence) (receipt : SuiChainReceiptEvidence)
      → receipt_in (of_receipt host library o) ≡ some receipt
      → (o ≡ some receipt) × IsByStatus receipt (of_receipt host library o)
  unfolding of_receipt
  of_receipt-IsByStatus none receipt e = absurd (ground arith)
  of_receipt-IsByStatus (some r) receipt e = by_status r.effects_status refl e
    where
      by_status :
          (s : EffectsStatus)
          → r.effects_status ≡ s
          → receipt_in (by_effects host library s r) ≡ some receipt
          → (some r ≡ some receipt) × IsByStatus receipt (by_effects host library s r)
      by_status success p q =
          let same : r ≡ receipt = ground arith in
          (
            q,
            inl (
              ap verified_success same,
              ap (λ (x : SuiChainReceiptEvidence). x.effects_status) (sym same) ∙ p,
            ),
          )
      by_status (failure kind message) p q =
          let same : r ≡ receipt = ground arith in
          (
            q,
            inr (
              ap verified_failure same,
              kind,
              message,
              ap (λ (x : SuiChainReceiptEvidence). x.effects_status) (sym same) ∙ p,
            ),
          )

  status_success :
      (status : ExecutionStatus)
      → effects_status_from_sdk library status ≡ success
      → status ≡ succeeded
  unfolding effects_status_from_sdk
  status_success succeeded e = refl
  status_success (failed none) e = absurd (ground arith)
  status_success (failed (some x)) e = absurd (ground arith)

  status_failure :
      (status : ExecutionStatus) (kind message : Option String)
      → effects_status_from_sdk library status ≡ failure kind message
      → (error : Option ExecutionError) × (status ≡ failed error)
  unfolding effects_status_from_sdk
  status_failure succeeded kind message e = absurd (ground arith)
  status_failure (failed error) kind message e = (error, refl)

  -- What the verifier reports of the receipt is what became of the transaction.
  abbrev pub IsOutcomeOf : Transaction → SuiChainReceiptEvidence → Verification → Type 0
  IsOutcomeOf t receipt v =
      ((v ≡ verified_success receipt)
        × (receipt.effects_status ≡ success)
        × Succeeded host library t)
      ⊎ ((v ≡ verified_failure receipt) × Failed host library t)

  by_status-IsOutcomeOf :
      (t : Transaction) (receipt : SuiChainReceiptEvidence) (v : Verification)
      → IsOfTransaction host library t receipt
      → IsByStatus receipt v
      → IsOutcomeOf t receipt v
  by_status-IsOutcomeOf t receipt v facts (inl (reported, status)) =
      let (t_d, data_of, p3, from, calls, effects, p4, e_d, is_status, cs, p, b, ts, q, k) =
        facts in
      inl (reported, status, (effects, p4, status_success effects.status (is_status ∙ status)))
  by_status-IsOutcomeOf t receipt v facts (inr (reported, kind, message, status)) =
      let (t_d, data_of, p3, from, calls, effects, p4, e_d, is_status, cs, p, b, ts, q, k) =
        facts in
      let (error, wrong) = status_failure effects.status kind message (is_status ∙ status) in
      inr (reported, (effects, p4, error, wrong))

  -- The receipt is confirmed by the node: the digest is the reviewed one, the account is the
  -- sender, the node serves the expected chain, and the facts are those of the transaction that
  -- it answered for the digest, which succeeded where the receipt is reported as a success and
  -- failed where it is reported as a failure.
  abbrev pub IsConfirmed :
      Options → VerifySuiChainReceiptInput → SuiChainReceiptEvidence → Verification → Type 0
  IsConfirmed options input receipt v =
      (input.tx_digest ≡ input.reviewed_transaction_digest)
      × (receipt.tx_digest ≡ input.tx_digest)
      × (parse_sui_address host input.account ≡ some receipt.sender)
      × (options.client.get_chain_identifier ≡ some receipt.source.chain_identifier)
      × (receipt.source.chain_identifier ≡ options.expected_chain_identifier)
      × IsChecked host library receipt
      × ((result : TransactionResult) × (options.client.wait_for_transaction input.tx_digest
              sui_chain_receipt_wait_timeout_ms
            ≡ resolved result)
          × IsOfTransaction host library (transaction_of host library result) receipt
          × IsOutcomeOf (transaction_of host library result) receipt v)

  module _ (options : Options) (input : VerifySuiChainReceiptInput)
      (receipt : SuiChainReceiptEvidence) where
    on_chain :
        (account chain : String) (answer : Answer)
        → parse_sui_address host input.account ≡ some account
        → options.client.get_chain_identifier ≡ some chain
        → chain ≡ options.expected_chain_identifier
        → options.client.wait_for_transaction input.tx_digest sui_chain_receipt_wait_timeout_ms
          ≡ answer
        → receipt_in (
            of_answer host library answer input.tx_digest input.reviewed_transaction_digest account
              chain input.now)
          ≡ some receipt
        → IsConfirmed options input receipt (
            of_answer host library answer input.tx_digest input.reviewed_transaction_digest account
              chain input.now)
    unfolding of_answer
    on_chain account chain (rejected error) p q c w e =
        elim (Bool-cases (is_receipt_not_found_error error || is_wait_timeout_error error)) [
          | inl gone ↦ absurd (ground arith)
          | inr other ↦ absurd (ground arith)
        ]
    on_chain account chain (resolved result) p q c w e =
        let made =
          create_receipt host library (transaction_of host library result) input.tx_digest
            input.reviewed_transaction_digest account chain input.now in
        let (is_made, by_status) = of_receipt-IsByStatus made receipt e in
        let (reviewed, digest, from, chain_id, good, facts) =
          create_receipt-some host library (transaction_of host library result) input.tx_digest
            input.reviewed_transaction_digest account chain input.now receipt is_made in
        (
          reviewed,
          digest,
          p ∙ ap some (sym from),
          q ∙ ap some (sym chain_id),
          chain_id ∙ c,
          good,
          (
            result,
            w,
            facts,
            by_status-IsOutcomeOf (transaction_of host library result) receipt _ facts by_status,
          ),
        )

    parse_verifier_input-account :
        (account : String)
        → parse_verifier_input host library input ≡ inl account
        → parse_sui_address host input.account ≡ some account
    unfolding parse_verifier_input
    parse_verifier_input-account account e =
        elim (Option-cases (parse_sui_address host input.account)) [
          | inl n ↦ absurd (ground arith)
          | inr (a, p) ↦ ground arith
        ]

    verify_on_chain-IsConfirmed :
        (account chain : String)
        → parse_sui_address host input.account ≡ some account
        → options.client.get_chain_identifier ≡ some chain
        → receipt_in (verify_on_chain host library options input account chain) ≡ some receipt
        → IsConfirmed options input receipt
            (verify_on_chain host library options input account chain)
    unfolding verify_on_chain
    verify_on_chain-IsConfirmed account chain p q e =
        let answer =
          options.client.wait_for_transaction input.tx_digest sui_chain_receipt_wait_timeout_ms in
        elim (Bool-cases (chain == options.expected_chain_identifier)) [
          | inl same ↦
              let step : verify_on_chain host library options input account chain
                  ≡ of_answer host library answer input.tx_digest input.reviewed_transaction_digest
                      account chain input.now =
                ground arith in
              subst (IsConfirmed options input receipt) (sym step) (
                on_chain account chain answer p q
                  ((eq_iff chain options.expected_chain_identifier).0 same) refl
                  (sym (ap receipt_in step) ∙ e))
          | inr other ↦ absurd (ground arith)
        ]

    after_parsing :
        (parsed : String ⊎ Failure)
        → parse_verifier_input host library input ≡ parsed
        → receipt_in (after_input host library options input parsed) ≡ some receipt
        → IsConfirmed options input receipt (after_input host library options input parsed)
    unfolding after_input
    after_parsing (inr wrong) q e = absurd (ground arith)
    after_parsing (inl account) q e = elim (Option-cases options.client.get_chain_identifier) [
      | inl n ↦ absurd (ground arith)
      | inr (chain, c) ↦
          let step : after_input host library options input (inl account)
              ≡ verify_on_chain host library options input account chain =
            ground arith in
          subst (IsConfirmed options input receipt) (sym step) (
            verify_on_chain-IsConfirmed account chain (parse_verifier_input-account account q) c
              (sym (ap receipt_in step) ∙ e))
    ]

    -- Whenever the verifier reports a receipt, the node has confirmed it: the digest is the
    -- reviewed one, the account is the sender, the chain is the expected one, and the receipt has
    -- the calls, balance changes, object types and status of the transaction that the node
    -- answered for the digest. It is reported as a success where that transaction succeeded, and
    -- as a failure where it failed.
    pub verify-IsConfirmed :
        receipt_in (verify_sui_chain_receipt host library options input) ≡ some receipt
        → IsConfirmed options input receipt (verify_sui_chain_receipt host library options input)
    unfolding verify_sui_chain_receipt
    verify-IsConfirmed e = after_parsing (parse_verifier_input host library input) refl e
