-- ===== src/Receipt/Verifier/Created.antt =====
-- A receipt that was made, and the transaction that it was made of.
use say_ur_intent.Prelude.{
  ℕ, String, true, ◌==◌, List, [], Option, some, ◌≡◌, sym, ap, ◌∙◌, arith, eq_iff, Map,
}
use say_ur_intent.Prelude.Fallible.{ensure, bind-some, ensure-some}
use say_ur_intent.Host.{Host}
use say_ur_intent.Receipt.Chain.{
  succeeded, failed, ExecutionError, BalanceChange, Transaction, TransactionData, Effects, Library,
}
use say_ur_intent.Receipt.Mapping.{
  effects_status_from_sdk, package_calls_from, object_types_from, require_receipt_address,
}
use say_ur_intent.Receipt.Forbidden.{no_forbidden_fields}
use say_ur_intent.Receipt.Evidence.{SuiChainReceiptEvidence, valid_receipt}
use say_ur_intent.Receipt.Document.{receipt_json}
use say_ur_intent.Receipt.Verifier.{account_balance_changes, checked, build_receipt, create_receipt}

module _ (host : Host) (library : Library) where
  -- The facts of a receipt are those of a transaction with its digest, sent by its sender, whose
  -- effects carry the digest too.
  abbrev pub IsOfTransaction : Transaction → SuiChainReceiptEvidence → Type 0
  IsOfTransaction t receipt =
      (t.digest ≡ receipt.tx_digest)
      × (data_of : TransactionData) × (t.transaction ≡ some data_of)
      × (require_receipt_address host data_of.sender ≡ some receipt.sender)
      × (package_calls_from host 0 data_of.commands ≡ some receipt.package_calls)
      × (effects : Effects) × (t.effects ≡ some effects)
      × (effects.transaction_digest ≡ receipt.tx_digest)
      × (effects_status_from_sdk library effects.status ≡ receipt.effects_status)
      × (changes : List BalanceChange) × (t.balance_changes ≡ some changes)
      × (account_balance_changes host library receipt.sender 0 changes
          ≡ some receipt.account_balance_changes)
      × (types : Map String) × (t.object_types ≡ some types)
      × (object_types_from host [] types ≡ some receipt.object_types)

  -- The transaction was executed with success, or it failed.
  abbrev pub Succeeded : Transaction → Type 0
  Succeeded t = (effects : Effects) × (t.effects ≡ some effects) × (effects.status ≡ succeeded)

  abbrev pub Failed : Transaction → Type 0
  Failed t =
      (effects : Effects) × (t.effects ≡ some effects)
      × (error : Option ExecutionError) × (effects.status ≡ failed error)

  checked-some :
      (made receipt : SuiChainReceiptEvidence)
      → checked host library made ≡ some receipt
      → (made ≡ receipt)
        × (valid_receipt host library receipt ≡ true)
        × (no_forbidden_fields library.to_lower_case (receipt_json receipt) ≡ true)
  unfolding checked
  checked-some made receipt e =
      let (u, p, e1) = bind-some (ensure (valid_receipt host library made)) _ receipt e in
      let (v, q, e2) =
        bind-some (ensure (no_forbidden_fields library.to_lower_case (receipt_json made))) _ receipt
          e1 in
      let valid = ensure-some (valid_receipt host library made) u p in
      let clean = ensure-some (no_forbidden_fields library.to_lower_case (receipt_json made)) v q in
      let same : made ≡ receipt = ground arith in (same, rw (sym same) valid, rw (sym same) clean)

  -- What the receipt literal copies.
  abbrev Copies :
      TransactionData
      → Effects
      → List BalanceChange
      → Map String
      → String
      → String
      → String
      → String
      → SuiChainReceiptEvidence
      → Type 0
  Copies data_of effects changes types d sender account chain receipt =
      (receipt.tx_digest ≡ d)
      × (receipt.sender ≡ sender)
      × (receipt.source.chain_identifier ≡ chain)
      × (package_calls_from host 0 data_of.commands ≡ some receipt.package_calls)
      × (effects_status_from_sdk library effects.status ≡ receipt.effects_status)
      × (account_balance_changes host library account 0 changes
          ≡ some receipt.account_balance_changes)
      × (object_types_from host [] types ≡ some receipt.object_types)

  abbrev pub IsChecked : SuiChainReceiptEvidence → Type 0
  IsChecked receipt =
      (valid_receipt host library receipt ≡ true)
      × (no_forbidden_fields library.to_lower_case (receipt_json receipt) ≡ true)

  build_receipt-some :
      (data_of : TransactionData) (effects : Effects) (changes : List BalanceChange)
      (types : Map String) (d sender account chain : String) (now : ℕ)
      (receipt : SuiChainReceiptEvidence)
      → build_receipt host library data_of effects changes types d sender account chain now
        ≡ some receipt
      → Copies data_of effects changes types d sender account chain receipt × IsChecked receipt
  unfolding build_receipt
  build_receipt-some data_of effects changes types d sender account chain now receipt e =
      let (calls, p, e1) = bind-some (package_calls_from host 0 data_of.commands) _ receipt e in
      let (made, q, e2) =
        bind-some (account_balance_changes host library account 0 changes) _ receipt e1 in
      let (out, r, e3) = bind-some (object_types_from host [] types) _ receipt e2 in
      let (same, valid, clean) = checked-some _ receipt e3 in
      (
        (
          sym (ap (λ (x : SuiChainReceiptEvidence). x.tx_digest) same),
          sym (ap (λ (x : SuiChainReceiptEvidence). x.sender) same),
          sym (ap (λ (x : SuiChainReceiptEvidence). x.source.chain_identifier) same),
          p ∙ ap (λ (x : SuiChainReceiptEvidence). some x.package_calls) same,
          ap (λ (x : SuiChainReceiptEvidence). x.effects_status) same,
          q ∙ ap (λ (x : SuiChainReceiptEvidence). some x.account_balance_changes) same,
          r ∙ ap (λ (x : SuiChainReceiptEvidence). some x.object_types) same,
        ),
        (valid, clean),
      )

  pub create_receipt-some :
      (t : Transaction) (d r account chain : String) (now : ℕ) (receipt : SuiChainReceiptEvidence)
      → create_receipt host library t d r account chain now ≡ some receipt
      → (d ≡ r)
        × (receipt.tx_digest ≡ d)
        × (receipt.sender ≡ account)
        × (receipt.source.chain_identifier ≡ chain)
        × IsChecked receipt
        × IsOfTransaction t receipt
  unfolding create_receipt
  create_receipt-some t d r account chain now receipt e =
      let (u1, p1, e1) = bind-some (ensure (d == r)) _ receipt e in
      let (u2, p2, e2) = bind-some (ensure (t.digest == d)) _ receipt e1 in
      let (data_of, p3, e3) = bind-some t.transaction _ receipt e2 in
      let (effects, p4, e4) = bind-some t.effects _ receipt e3 in
      let (u5, p5, e5) = bind-some (ensure (effects.transaction_digest == d)) _ receipt e4 in
      let (sender, p6, e6) = bind-some (require_receipt_address host data_of.sender) _ receipt e5 in
      let (u7, p7, e7) = bind-some (ensure (sender == account)) _ receipt e6 in
      let (changes, p8, e8) = bind-some t.balance_changes _ receipt e7 in
      let (types, p9, e9) = bind-some t.object_types _ receipt e8 in
      let (copies, good) =
        build_receipt-some data_of effects changes types d sender account chain now receipt e9 in
      let (digest, from, chain_id, calls, status, all, kinds) = copies in
      let d_r = (eq_iff d r).0 (ensure-some (d == r) u1 p1) in
      let t_d = (eq_iff t.digest d).0 (ensure-some (t.digest == d) u2 p2) in
      let e_d =
        (eq_iff effects.transaction_digest d).0
          (ensure-some (effects.transaction_digest == d) u5 p5) in
      let s_a = (eq_iff sender account).0 (ensure-some (sender == account) u7 p7) in
      (
        d_r,
        digest,
        from ∙ s_a,
        chain_id,
        good,
        (
          t_d ∙ sym digest,
          data_of,
          p3,
          p6 ∙ ap some (sym from),
          calls,
          effects,
          p4,
          e_d ∙ sym digest,
          status,
          changes,
          p8,
          ap (λ x. account_balance_changes host library x 0 changes) (from ∙ s_a) ∙ all,
          types,
          p9,
          kinds,
        ),
      )
