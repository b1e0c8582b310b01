-- ===== src/Receipt/Verifier.antt =====
-- `verifySuiChainReceipt`: src/core/action/suiChainReceiptVerifier.ts. The messages are not
-- modelled; `Failure` tells the refusals apart where the code does, and `receipt_not_verified` is
-- whatever the last `try` catches. A time is always valid.
pub mod Created
pub mod Facts
use say_ur_intent.Prelude.{
  ℕ, suc, ◌+◌, String, Bool, true, false, ◌||◌, not, ◌==◌, if◌then◌else◌, List, [], ◌∷◌, ◌++◌, ◌⊎◌,
  inl, inr, Option, some, none, Map,
}
use say_ur_intent.Prelude.Int.{ℤ}
use say_ur_intent.Prelude.Fallible.{◌>>=◌, ◌>>◌, ensure}
use say_ur_intent.Host.{Host, parse_sui_address}
use say_ur_intent.Session.Finalization.{VerifySuiChainReceiptInput}
use say_ur_intent.Receipt.Chain.{
  BalanceChange, TransactionData, Effects, Transaction, TransactionResult, transaction_kind,
  failed_transaction_kind, Answer, resolved, rejected, Client, Library,
}
use say_ur_intent.Receipt.Mapping.{
  EffectsStatus, success, failure, effects_status_from_sdk, package_calls_from, object_types_from,
  require_receipt_address,
}
use say_ur_intent.Receipt.NotFound.{is_receipt_not_found_error, is_wait_timeout_error}
use say_ur_intent.Receipt.Forbidden.{no_forbidden_fields}
use say_ur_intent.Receipt.Evidence.{
  AccountBalanceChange, SuiChainReceiptEvidence, direction_of, valid_receipt,
}
use say_ur_intent.Receipt.Document.{receipt_json}

abbrev pub sui_chain_receipt_wait_timeout_ms : ℕ
sui_chain_receipt_wait_timeout_ms = 12000

pub data Failure : Type 0 where
  invalid_tx_digest invalid_reviewed_digest invalid_account : Failure
  not_mainnet chain_identifier_lookup_failed unexpected_chain : Failure
  transaction_lookup_failed receipt_not_verified : Failure

-- `SuiChainReceiptVerificationResult`.
pub data Verification : Type 0 where
  verified_success verified_failure : SuiChainReceiptEvidence → Verification
  not_found : Verification
  verification_failed : Failure → Verification

-- `VerifySuiChainReceiptOptions`.
pub record Options : Type 0 where
  pub client : Client
  pub network : String
  pub expected_chain_identifier : String

module _ (host : Host) (library : Library) where
  -- `accountBalanceChangesFromSdk`, from the index of the first change; `none` where it throws.
  unfoldable pub account_balance_changes :
      String → ℕ → List BalanceChange → Option (List AccountBalanceChange)
  account_balance_changes account index [] = some []
  account_balance_changes account index (change ∷ rest) = do
    address ← require_receipt_address host (some change.address)
    here ←
        (if not (address == account) then some [] else do
          amount ← library.big_int change.amount
          coin_type ← library.normalize_struct_tag change.coin_type
          some (
              record {
                index = index;
                coin_type = coin_type;
                amount_raw = library.big_int_text amount;
                direction = direction_of amount;
              }
              ∷ []))
    others ← account_balance_changes account (suc index) rest
    some (here ++ others)

  abbrev pub transaction_of : TransactionResult → Transaction
  transaction_of (transaction_kind t) = t
  transaction_of (failed_transaction_kind t) = t

  -- The schema's `parse` and `assertNoForbiddenMcpFields`.
  unfoldable pub checked : SuiChainReceiptEvidence → Option SuiChainReceiptEvidence
  checked receipt = do
    ensure (valid_receipt host library receipt)
    ensure (no_forbidden_fields library.to_lower_case (receipt_json receipt))
    some receipt

  -- The receipt literal of `createSuiChainReceiptEvidenceFromTransaction`, and its checks.
  unfoldable pub build_receipt :
      TransactionData
      → Effects
      → List BalanceChange
      → Map String
      → String
      → String
      → String
      → String
      → ℕ
      → Option SuiChainReceiptEvidence
  unfolding account_balance_changes checked
  build_receipt data_of effects balance_changes object_types tx_digest sender account
        chain_identifier now =
      do
        package_calls ← package_calls_from host 0 data_of.commands
        changes ← account_balance_changes account 0 balance_changes
        types ← object_types_from host [] object_types
        checked (record {
          source = record { chain_identifier = chain_identifier; fetched_at = host.to_iso now };
          tx_digest = tx_digest;
          sender = sender;
          effects_status = effects_status_from_sdk library effects.status;
          package_calls = package_calls;
          account_balance_changes = changes;
          object_types = types;
        })

  -- `createSuiChainReceiptEvidenceFromTransaction`; `none` where it throws.
  unfoldable pub create_receipt :
      Transaction → String → String → String → String → ℕ → Option SuiChainReceiptEvidence
  unfolding build_receipt
  create_receipt t tx_digest reviewed_digest account chain_identifier now = do
    ensure (tx_digest == reviewed_digest)
    ensure (t.digest == tx_digest)
    data_of ← t.transaction
    effects ← t.effects
    ensure (effects.transaction_digest == tx_digest)
    sender ← require_receipt_address host data_of.sender
    ensure (sender == account)
    balance_changes ← t.balance_changes
    object_types ← t.object_types
    build_receipt data_of effects balance_changes object_types tx_digest sender account
        chain_identifier now

  -- The result for the receipt that was made, if one was.
  abbrev pub by_effects : EffectsStatus → SuiChainReceiptEvidence → Verification
  by_effects success receipt = verified_success receipt
  by_effects (failure kind message) receipt = verified_failure receipt

  unfoldable pub of_receipt : Option SuiChainReceiptEvidence → Verification
  of_receipt none = verification_failed Failure.receipt_not_verified
  of_receipt (some receipt) = by_effects receipt.effects_status receipt

  unfoldable pub of_answer : Answer → String → String → String → String → ℕ → Verification
  unfolding create_receipt of_receipt
  of_answer (rejected error) tx_digest reviewed_digest account chain_identifier now =
      if is_receipt_not_found_error error || is_wait_timeout_error error
      then not_found
      else verification_failed Failure.transaction_lookup_failed
  of_answer (resolved result) tx_digest reviewed_digest account chain_identifier now = of_receipt (
      create_receipt (transaction_of result) tx_digest reviewed_digest account chain_identifier now)

  unfoldable pub verify_on_chain :
      Options → VerifySuiChainReceiptInput → String → String → Verification
  unfolding of_answer
  verify_on_chain options input account chain_identifier =
      if not (chain_identifier == options.expected_chain_identifier)
      then verification_failed Failure.unexpected_chain
      else of_answer
          (options.client.wait_for_transaction input.tx_digest sui_chain_receipt_wait_timeout_ms)
          input.tx_digest input.reviewed_transaction_digest account chain_identifier input.now

  -- `parseVerifierInput`: the account, or what is wrong.
  unfoldable pub parse_verifier_input : VerifySuiChainReceiptInput → String ⊎ Failure
  parse_verifier_input input =
      if not (host.is_valid_transaction_digest input.tx_digest)
      then inr Failure.invalid_tx_digest
      else if not (host.is_valid_transaction_digest input.reviewed_transaction_digest)
      then inr Failure.invalid_reviewed_digest
      else elim (parse_sui_address host input.account) [
        | none ↦ inr Failure.invalid_account
        | some account ↦ if account == "" then inr Failure.invalid_account else inl account
      ]

  unfoldable pub after_input :
      Options → VerifySuiChainReceiptInput → String ⊎ Failure → Verification
  unfolding verify_on_chain
  after_input options input (inr wrong) = verification_failed wrong
  after_input options input (inl account) =
      if not (options.network == "mainnet")
      then verification_failed Failure.not_mainnet
      else elim options.client.get_chain_identifier [
        | none ↦ verification_failed Failure.chain_identifier_lookup_failed
        | some chain_identifier ↦ verify_on_chain options input account chain_identifier
      ]

  unfoldable pub verify_sui_chain_receipt : Options → VerifySuiChainReceiptInput → Verification
  unfolding parse_verifier_input after_input
  verify_sui_chain_receipt options input = after_input options input (parse_verifier_input input)
