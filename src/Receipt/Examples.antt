-- ===== src/Receipt/Examples.antt =====
-- The receipt verifier at a node that has one transaction, and the session of `Fixtures`.
use say_ur_intent.Prelude.{String, true, [], ◌∷◌, some, ◌≡◌, ◌↔◌, refl, ap}
use say_ur_intent.Numeric.Text.{big_int, to_decimal}
use say_ur_intent.Session.Types.{ExecutionResult, ResultBase}
use say_ur_intent.Session.Errors.{ok}
use say_ur_intent.Session.Store.Execution.{
  parse_execution_result, assert_chain_result, reviewed_commitment,
}
use say_ur_intent.Session.Finalization.{
  VerifySuiChainReceiptInput, VerificationResult, ChainReceiptVerifier, verification_input,
  chain_final_result, AwaitedVerifier,
}
use say_ur_intent.Session.Fixtures.{
  stamp, some_host, some_library, some_receipt, some_env, pending_session, result_of_session,
  signed_result,
}
use say_ur_intent.Receipt.Chain.{
  Transaction, TransactionResult, resolved, transaction_kind, succeeded,
}
use say_ur_intent.Receipt.Mapping.{EffectsStatus}
use say_ur_intent.Receipt.Forbidden.{
  Json, text, object, field, no_fields, is_forbidden_field_key, no_forbidden_fields,
}
use say_ur_intent.Receipt.Forbidden.Clean.{IsClean, no_forbidden_fields-IsClean}
use say_ur_intent.Receipt.Evidence.{Direction, SuiChainReceiptEvidence}
use say_ur_intent.Receipt.Document.{receipt_json}
use say_ur_intent.Receipt.Verifier.{
  sui_chain_receipt_wait_timeout_ms, transaction_of, Options, verified_success,
  verify_sui_chain_receipt,
}
use say_ur_intent.Receipt.Verifier.Created.{Succeeded}
use say_ur_intent.Receipt.Verifier.Facts.{IsConfirmed, receipt_in, verify-IsConfirmed}
use say_ur_intent.Receipt.Finalization.{
  session_verifier, session_verifier-IsAdmissible, session_verifier-success,
}

abbrev some_transaction : Transaction
some_transaction = record {
  digest = "digest";
  transaction = some (record { sender = some "0xa"; commands = [] });
  effects = some (record { transaction_digest = "digest"; status = succeeded });
  balance_changes = some (
      record { address = "0xa"; coin_type = "0x2::sui::SUI"; amount = "5" }
      ∷ record { address = "0xb"; coin_type = "0x2::sui::SUI"; amount = "7" }
      ∷ []);
  object_types = some [];
}

abbrev some_options : Options
some_options = record {
  client = record {
    get_chain_identifier = some "35834a8a";
    wait_for_transaction = λ d t. resolved (transaction_kind some_transaction);
  };
  network = "mainnet";
  expected_chain_identifier = "35834a8a";
}

abbrev some_input : VerifySuiChainReceiptInput
some_input = record {
  tx_digest = "digest";
  reviewed_transaction_digest = "digest";
  account = "0xa";
  now = 5;
}

verified :
    verify_sui_chain_receipt some_host some_library some_options some_input
    ≡ verified_success some_receipt
unfolding verify_sui_chain_receipt no_forbidden_fields receipt_json big_int to_decimal
    say_ur_intent.Receipt.Verifier.after_input say_ur_intent.Receipt.Verifier.verify_on_chain
    say_ur_intent.Receipt.Verifier.of_answer say_ur_intent.Receipt.Verifier.create_receipt
    say_ur_intent.Receipt.Verifier.build_receipt say_ur_intent.Receipt.Verifier.checked
    say_ur_intent.Receipt.Verifier.of_receipt say_ur_intent.Receipt.Verifier.parse_verifier_input
    say_ur_intent.Receipt.Verifier.account_balance_changes say_ur_intent.Host.parse_sui_address
    say_ur_intent.Host.is_iso_utc say_ur_intent.Receipt.Mapping.require_receipt_address
    say_ur_intent.Receipt.Mapping.package_calls_from say_ur_intent.Receipt.Mapping.object_types_from
    say_ur_intent.Receipt.Mapping.effects_status_from_sdk say_ur_intent.Receipt.Evidence.every
    say_ur_intent.Receipt.Evidence.valid_receipt say_ur_intent.Receipt.Evidence.valid_balance_change
    say_ur_intent.Receipt.Evidence.is_signed_raw_integer say_ur_intent.Receipt.Evidence.direction_of
    say_ur_intent.Receipt.Forbidden.find_forbidden say_ur_intent.Receipt.Forbidden.concat
    say_ur_intent.Receipt.Forbidden.is_forbidden_field_key say_ur_intent.Receipt.Forbidden.any_edge
    say_ur_intent.Receipt.Forbidden.any_prefix_or_suffix say_ur_intent.Receipt.Forbidden.starts_with
    say_ur_intent.Receipt.Forbidden.ends_with say_ur_intent.Receipt.Document.source_json
    say_ur_intent.Receipt.Document.effects_json say_ur_intent.Receipt.Document.package_calls_json
    say_ur_intent.Receipt.Document.balance_changes_json
    say_ur_intent.Receipt.Document.object_types_json say_ur_intent.Numeric.Text.emit_digits
    say_ur_intent.Numeric.Text.digit_char say_ur_intent.Numeric.Text.is_digit
    say_ur_intent.Numeric.Text.all_digits say_ur_intent.Numeric.Text.digits_value
    say_ur_intent.Session.Fixtures.stamp
verified = refl

verify-IsConfirmed_example :
    IsConfirmed some_host some_library some_options some_input some_receipt
      (verify_sui_chain_receipt some_host some_library some_options some_input)
verify-IsConfirmed_example =
    verify-IsConfirmed some_host some_library some_options some_input some_receipt
      (ap (receipt_in some_host some_library) verified)

abbrev node_verifier : ChainReceiptVerifier
node_verifier = session_verifier some_host some_library some_options

abbrev settled_base : ResultBase
settled_base = record result_of_session { recorded_at = stamp 5 }

abbrev settled : ExecutionResult
settled = ExecutionResult.success settled_base "digest" some_receipt

reported : node_verifier some_input ≡ VerificationResult.verified_success some_receipt
unfolding session_verifier say_ur_intent.Receipt.Finalization.report
reported = ap say_ur_intent.Receipt.Finalization.report verified

settles :
    chain_final_result some_env node_verifier pending_session result_of_session "digest" 5
    ≡ some settled
unfolding chain_final_result verification_input say_ur_intent.Session.Finalization.result_of
    say_ur_intent.Session.Finalization.final_base
settles =
    ap
      (say_ur_intent.Session.Finalization.result_of some_env pending_session result_of_session
        "digest" 5)
      reported

session_verifier-success_example :
    (input : VerifySuiChainReceiptInput) × IsConfirmed some_host some_library some_options input
      some_receipt
      (verified_success some_receipt)
    × (some_receipt.effects_status ≡ EffectsStatus.success)
    × ((result : TransactionResult) × (some_options.client.wait_for_transaction input.tx_digest
            sui_chain_receipt_wait_timeout_ms
          ≡ resolved result)
        × Succeeded some_host some_library (transaction_of some_host some_library result))
    × (some_receipt.tx_digest ≡ "digest")
    × (◌≡◌ {A = String} "digest" "digest")
    × (reviewed_commitment pending_session.review_state ≡ some "digest")
    × (pending_session.account ≡ some input.account)
session_verifier-success_example =
    session_verifier-success some_host some_library some_options some_env pending_session
      result_of_session settled_base "digest" "digest" some_receipt 5 settles

session_verifier-IsAdmissible_example :
    (parse_execution_result some_env settled ≡ ok settled)
    × (assert_chain_result pending_session settled ≡ ok tt)
session_verifier-IsAdmissible_example =
    session_verifier-IsAdmissible some_env some_options pending_session result_of_session "digest" 5
      settled refl refl settles

abbrev blind_verifier : AwaitedVerifier
blind_verifier = record {
  answer = λ input. VerificationResult.not_found;
  meanwhile = λ w. record w { sessions = [] };
}

abbrev some_json : Json
some_json = object (field "plan" (object (field "txBytes" (text "AAA=") no_fields)) no_fields)

no_forbidden_fields-IsClean_example :
    (no_forbidden_fields (λ s. s) some_json ≡ true) ↔ IsClean (λ s. s) some_json
no_forbidden_fields-IsClean_example = no_forbidden_fields-IsClean (λ s. s) some_json
