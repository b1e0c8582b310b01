-- ===== src/Session/Examples/StatusParts.antt =====
-- Finalization, statuses, waiting, wallet and settings sessions at the data of `Fixtures`.
use say_ur_intent.Prelude.{
  ℕ, ◌<◌, ◌≤◌, String, true, false, some, none, List, [], ◌∷◌, lookup, ◌≡◌, ◌↔◌, refl, arith, eqb,
}
use say_ur_intent.Session.Types.{
  ReviewSession, SessionStatus, ExecutionResult, ResultBase, ChainReceipt,
}
use say_ur_intent.Session.Errors.{ErrorCode, Outcome, ok, fail}
use say_ur_intent.Session.World.{World, return}
use say_ur_intent.Session.Store.Execution.{
  parse_execution_result, assert_chain_result, reviewed_commitment,
}
use say_ur_intent.Session.Status.{
  is_final_session_status, transition_status, includes, StatusCategory, execution_status_category,
  get_execution_polling_status,
}
use say_ur_intent.Session.Status.Paths.{follow, follow-final, follow-success}
use say_ur_intent.Session.Status.Polling.{polling-final}
use say_ur_intent.Session.Sound.Predicate.{IsSound}
use say_ur_intent.Session.Sound.Requests.{empty_world}
use say_ur_intent.Session.Finalization.{
  VerifySuiChainReceiptInput, VerificationResult, verified_success, ChainReceiptVerifier,
  chain_final_result,
}
use say_ur_intent.Session.Finalization.Admissible.{
  chain_final_result-IsAdmissible, chain_final_result-success,
}
use say_ur_intent.Session.Wait.{Around, WaitOutcome, wait}
use say_ur_intent.Session.Wait.Termination.{Reports, wait-answers}
use say_ur_intent.Session.Settings.{create_settings_session, validate_settings_token}
use say_ur_intent.Session.Settings.Lifetime.{validate-create_settings_session}
use say_ur_intent.Session.Wallet.Data.{
  WalletIdentitySession, WalletIdentityStatus, WalletIdentityResult, WalletIdentityFailureReason,
  is_terminal_wallet_identity_status,
}
use say_ur_intent.Session.Wallet.Manager.{
  get_wallet_session, record_wallet_opened, record_wallet_connecting, record_wallet_result,
}
use say_ur_intent.Session.Wallet.Lifecycle.{terminal_stays}
use say_ur_intent.Session.Fixtures.{
  stamp, some_receipt, some_receipt-valid, some_host-ReadsBack, some_env, ready_session,
  pending_session, result_of_session,
}

abbrev verifier : ChainReceiptVerifier
verifier input = verified_success (record some_receipt { tx_digest = input.tx_digest })

abbrev final_result : ExecutionResult
final_result =
    ExecutionResult.success
      (record {
        review_session_id = "session";
        plan_id = "plan";
        explorer_url = none;
        summary = none;
        recorded_at = stamp 5;
      })
      "digest" some_receipt

finalized_example :
    chain_final_result some_env verifier pending_session result_of_session "digest" 5
    ≡ some final_result
unfolding chain_final_result say_ur_intent.Session.Finalization.verification_input
    say_ur_intent.Session.Finalization.result_of say_ur_intent.Session.Finalization.final_base
finalized_example = refl

chain_final_result-IsAdmissible_example :
    (parse_execution_result some_env final_result ≡ ok final_result)
    × (assert_chain_result pending_session final_result ≡ ok tt)
chain_final_result-IsAdmissible_example =
    chain_final_result-IsAdmissible some_env pending_session result_of_session "digest" 5 verifier
      final_result (λ input. (refl, some_receipt-valid input.tx_digest)) refl refl finalized_example

chain_final_result-success_example :
    (input : VerifySuiChainReceiptInput) × (verifier input ≡ verified_success some_receipt)
    × (input.tx_digest ≡ "digest")
    × (◌≡◌ {A = String} "digest" "digest")
    × (reviewed_commitment pending_session.review_state ≡ some input.reviewed_transaction_digest)
    × (pending_session.account ≡ some input.account)
chain_final_result-success_example =
    chain_final_result-success some_env verifier pending_session result_of_session _ "digest"
      "digest" some_receipt 5 finalized_example

abbrev way : List SessionStatus
way =
    SessionStatus.awaiting_wallet ∷ SessionStatus.wallet_connected
    ∷ SessionStatus.ready_for_wallet_review ∷ SessionStatus.signed_pending_result
    ∷ SessionStatus.success ∷ []

way_example : follow SessionStatus.proposed way ≡ ok SessionStatus.success
unfolding follow transition_status say_ur_intent.Session.Status.allowed_transitions includes
    say_ur_intent.Session.Types.same_status
way_example = refl

follow-success_example :
    (includes way SessionStatus.wallet_connected ≡ true)
    × (includes way SessionStatus.ready_for_wallet_review ≡ true)
    × (includes way SessionStatus.signed_pending_result ≡ true)
follow-success_example = follow-success way way_example

final_example : is_final_session_status SessionStatus.success ≡ true
unfolding is_final_session_status say_ur_intent.Session.Types.same_status
final_example = refl

stay_example : follow SessionStatus.success (SessionStatus.success ∷ []) ≡ ok SessionStatus.success
unfolding follow transition_status say_ur_intent.Session.Types.same_status
stay_example = refl

follow-final_example : SessionStatus.success ≡ SessionStatus.success
follow-final_example =
    follow-final SessionStatus.success SessionStatus.success (SessionStatus.success ∷ [])
      final_example stay_example

pending-IsSound : IsSound "session" pending_session
pending-IsSound = record {
  named = refl;
  planned = refl;
  result = refl;
  state = refl;
  reviewed = refl;
}

polling-final_example :
    (execution_status_category (get_execution_polling_status pending_session)
      ≡ StatusCategory.final)
    ↔ (is_final_session_status pending_session.status ≡ true)
polling-final_example = polling-final "session" pending_session pending-IsSound

abbrev quiet : Around
quiet = record {
  aborted = λ n. false;
  aborted_asleep = λ n. false;
  delay = λ n. 0;
  meanwhile = λ n w. w;
  now = λ n. n;
}

wait-answers_example :
    (a : Outcome (WaitOutcome × ℕ) × World) × (wait quiet 7 3
        (λ n. eqb n 2)
        (λ n. return n)
        (return 0)
        empty_world
      ≡ some a)
    × Reports (λ n. eqb n 2) a.0
wait-answers_example =
    wait-answers quiet 7 3 (λ n. eqb n 2) (λ n. return n) (return 0) empty_world (ground arith)

validate-create_settings_session_example :
    let w = (create_settings_session some_env "settings" "token" 0 empty_world).1 in
    (5 < 9 → validate_settings_token some_env "settings" "token" 5 w ≡ (true, w))
    × (9 ≤ 5
        → ((validate_settings_token some_env "settings" "token" 5 w).0 ≡ false)
          × (lookup "settings"
                (validate_settings_token some_env "settings" "token" 5 w).1.settings_sessions
              ≡ none))
validate-create_settings_session_example =
    validate-create_settings_session some_env "settings" "token" 0 5 empty_world some_host-ReadsBack

abbrev connected_wallet : WalletIdentitySession
connected_wallet = record {
  base = ready_session.base;
  status = WalletIdentityStatus.connected;
  account = some "0xa";
  chain = some "sui:mainnet";
  wallet_name = none;
  wallet_id = none;
  failure_reason = none;
  failure_detail = none;
}

abbrev wallet_world : World
wallet_world = record empty_world { wallet_sessions = ("wallet", connected_wallet) ∷ [] }

abbrev rejection : WalletIdentityResult
rejection = record {
  status = WalletIdentityStatus.rejected;
  account = none;
  chain = none;
  wallet_name = none;
  wallet_id = none;
  failure_reason = some WalletIdentityFailureReason.user_rejected;
  failure_detail = none;
}

wallet_found_example : lookup "wallet" wallet_world.wallet_sessions ≡ some connected_wallet
unfolding lookup
wallet_found_example = refl

wallet_over_example : is_terminal_wallet_identity_status connected_wallet.status ≡ true
unfolding is_terminal_wallet_identity_status
wallet_over_example = refl

terminal_stays_example :
    (get_wallet_session some_env "wallet" 12 wallet_world
      ≡ (ok (some connected_wallet), wallet_world))
    × (record_wallet_opened some_env "wallet" 12 wallet_world ≡ (ok connected_wallet, wallet_world))
    × (record_wallet_connecting some_env "wallet" 12 wallet_world
        ≡ (fail ErrorCode.invalid_session_transition, wallet_world))
    × (record_wallet_result some_env "wallet" rejection 12 wallet_world
        ≡ (fail ErrorCode.invalid_session_transition, wallet_world))
terminal_stays_example =
    terminal_stays some_env "wallet" rejection 12 wallet_world connected_wallet wallet_found_example
      wallet_over_example
