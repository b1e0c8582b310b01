-- ===== src/Session/Store/Execution.antt =====
-- Execution results: `recordExecutionResult` for the review page, `recordChainExecutionResult`
-- for the chain receipt, and the schema `executionResultSchema` of src/core/action/schemas.ts.
use say_ur_intent.Prelude.{
  ℕ, String, Bool, true, false, Option, some, none, if◌then◌else◌, ◌&&◌, ◌||◌, not, is_some, ◌==◌,
  same_text,
}
use say_ur_intent.Session.Types.{
  ReviewSession, ReviewState, ExecutionResult, ChainReceipt, FailureReason, result_base,
  result_digest, result_status,
}
use say_ur_intent.Receipt.Evidence.{valid_receipt}
use say_ur_intent.Session.Errors.{ErrorCode, Outcome, ok, err, fail}
use say_ur_intent.Session.Status.{transition}
use say_ur_intent.Session.World.{
  World, Env, Op, ◌>>=◌, ◌>>◌, return, lift, modify, branch, catching, ActivityWrite, EventType,
  review_status_is, plain_event,
}
use say_ur_intent.Session.Store.Commit.{deleting, delete_materials}
use say_ur_intent.Session.Store.Reading.{log, touch, record_transition, require_mutable_session}
use say_ur_intent.Session.Store.Review.{assert_plan_in_session, assert_same_session_id}

-- A receipt must carry the digest of the result.
abbrev receipt_agrees : Option String → Option ChainReceipt → Bool
receipt_agrees digest none = true
receipt_agrees none (some r) = false
receipt_agrees (some d) (some r) = d == r.tx_digest

-- The schema of a receipt, where there is one.
abbrev receipt_accepted : Env → Option ChainReceipt → Bool
receipt_accepted env none = true
receipt_accepted env (some r) = valid_receipt env.host env.library r

-- `parseExecutionResult`.
unfoldable pub parse_execution_result : Env → ExecutionResult → Outcome ExecutionResult
parse_execution_result env (ExecutionResult.signed_pending_result b d) =
    if not (d == "")
    then ok (ExecutionResult.signed_pending_result b d)
    else fail ErrorCode.input_invalid
parse_execution_result env (ExecutionResult.success b d r) =
    if not (d == "") && receipt_accepted env (some r) && receipt_agrees (some d) (some r)
    then ok (ExecutionResult.success b d r)
    else fail ErrorCode.input_invalid
parse_execution_result env (ExecutionResult.failure b d f r) =
    if receipt_accepted env r && receipt_agrees d r
    then ok (ExecutionResult.failure b d f r)
    else fail ErrorCode.input_invalid

abbrev pub is_pending_result : Option ExecutionResult → Bool
is_pending_result (some (ExecutionResult.signed_pending_result b d)) = true
is_pending_result _ = false

-- `executionResult?.status === "success" || executionResult?.status === "failure"`.
abbrev pub is_final_result : Option ExecutionResult → Bool
is_final_result (some (ExecutionResult.success b d r)) = true
is_final_result (some (ExecutionResult.failure b d f r)) = true
is_final_result _ = false

-- `CHAIN_EXECUTION_FAILURE_REASONS` and `PAGE_EXECUTION_FAILURE_REASONS`.
unfoldable pub is_chain_failure_reason : FailureReason → Bool
is_chain_failure_reason FailureReason.chain_receipt_unavailable = true
is_chain_failure_reason FailureReason.receipt_verification_failed = true
is_chain_failure_reason FailureReason.chain_execution_failed = true
is_chain_failure_reason _ = false

unfoldable pub is_page_failure_reason : FailureReason → Bool
is_page_failure_reason FailureReason.wallet_rejected = true
is_page_failure_reason FailureReason.wallet_provider_error = true
is_page_failure_reason FailureReason.signing_disconnected = true
is_page_failure_reason FailureReason.network_error = true
is_page_failure_reason FailureReason.unknown_failure = true
is_page_failure_reason _ = false

abbrev is_chain_execution_failed : FailureReason → Bool
is_chain_execution_failed FailureReason.chain_execution_failed = true
is_chain_execution_failed _ = false

-- `session.reviewState?.walletReviewAdapterContract?.transactionMaterialCommitment`.
abbrev pub reviewed_commitment : Option ReviewState → Option String
reviewed_commitment none = none
reviewed_commitment (some state) = elim state.wallet_review_adapter_contract [
  | none ↦ none
  | some contract ↦ some contract.transaction_material_commitment
]

abbrev differs_from : Option String → String → Bool
differs_from none d = false
differs_from (some c) d = not (d == c)

-- `assertPageExecutionResultTransition`.
unfoldable pub assert_page_result : ReviewSession → ExecutionResult → Outcome (Unit {0})
unfolding is_page_failure_reason
assert_page_result session (ExecutionResult.success b d r) = fail ErrorCode.input_invalid
assert_page_result session (ExecutionResult.signed_pending_result b d) =
    if differs_from (reviewed_commitment session.review_state) d
    then fail ErrorCode.handoff_commitment_mismatch
    else ok tt
assert_page_result session (ExecutionResult.failure b d f r) =
    if not (is_page_failure_reason f) || is_some d
    then fail ErrorCode.input_invalid
    else if is_pending_result session.execution_result
    then fail ErrorCode.signed_pending_result_conflict
    else ok tt

-- The digest of a pending result.
abbrev pub pending_digest : Option ExecutionResult → Option String
pending_digest (some (ExecutionResult.signed_pending_result b d)) = some d
pending_digest _ = none

-- The tests on a final result of the chain that has the pending digest.
assert_chain_final : ExecutionResult → Outcome (Unit {0})
unfolding is_chain_failure_reason
assert_chain_final (ExecutionResult.signed_pending_result b d) = fail ErrorCode.input_invalid
assert_chain_final (ExecutionResult.success b d r) = ok tt
assert_chain_final (ExecutionResult.failure b d f r) =
    if not (is_chain_failure_reason f)
    then fail ErrorCode.input_invalid
    else if is_chain_execution_failed f && not (is_some r)
    then fail ErrorCode.input_invalid
    else ok tt

-- `assertChainExecutionResultTransition`.
unfoldable pub assert_chain_result : ReviewSession → ExecutionResult → Outcome (Unit {0})
unfolding assert_chain_final
assert_chain_result session result =
    if not (is_pending_result session.execution_result)
    then fail ErrorCode.invalid_session_transition
    else if is_pending_result (some result)
    then fail ErrorCode.input_invalid
    else if not (same_text (result_digest result) (pending_digest session.execution_result))
    then fail ErrorCode.signed_pending_result_conflict
    else assert_chain_final result

-- What `recordExecutionResultInternal` decides before it writes: an error, the stored session
-- (the same pending result again), or a session to write.
pub data Decision : Type 0 where
  refuse : ErrorCode → Decision
  -- Refused, and the transaction material is dropped.
  refuse_dropping : ErrorCode → Decision
  repeat : Decision
  write : ReviewSession → String → Decision

abbrev pending_plan : Option ExecutionResult → Option String
pending_plan (some (ExecutionResult.signed_pending_result b d)) = some b.plan_id
pending_plan _ = none

abbrev bound_state_account : ReviewSession → Option String
bound_state_account session = elim session.review_state [
  | none ↦ none
  | some state ↦ some state.account
]

-- The session that a result moves on to.
unfoldable pub settle : ReviewSession → ExecutionResult → String → Decision
settle session result at = elim (transition session (result_status result)) [
  | err e ↦ refuse ErrorCode.invalid_session_transition
  | ok moved ↦ elim session.account [
    | none ↦ refuse ErrorCode.invalid_session_transition
    | some account ↦
        if account == "" || not (same_text (bound_state_account session) (some account))
        then refuse ErrorCode.invalid_session_transition
        else write
            (touch
              (record moved {
                account = some account;
                execution_result = some result;
                pending_handoff_digest = none;
              })
              at)
            account
  ]
]

unfoldable pub decide_result : ReviewSession → ExecutionResult → String → Decision
decide_result session result at =
    if is_final_result session.execution_result
    then refuse_dropping ErrorCode.execution_result_finalized
    else if is_pending_result session.execution_result && is_pending_result (some result)
    then (if same_text (pending_plan session.execution_result) (pending_plan (some result))
          && same_text (pending_digest session.execution_result) (result_digest result)
        then repeat
        else refuse_dropping ErrorCode.signed_pending_result_conflict)
    else if is_pending_result session.execution_result
        && not (same_text (pending_digest session.execution_result) (result_digest result))
    then refuse_dropping ErrorCode.signed_pending_result_conflict
    else settle session result at

-- The `catch` of the final write.
unfoldable pub drop_on_error :
    Env → String → Outcome ReviewSession × World → Outcome ReviewSession × World
drop_on_error env id (ok s, w) = (ok s, w)
drop_on_error env id (err e, w) = (err e, delete_materials env id w)

-- The `try` block of the final write.
unfoldable pub write_result :
    Env
    → String
    → ReviewSession
    → ReviewSession
    → ExecutionResult
    → String
    → String
    → Op ReviewSession
write_result env id session next result account at = do
  record_transition env (ActivityWrite.review_execution account session.status result at) session
      next deleting false
  log env (record (plain_event EventType.result_recorded id at) {
    plan_id = some (result_base result).plan_id;
    tx_digest = result_digest result;
    status = review_status_is (result_status result);
  })
  return next

unfoldable pub carry_out :
    Env → String → ReviewSession → ExecutionResult → String → Decision → Op ReviewSession
carry_out env id session result at (refuse code) = lift (fail code)
carry_out env id session result at (refuse_dropping code) = do
  modify (delete_materials env id)
  lift (fail code)
carry_out env id session result at repeat = do modify (delete_materials env id); return session
carry_out env id session result at (write next account) =
    catching (drop_on_error env id) (write_result env id session next result account at)

-- `recordExecutionResultInternal`.
unfoldable pub record_result_internal :
    Env → String → ReviewSession → ExecutionResult → ℕ → Op ReviewSession
record_result_internal env id session result now = do
  lift (assert_same_session_id id (result_base result).review_session_id)
  lift (assert_plan_in_session session (result_base result).plan_id)
  let at = env.host.to_iso now
  carry_out env id session result at (decide_result session result at)

-- `recordExecutionResult`.
unfoldable pub record_execution_result : Env → String → ExecutionResult → ℕ → Op ReviewSession
record_execution_result env id result now = do
  session ← require_mutable_session env id now
  parsed ← lift (parse_execution_result env result)
  lift (assert_page_result session parsed)
  record_result_internal env id session parsed now

-- `recordChainExecutionResult`.
unfoldable pub record_chain_execution_result : Env → String → ExecutionResult → ℕ → Op ReviewSession
record_chain_execution_result env id result now = do
  session ← require_mutable_session env id now
  branch (is_final_result session.execution_result)
      (do modify (delete_materials env id); lift (fail ErrorCode.execution_result_finalized))
      (return tt)
  parsed ← lift (parse_execution_result env result)
  lift (assert_chain_result session parsed)
  record_result_internal env id session parsed now
