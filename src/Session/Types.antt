-- ===== src/Session/Types.antt =====
-- The data of a review session: src/core/action/types.ts and src/core/session/localSession.ts.
-- A value that the session layer stores, hands on and compares, and never looks into (check
-- texts, simulation summaries, asset flows), is a `Document`: its canonical JSON text.
use say_ur_intent.Prelude.{
  ℕ, String, List, Option, String-discrete, Bool, true, false, ite, ◌≡◌, ◌↔◌, some, arith,
}
use say_ur_intent.Receipt.Mapping.{PackageCall}
use say_ur_intent.Receipt.Evidence.{AccountBalanceChange, SuiChainReceiptEvidence}

abbrev pub Document : Type 0
Document = String

pub data ReviewStatus : Type 0 where
  ready_for_wallet_review refresh_required blocked : ReviewStatus

pub data SessionStatus : Type 0 where
  proposed awaiting_wallet wallet_connected : SessionStatus
  ready_for_wallet_review refresh_required blocked : SessionStatus
  signed_pending_result success failure expired : SessionStatus

pub data FailureReason : Type 0 where
  wallet_rejected wallet_provider_error signing_disconnected network_error : FailureReason
  transaction_submit_failed execution_result_unavailable : FailureReason
  chain_receipt_unavailable receipt_verification_failed chain_execution_failed : FailureReason
  unknown_failure : FailureReason

pub data RefreshReason : Type 0 where
  quote_stale quote_unavailable simulation_transient_failure : RefreshReason

pub data BlockedReason : Type 0 where
  adapter_not_implemented producer_stage_missing : BlockedReason
  wallet_review_contract_emit_missing wallet_handoff_not_implemented : BlockedReason
  network_mismatch insufficient_balance insufficient_gas allowlist_violation : BlockedReason
  asset_mismatch amount_mismatch wallet_mismatch unsupported_action : BlockedReason
  object_resolution_failed proposal_review_only : BlockedReason

pub data CheckStatus : Type 0 where
  pass warning fail : CheckStatus

pub data CheckSource : Type 0 where
  registry quote wallet simulation adapter network proposal : CheckSource

pub record ReviewCheck : Type 0 where
  pub id : String
  pub label : String
  pub status : CheckStatus
  pub message : String
  pub source : CheckSource

-- The wallet review contract, of which the session layer reads the commitment.
pub record WalletReviewContract : Type 0 where
  pub transaction_material_commitment : String
  pub terms : Document

pub record ReviewState : Type 0 where
  pub plan_id : String
  pub review_session_id : String
  pub account : String
  pub status : ReviewStatus
  pub blocked_reason : Option BlockedReason
  pub refresh_reason : Option RefreshReason
  pub checks : List ReviewCheck
  pub asset_flow_actual : Option Document
  pub before_after_balance : Option Document
  pub simulation : Option Document
  pub human_readable_review : Option Document
  pub wallet_review_adapter_contract : Option WalletReviewContract
  pub ptb_visualization : Option Document
  pub adapter_lifecycle : Option Document
  pub updated_at : String

pub record ActionPlan : Type 0 where
  pub id : String
  pub proposal : Document

abbrev pub ChainReceipt : Type 0
ChainReceipt = SuiChainReceiptEvidence

pub record ResultBase : Type 0 where
  pub review_session_id : String
  pub plan_id : String
  pub explorer_url : Option String
  pub summary : Option Document
  pub recorded_at : String

pub data ExecutionResult : Type 0 where
  signed_pending_result : ResultBase → String → ExecutionResult
  success : ResultBase → String → ChainReceipt → ExecutionResult
  failure : ResultBase → Option String → FailureReason → Option ChainReceipt → ExecutionResult

pub record LocalSessionBase : Type 0 where
  pub id : String
  pub token_hash : String
  pub created_at : String
  pub expires_at : String
  pub last_activity_at : String

pub record ReviewSession : Type 0 where
  pub base : LocalSessionBase
  pub open base use *
  pub pending_handoff_digest : Option String
  pub status : SessionStatus
  pub plans : List ActionPlan
  pub account : Option String
  pub review_state : Option ReviewState
  pub execution_result : Option ExecutionResult

pub SessionStatus-discrete : Discrete SessionStatus
SessionStatus-discrete = hlevel

ℕ-discrete : Discrete ℕ
ℕ-discrete m n = ground arith

AccountBalanceChange-discrete : Discrete AccountBalanceChange
AccountBalanceChange-discrete = hlevel (String-discrete, ℕ-discrete)

PackageCall-discrete : Discrete PackageCall
PackageCall-discrete = hlevel (String-discrete, ℕ-discrete)

SuiChainReceiptEvidence-discrete : Discrete SuiChainReceiptEvidence
SuiChainReceiptEvidence-discrete =
    hlevel (String-discrete, AccountBalanceChange-discrete, PackageCall-discrete)

ExecutionResult-discrete : Discrete ExecutionResult
ExecutionResult-discrete = hlevel (String-discrete, SuiChainReceiptEvidence-discrete)

ReviewState-discrete : Discrete ReviewState
ReviewState-discrete = hlevel String-discrete

pub ReviewSession-discrete : Discrete ReviewSession
ReviewSession-discrete = hlevel (String-discrete, ExecutionResult-discrete, ReviewState-discrete)

-- `===` on statuses, and `isDeepStrictEqual` on sessions.
unfoldable pub same_status : SessionStatus → SessionStatus → Bool
unfolding SessionStatus-discrete
same_status a b = ite (SessionStatus-discrete a b) true false

unfoldable pub same_session : ReviewSession → ReviewSession → Bool
same_session a b = ite (ReviewSession-discrete a b) true false

pub same_status_iff : (a b : SessionStatus) → (same_status a b ≡ true) ↔ (a ≡ b)
unfolding same_status
same_status_iff a b = ground arith

pub same_session_iff : (a b : ReviewSession) → (same_session a b ≡ true) ↔ (a ≡ b)
unfolding same_session
same_session_iff a b = ground arith

-- The account, plan and digest that an execution result names.
abbrev pub result_base : ExecutionResult → ResultBase
result_base (ExecutionResult.signed_pending_result b d) = b
result_base (ExecutionResult.success b d r) = b
result_base (ExecutionResult.failure b d f r) = b

abbrev pub result_digest : ExecutionResult → Option String
result_digest (ExecutionResult.signed_pending_result b d) = some d
result_digest (ExecutionResult.success b d r) = some d
result_digest (ExecutionResult.failure b d f r) = d

abbrev pub result_status : ExecutionResult → SessionStatus
result_status (ExecutionResult.signed_pending_result b d) = SessionStatus.signed_pending_result
result_status (ExecutionResult.success b d r) = SessionStatus.success
result_status (ExecutionResult.failure b d f r) = SessionStatus.failure

abbrev pub review_status : ReviewStatus → SessionStatus
review_status ReviewStatus.ready_for_wallet_review = SessionStatus.ready_for_wallet_review
review_status ReviewStatus.refresh_required = SessionStatus.refresh_required
review_status ReviewStatus.blocked = SessionStatus.blocked
