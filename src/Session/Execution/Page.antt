-- ===== src/Session/Execution/Page.antt =====
-- Results from the review page: `assertPageExecutionResultTransition`.
use say_ur_intent.Prelude.{String, Bool, true, false, Option, some, none, ◌≡◌}
use say_ur_intent.Session.Types.{ReviewSession, ExecutionResult, FailureReason, result_digest}
use say_ur_intent.Session.World.{World}
use say_ur_intent.Session.Store.Execution.{
  is_pending_result, reviewed_commitment, is_page_failure_reason,
}

abbrev is_success : ExecutionResult → Bool
is_success (ExecutionResult.success b d c) = true
is_success _ = false

abbrev failure_of : ExecutionResult → Option FailureReason
failure_of (ExecutionResult.failure b d f c) = some f
failure_of _ = none

abbrev for_page : Option FailureReason → Bool
for_page none = true
for_page (some f) = is_page_failure_reason f

-- What the review page may report of a session.
pub record FromPage (s : ReviewSession) (r : ExecutionResult) : Type 0 where
  pub no_success : is_success r ≡ false
  pub page_reason : for_page (failure_of r) ≡ true
  pub reviewed_digest :
      (c : String)
      → is_pending_result (some r) ≡ true
      → reviewed_commitment s.review_state ≡ some c
      → result_digest r ≡ some c
