-- ===== src/Session/Status/Polling.antt =====
-- The polling status of a session that is sound, against its stored status.
use say_ur_intent.Prelude.{
  if◌then◌else◌, String, Bool, true, false, Option, some, none, ◌≡◌, ◌↔◌, refl, arith,
}
use say_ur_intent.Session.Types.{SessionStatus, ReviewSession, ExecutionResult, same_status}
use say_ur_intent.Session.Status.{
  PollingStatus, StatusCategory, execution_status_category, is_final_session_status,
  execution_result_status, session_polling_status, get_execution_polling_status,
}
use say_ur_intent.Session.Sound.Predicate.{IsSound, result_fits}

abbrev is_final : StatusCategory → Bool
is_final StatusCategory.final = true
is_final _ = false

-- `polled` is the polling status of a session with this status and result.
categories_agree :
    (status : SessionStatus) (r : Option ExecutionResult)
    → result_fits status r ≡ true
    → let polled =
        if same_status status SessionStatus.expired then PollingStatus.expired else elim r [
          | some result ↦ execution_result_status result
          | none ↦ session_polling_status status
        ] in
      is_final (execution_status_category polled) ≡ is_final_session_status status
unfolding same_status execution_status_category is_final_session_status execution_result_status
    session_polling_status
categories_agree SessionStatus.proposed none f = refl
categories_agree SessionStatus.awaiting_wallet none f = refl
categories_agree SessionStatus.wallet_connected none f = refl
categories_agree SessionStatus.ready_for_wallet_review none f = refl
categories_agree SessionStatus.refresh_required none f = refl
categories_agree SessionStatus.blocked none f = refl
categories_agree SessionStatus.expired r f = refl
categories_agree SessionStatus.signed_pending_result
      (some (ExecutionResult.signed_pending_result b d)) f =
    refl
categories_agree SessionStatus.success (some (ExecutionResult.success b d r)) f = refl
categories_agree SessionStatus.failure (some (ExecutionResult.failure b d e r)) f = refl
categories_agree _ r f = absurd (ground arith)

-- What is polled of a sound session is final exactly where its stored status is.
pub polling-final :
    (id : String) (s : ReviewSession)
    → IsSound id s
    → (execution_status_category (get_execution_polling_status s) ≡ StatusCategory.final)
      ↔ (is_final_session_status s.status ≡ true)
unfolding get_execution_polling_status
polling-final id s h =
    let agree = categories_agree s.status s.execution_result h.result in ground arith
