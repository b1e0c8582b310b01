-- ===== src/Session/Errors.antt =====
-- Thrown errors as values: src/core/session/sessionErrors.ts, and the other errors that its
-- callers tell apart.
use say_ur_intent.Prelude.{Bool, true, false, ◌≡◌, refl, ◌⊎◌, inl, inr}

pub data ErrorCode : Type 0 where
  active_account_not_set input_invalid invalid_session_transition plan_not_in_session : ErrorCode
  execution_result_finalized signed_pending_result_conflict : ErrorCode
  session_expired session_not_found session_mismatch : ErrorCode
  handoff_unavailable handoff_commitment_mismatch : ErrorCode

-- The one thing that the code reads of a message: whether it says that the session changed
-- before the transition committed.
pub data Message : Type 0 where
  changed_before_commit : Message
  other_message : Message

pub data Thrown : Type 0 where
  session_error : ErrorCode → Message → Thrown
  -- LocalTransactionMaterialStoreError
  material_error : Thrown
  -- any other `Error`, of zod among them
  other_error : Thrown

pub data Outcome (A : Type 0) : Type 0 where
  ok : A → Outcome A
  err : Thrown → Outcome A

abbrev pub fail : {A : Type 0} → ErrorCode → Outcome A
fail code = err (session_error code other_message)

abbrev pub is_session_error : Thrown → Bool
is_session_error (session_error c m) = true
is_session_error material_error = false
is_session_error other_error = false

pub Outcome-cases :
    {A : Type 0} (r : Outcome A) → ((a : A) × (r ≡ ok a)) ⊎ ((e : Thrown) × (r ≡ err e))
Outcome-cases (ok a) = inl (a, refl)
Outcome-cases (err e) = inr (e, refl)
