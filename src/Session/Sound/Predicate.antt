-- ===== src/Session/Sound/Predicate.antt =====
-- What holds of each stored review session between two operations.
use say_ur_intent.Prelude.{
  String, Bool, true, false, Option, some, none, List, [], ◌∷◌, Map, lookup, insert, lookup-insert,
  ◌≡◌, ◌==◌, eq_iff, ◌&&◌, arith, same_text, truthy,
}
use say_ur_intent.Session.Types.{
  SessionStatus, ReviewSession, ReviewState, ExecutionResult, ActionPlan,
}

-- The execution result belongs to the status. An expired session may keep a pending result, never
-- a final one, and a recorded success carries the receipt of its digest.
abbrev pub result_fits : SessionStatus → Option ExecutionResult → Bool
result_fits SessionStatus.signed_pending_result (some (ExecutionResult.signed_pending_result b d)) =
    true
result_fits SessionStatus.success (some (ExecutionResult.success b d r)) = d == r.tx_digest
result_fits SessionStatus.failure (some (ExecutionResult.failure b d f r)) = true
result_fits SessionStatus.expired (some (ExecutionResult.signed_pending_result b d)) = true
result_fits SessionStatus.signed_pending_result none = false
result_fits SessionStatus.success none = false
result_fits SessionStatus.failure none = false
result_fits _ none = true
result_fits _ (some r) = false

-- A review state stands on the account that the session is bound to, which is not empty.
abbrev pub state_fits : Option String → Option ReviewState → Bool
state_fits account none = true
state_fits account (some state) = truthy account && same_text account (some state.account)

-- No result without a review state.
abbrev pub result_has_state : Option ReviewState → Option ExecutionResult → Bool
result_has_state none (some r) = false
result_has_state none none = true
result_has_state (some s) r = true

abbrev pub one_plan : List ActionPlan → Bool
one_plan (p ∷ []) = true
one_plan _ = false

pub record IsSound (id : String) (s : ReviewSession) : Type 0 where
  pub named : s.id ≡ id
  pub planned : one_plan s.plans ≡ true
  pub result : result_fits s.status s.execution_result ≡ true
  pub state : state_fits s.account s.review_state ≡ true
  pub reviewed : result_has_state s.review_state s.execution_result ≡ true

abbrev pub AllSound : Map ReviewSession → Type 0
AllSound m = (id : String) (s : ReviewSession) → lookup id m ≡ some s → IsSound id s

pub AllSound-insert :
    (id : String) (s : ReviewSession) (m : Map ReviewSession)
    → IsSound id s
    → AllSound m
    → AllSound (insert id s m)
AllSound-insert id s m h all j t e = ground (arith, lookup-insert j id s m, eq_iff id j, all j t)

pub AllSound-nil : AllSound []
unfolding lookup
AllSound-nil j t e = ground arith
