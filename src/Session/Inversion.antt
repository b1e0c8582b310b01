-- ===== src/Session/Inversion.antt =====
-- Composed operations, read backwards: what went well on the way to a result.
use say_ur_intent.Prelude.{
  String, Bool, true, false, some, lookup, ◌≡◌, refl, arith, Option-cases, inl, inr, ◌≢◌,
}
use say_ur_intent.Session.Types.{ReviewSession}
use say_ur_intent.Session.Errors.{ErrorCode, Outcome, ok, fail, Outcome-cases}
use say_ur_intent.Session.World.{World, Op, ◌>>=◌, return, lift, branch, with_session}

-- A sequence answers where its first part answered and the second part did after it.
pub bind-ok :
    {A B : Type 0} (m : Op A) (f : A → Op B) (w : World) (b : B)
    → ((m >>= f) w).0 ≡ ok b
    → (a : A) × ((m w).0 ≡ ok a) × ((f a (m w).1).0 ≡ ok b) × (((m >>= f) w).1 ≡ (f a (m w).1).1)
unfolding ◌>>=◌
bind-ok m f w b e = elim (Outcome-cases (m w).0) [
  | inl (a, p) ↦ (a, p, ground arith, ground arith)
  | inr (x, p) ↦ absurd (ground arith)
]

pub lift-ok :
    {A B : Type 0} (r : Outcome A) (f : A → Op B) (w : World) (b : B)
    → ((lift r >>= f) w).0 ≡ ok b
    → (a : A) × (r ≡ ok a) × ((f a w).0 ≡ ok b) × (((lift r >>= f) w).1 ≡ (f a w).1)
unfolding ◌>>=◌ lift
lift-ok r f w b e = elim (Outcome-cases r) [
  | inl (a, p) ↦ (a, p, ground arith, ground arith)
  | inr (x, p) ↦ absurd (ground arith)
]

-- A test whose second way throws was passed.
pub branch-ok :
    {A : Type 0} (b : Bool) (m : Op A) (r : Outcome A) (w : World) (a : A)
    → (branch b m (lift r) w).0 ≡ ok a
    → r ≢ ok a
    → (b ≡ true) × (branch b m (lift r) w ≡ m w)
unfolding branch lift
branch-ok true m r w a e ne = (refl, refl)
branch-ok false m r w a e ne = absurd (ne e)

pub with_session-ok :
    {A : Type 0} (id : String) (missing : Outcome A) (f : ReviewSession → Op A) (w : World) (a : A)
    → (with_session id missing f w).0 ≡ ok a
    → missing ≢ ok a
    → (s : ReviewSession) × (lookup id w.sessions ≡ some s) × (with_session id missing f w ≡ f s w)
unfolding with_session
with_session-ok id missing f w a e ne = elim (Option-cases (lookup id w.sessions)) [
  | inl n ↦ absurd (ne (ground arith))
  | inr (s, p) ↦ (s, p, ground arith)
]

pub returned :
    {A : Type 0} (a b : A) (w : World) → (return a w).0 ≡ ok b → (b ≡ a) × ((return a w).1 ≡ w)
unfolding return
returned a b w e = (ground arith, refl)

pub no_lift :
    {A : Type 0} (code : ErrorCode) (a : A) (w : World) → (lift (fail code) w).0 ≡ ok a → ⊥
unfolding lift
no_lift code a w e = ground arith
