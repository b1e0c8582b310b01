-- ===== src/Session/Sound/Rules.antt =====
-- Postconditions of operations, with a rule for each way of composing them.
use say_ur_intent.Prelude.{Bool, true, false, Option, some, none, ◌≡◌, refl, String, lookup}
use say_ur_intent.Session.Types.{ReviewSession}
use say_ur_intent.Session.Errors.{Outcome, ok, err}
use say_ur_intent.Session.World.{
  World, Op, ◌>>=◌, return, lift, modify, branch, with_session, catching,
}
use say_ur_intent.Session.Sound.Predicate.{IsSound, AllSound}

-- What a result satisfies, if there is one.
abbrev pub Holds : {A : Type 0} → (A → Type 0) → Outcome A → Type 0
Holds Q (ok a) = Q a
Holds Q (err e) = Unit {0}

-- From sound sessions the operation leads to sound sessions, also where it throws, and its
-- result satisfies `Q`.
pub record Ensures {A : Type 0} (m : Op A) (Q : A → Type 0) : Type 0 where
  pub apply : (w : World) → AllSound w.sessions → AllSound (m w).1.sessions × Holds Q (m w).0

abbrev pub Any : {A : Type 0} → A → Type 0
Any a = Unit {0}

bind_at :
    {A B : Type 0} (Q : A → Type 0) (R : B → Type 0) (f : A → Op B) (r : Outcome A) (w : World)
    → Holds Q r
    → AllSound w.sessions
    → ((a : A) → Q a → Ensures (f a) R)
    → let next : Outcome B × World = elim r [ ok a ↦ f a w | err e ↦ (err e, w) ] in
      AllSound next.1.sessions × Holds R next.0
bind_at Q R f (ok a) w q s h = (h a q).apply w s
bind_at Q R f (err e) w q s h = (s, tt)

pub Ensures-bind :
    {A B : Type 0} {Q : A → Type 0} {R : B → Type 0} {m : Op A} {f : A → Op B}
    → Ensures m Q
    → ((a : A) → Q a → Ensures (f a) R)
    → Ensures (m >>= f) R
unfolding ◌>>=◌
Ensures-bind {Q} {R} {m} {f} hm hf = record {
  apply = λ w s. bind_at Q R f (m w).0 (m w).1 (hm.apply w s).1 (hm.apply w s).0 hf;
}

pub Ensures-lift : {A : Type 0} {Q : A → Type 0} (r : Outcome A) → Holds Q r → Ensures (lift r) Q
unfolding lift
Ensures-lift r q = record { apply = λ w s. (s, q) }

pub Ensures-return : {A : Type 0} {Q : A → Type 0} (a : A) → Q a → Ensures (return a) Q
unfolding return
Ensures-return a q = record { apply = λ w s. (s, q) }

-- A write that leaves the sessions alone.
pub Ensures-modify :
    (f : World → World) → ((w : World) → (f w).sessions ≡ w.sessions) → Ensures (modify f) Any
unfolding modify
Ensures-modify f same = record { apply = λ w s. (rw (same w) s, tt) }

-- An operation that leaves the sessions alone.
pub Ensures-aside :
    {A : Type 0} {Q : A → Type 0} (m : Op A)
    → ((w : World) → (m w).1.sessions ≡ w.sessions)
    → ((w : World) → Holds Q (m w).0)
    → Ensures m Q
Ensures-aside m same q = record { apply = λ w s. (rw (same w) s, q w) }

pub anything : {A : Type 0} (r : Outcome A) → Holds Any r
anything (ok a) = tt
anything (err e) = tt

pub Ensures-quiet :
    {A : Type 0} (m : Op A) → ((w : World) → (m w).1.sessions ≡ w.sessions) → Ensures m Any
Ensures-quiet m same = Ensures-aside m same (λ w. anything (m w).0)

pub Ensures-branch :
    {A : Type 0} {Q : A → Type 0} {m n : Op A} (b : Bool)
    → (b ≡ true → Ensures m Q)
    → (b ≡ false → Ensures n Q)
    → Ensures (branch b m n) Q
unfolding branch
Ensures-branch true hm hn = record { apply = (hm refl).apply }
Ensures-branch false hm hn = record { apply = (hn refl).apply }

-- A `catch` that leaves results and sessions alone.
pub Ensures-catching :
    {A : Type 0} {Q : A → Type 0} (handler : Outcome A × World → Outcome A × World) (m : Op A)
    → ((r : Outcome A) (w : World) → (handler (r, w)).1.sessions ≡ w.sessions)
    → ((r : Outcome A) (w : World) → Holds Q r → Holds Q (handler (r, w)).0)
    → Ensures m Q
    → Ensures (catching handler m) Q
unfolding catching
Ensures-catching handler m same answer h = record {
  apply =
      λ w s. (rw (same (m w).0 (m w).1) (h.apply w s).0, answer (m w).0 (m w).1 (h.apply w s).1);
}

-- An operation on a stored session, which is sound.
pub Ensures-with_session :
    {A : Type 0} (Q : A → Type 0) (id : String) (missing : Outcome A) (f : ReviewSession → Op A)
    → Holds Q missing
    → ((s : ReviewSession) → IsSound id s → Ensures (f s) Q)
    → Ensures (with_session id missing f) Q
unfolding with_session
Ensures-with_session {A} Q id missing f q h = record {
  apply = λ w sound. go w sound (lookup id w.sessions) refl;
}
  where
    go :
        (w : World) (sound : AllSound w.sessions) (found : Option ReviewSession)
        → lookup id w.sessions ≡ found
        → let next : Outcome A × World = elim found [ none ↦ (missing, w) | some s ↦ f s w ] in
          AllSound next.1.sessions × Holds Q next.0
    go w sound none e = (sound, q)
    go w sound (some s) e = (h s (sound id s e)).apply w sound

pub Ensures-weaken :
    {A : Type 0} {Q R : A → Type 0} {m : Op A} → Ensures m Q → ((a : A) → Q a → R a) → Ensures m R
Ensures-weaken {A} {Q} {R} {m} h f = record {
  apply = λ w s. ((h.apply w s).0, weaken (m w).0 (h.apply w s).1);
}
  where
    weaken : (r : Outcome A) → Holds Q r → Holds R r
    weaken (ok a) q = f a q
    weaken (err e) q = tt
