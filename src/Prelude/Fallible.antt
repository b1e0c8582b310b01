-- ===== src/Prelude/Fallible.antt =====
-- Code that may throw, where what it throws does not matter to its caller: `none` is a throw.
use mathlib.Core.Path.{◌≡◌, refl}
use mathlib.Core.Bool.{Bool, true, false}
use mathlib.Core.Option.{Option, none, some}
use native.Mathlib.Omega.{arith}

infixl 5 ◌>>=◌
abbrev pub ◌>>=◌ {ℓ κ} : {A : Type ℓ} {B : Type κ} → Option A → (A → Option B) → Option B
none >>= f = none
some a >>= f = f a

infixl 5 ◌>>◌
abbrev pub ◌>>◌ {ℓ κ} : {A : Type ℓ} {B : Type κ} → Option A → Option B → Option B
o >> p = o >>= λ a. p

-- Throws where a test fails.
abbrev pub ensure : Bool → Option (Unit {0})
ensure true = some tt
ensure false = none

pub bind-some {ℓ κ} :
    {A : Type ℓ} {B : Type κ} (o : Option A) (f : A → Option B) (b : B)
    → (o >>= f) ≡ some b
    → (a : A) × (o ≡ some a) × (f a ≡ some b)
bind-some none f b e = absurd (ground arith)
bind-some (some a) f b e = (a, refl, e)

pub ensure-some : (t : Bool) (u : Unit {0}) → ensure t ≡ some u → t ≡ true
ensure-some true u e = refl
ensure-some false u e = absurd (ground arith)
