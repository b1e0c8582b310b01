-- ===== src/Numeric/Scalar.antt =====
-- `decimalsFromScalar` of src/core/read/coinMetadata.ts, at whole numbers; a number with a
-- fraction or below 0 is refused by the first test, as 0 is.
use native.Mathlib.Numerals.{unary_clauses}
use say_ur_intent.Prelude.{
  ℕ, zero, suc, ◌+◌, ◌-◌, ◌*◌, ◌/◌, ◌%◌, ◌^◌, ◌<◌, ◌≤◌, ◌&&◌, ◌||◌, ltb, eqb, if◌then◌else◌, Option,
  some, none, ◌≡◌, ◌↔◌, sym, ap, ◌∙◌, arith, Bool-cases, inl, inr,
}

-- `Number.MAX_SAFE_INTEGER`.
abbrev pub max_safe_integer : ℕ
max_safe_integer = 2 ^ 53 - 1

-- The loop: a factor of ten leaves the value in a round.
unfoldable pub strip_tens : ℕ → ℕ → ℕ → ℕ × ℕ
strip_tens zero value decimals = (value, decimals)
strip_tens (suc fuel) value decimals =
    let rest = strip_tens fuel (value / 10) (suc decimals) in
    if ltb 1 value && eqb (value % 10) 0 then rest else (value, decimals)

unfoldable pub decimals_of : ℕ × ℕ → Option ℕ
decimals_of (value, decimals) = if eqb value 1 then some decimals else none

unfoldable pub decimals_from_scalar : ℕ → Option ℕ
unfolding strip_tens decimals_of
decimals_from_scalar scalar =
    if ltb max_safe_integer scalar || ltb scalar 1
    then none
    else decimals_of (strip_tens scalar scalar 0)

-- A power of ten is stripped to one.
power_suc : (d : ℕ) → 10 ^ suc d ≡ 10 ^ d * 10
power_suc d = simp unary_clauses (omega arith)

power_positive : (d : ℕ) → 0 < 10 ^ d
power_positive zero = omega arith
power_positive (suc d) = omega (arith, power_positive d, power_suc d)

strip-power : (d f k : ℕ) → 10 ^ d ≤ f → decimals_of (strip_tens f (10 ^ d) k) ≡ some (d + k)
unfolding strip_tens decimals_of
strip-power d zero k h = absurd (omega (arith, power_positive d))
strip-power zero (suc f) k h = ground arith
strip-power (suc d) (suc f) k h =
    let p = power_positive d in
    let e = power_suc d in
    let less : 10 ^ d ≤ f = omega arith in
    let tenth : 10 ^ suc d / 10 ≡ 10 ^ d = omega arith in
    let rest = strip-power d f (suc k) less in
    ground (arith, ap (λ x. strip_tens f x (suc k)) tenth)

-- Whatever is stripped to one was a power of ten.
strip-back :
    (f value k d : ℕ)
    → value ≤ f
    → decimals_of (strip_tens f value k) ≡ some d
    → (k ≤ d) × (value ≡ 10 ^ (d - k))
unfolding strip_tens decimals_of
strip-back zero value k d h e = absurd (ground arith)
strip-back (suc f) value k d h e = elim (Bool-cases (ltb 1 value && eqb (value % 10) 0)) [
  | inl more ↦
      let (le, tenth) = strip-back f (value / 10) (suc k) d (ground arith) (ground arith) in
      let step = power_suc (d - suc k) in
      let same : suc (d - suc k) ≡ d - k = omega arith in
      (omega arith, ground (arith, ap (λ x. 10 ^ x) same))
  | inr last ↦
      let here : (value ≡ 1) × (k ≡ d) = ground arith in
      let none_left : d - k ≡ 0 = omega arith in
      (omega arith, here.0 ∙ ap (λ x. 10 ^ x) (sym none_left))
]

-- The decimals of a scalar are `d` exactly where it is a safe integer and the power `10 ^ d`.
pub decimals_from_scalar-some :
    (scalar d : ℕ)
    → (decimals_from_scalar scalar ≡ some d) ↔ ((scalar ≤ max_safe_integer) × (scalar ≡ 10 ^ d))
unfolding decimals_from_scalar
decimals_from_scalar-some scalar d = (forth, back)
  where
    forth : decimals_from_scalar scalar ≡ some d → (scalar ≤ max_safe_integer) × (scalar ≡ 10 ^ d)
    forth e = elim (Bool-cases (ltb max_safe_integer scalar || ltb scalar 1)) [
      | inl refused ↦ absurd (ground arith)
      | inr accepted ↦
          let (le, power) = strip-back scalar scalar 0 d (omega arith) (ground arith) in
          (ground arith, power ∙ ap (λ x. 10 ^ x) (omega arith))
    ]

    back : (scalar ≤ max_safe_integer) × (scalar ≡ 10 ^ d) → decimals_from_scalar scalar ≡ some d
    back (bound, power) =
        let p = power_positive d in
        let stripped : decimals_of (strip_tens scalar scalar 0) ≡ some d =
          ap (λ x. decimals_of (strip_tens scalar x 0)) power
          ∙ strip-power d scalar 0 (omega arith)
          ∙ ap some (omega arith) in
        ground arith
