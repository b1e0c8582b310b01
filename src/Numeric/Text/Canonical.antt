-- ===== src/Numeric/Text/Canonical.antt =====
-- The texts that printing gives.
use Prim.Native.Char.{code}
use Prim.Native.String.{[], ◌∷◌}
use say_ur_intent.Prelude.{
  ℕ, zero, suc, ◌/◌, ◌%◌, ◌<◌, String, Bool, true, false, ◌&&◌, ltb, leb, ◌≡◌, refl, arith,
  Bool-cases, inl, inr,
}
use say_ur_intent.Numeric.Text.{
  is_digit, all_digits, is_unsigned, is_canonical, digit_char, emit_digits, to_decimal,
}
use say_ur_intent.Numeric.Text.RoundTrip.{code-digit_char}

-- Digits, the first of them not zero.
leads : String → Bool
leads [] = false
leads (c ∷ s) = leb 49 (code c) && leb (code c) 57 && all_digits s

emit_first :
    (d : ℕ) (out : String)
    → 0 < d
    → d < 10
    → all_digits out ≡ true
    → leads (digit_char d ∷ out) ≡ true
unfolding leads
emit_first d out p h a = ground (arith, code-digit_char d h)

all_digits-digit :
    (d : ℕ) (out : String) → d < 10 → all_digits out ≡ true → all_digits (digit_char d ∷ out) ≡ true
unfolding all_digits is_digit
all_digits-digit d out h a = ground (arith, code-digit_char d h)

leads-emit :
    (f n : ℕ) (out : String)
    → 0 < n
    → n < f
    → all_digits out ≡ true
    → leads (emit_digits f n out) ≡ true
unfolding emit_digits
leads-emit zero n out p h a = absurd (omega arith)
leads-emit (suc f) n out p h a = elim (Bool-cases (ltb n 10)) [
  | inl small ↦ let first = emit_first n out p (ground arith) a in ground arith
  | inr big ↦
      let last = all_digits-digit (n % 10) out (omega arith) a in
      let rest =
        leads-emit f (n / 10) (digit_char (n % 10) ∷ out) (ground arith) (omega arith) last in
      ground arith
]

leads-canonical : (s : String) → leads s ≡ true → is_canonical s ≡ true
unfolding leads is_canonical all_digits is_digit
leads-canonical [] h = absurd (ground arith)
leads-canonical (c ∷ []) h = ground arith
leads-canonical (c ∷ d ∷ s) h = ground arith

pub canonical-is_unsigned : (s : String) → is_canonical s ≡ true → is_unsigned s ≡ true
unfolding is_canonical is_unsigned all_digits is_digit
canonical-is_unsigned [] h = h
canonical-is_unsigned (c ∷ []) h = ground arith
canonical-is_unsigned (c ∷ d ∷ s) h = ground arith

all_digits_nil : all_digits "" ≡ true
unfolding all_digits
all_digits_nil = refl

zero_canonical : is_canonical (to_decimal 0) ≡ true
unfolding is_canonical to_decimal emit_digits is_digit digit_char
zero_canonical = refl

pub is_canonical-to_decimal : (n : ℕ) → is_canonical (to_decimal n) ≡ true
unfolding to_decimal
is_canonical-to_decimal zero = zero_canonical
is_canonical-to_decimal (suc n) =
    leads-canonical (emit_digits (suc (suc n)) (suc n) "")
      (leads-emit (suc (suc n)) (suc n) "" (omega arith) (omega arith) all_digits_nil)
