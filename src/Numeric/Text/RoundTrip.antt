-- ===== src/Numeric/Text/RoundTrip.antt =====
-- Printing a number and reading a text of digits.
use Prim.Native.Char.{Char, code}
use Prim.Native.String.{[], ◌∷◌}
use text.Mathlib.TextEquality.{Char-path}
use say_ur_intent.Prelude.{
  ℕ, zero, suc, ◌+◌, ◌-◌, ◌*◌, ◌/◌, ◌%◌, ◌<◌, ◌≤◌, String, true, ◌&&◌, ltb, leb, ◌≡◌, refl, arith,
  ap, ◌∙◌, Bool-cases, inl, inr,
}
use say_ur_intent.Numeric.Text.{
  is_digit, all_digits, is_canonical, digits_value, big_int, digit_char, emit_digits, to_decimal,
}

pub code-digit_char : (d : ℕ) → d < 10 → code (digit_char d) ≡ 48 + d
unfolding digit_char
code-digit_char zero h = refl
code-digit_char (suc zero) h = refl
code-digit_char (suc (suc zero)) h = refl
code-digit_char (suc (suc (suc zero))) h = refl
code-digit_char (suc (suc (suc (suc zero)))) h = refl
code-digit_char (suc (suc (suc (suc (suc zero))))) h = refl
code-digit_char (suc (suc (suc (suc (suc (suc zero)))))) h = refl
code-digit_char (suc (suc (suc (suc (suc (suc (suc zero))))))) h = refl
code-digit_char (suc (suc (suc (suc (suc (suc (suc (suc zero)))))))) h = refl
code-digit_char (suc (suc (suc (suc (suc (suc (suc (suc (suc zero))))))))) h = refl
code-digit_char (suc (suc (suc (suc (suc (suc (suc (suc (suc (suc d)))))))))) h =
    absurd (omega arith)

digit_char-code : (c : Char) → is_digit c ≡ true → digit_char (code c - 48) ≡ c
unfolding is_digit
digit_char-code c h =
    Char-path (digit_char (code c - 48)) c (ground (arith, code-digit_char (code c - 48)))

-- Reading what was printed before a text is reading the text behind the number.
digits_value-emit :
    (fuel n : ℕ) (out : String)
    → n < fuel
    → digits_value 0 (emit_digits fuel n out) ≡ digits_value n out
unfolding emit_digits digits_value
digits_value-emit zero n out h = absurd (omega arith)
digits_value-emit (suc fuel) n out h = ground (
  arith,
  code-digit_char n,
  code-digit_char (n % 10),
  digits_value-emit fuel (n / 10) (digit_char (n % 10) ∷ out),
)

-- Any fuel above the number prints the same.
emit_enough : (f g n : ℕ) (out : String) → n < f → n < g → emit_digits f n out ≡ emit_digits g n out
unfolding emit_digits
emit_enough zero g n out h k = absurd (omega arith)
emit_enough (suc f) zero n out h k = absurd (omega arith)
emit_enough (suc f) (suc g) n out h k =
    ground (arith, emit_enough f g (n / 10) (digit_char (n % 10) ∷ out))

-- The last digit comes last.
emit_last :
    (f g n d : ℕ) (out : String)
    → d < 10
    → 0 < n
    → n * 10 + d < f
    → n < g
    → emit_digits f (n * 10 + d) out ≡ emit_digits g n (digit_char d ∷ out)
unfolding emit_digits
emit_last zero g n d out a b h k = absurd (omega arith)
emit_last (suc f) g n d out a b h k =
    let e : (n * 10 + d) / 10 ≡ n = omega arith in
    let r : (n * 10 + d) % 10 ≡ d = omega arith in
    let same = emit_enough f g n (digit_char d ∷ out) (omega arith) k in
    elim (Bool-cases (ltb (n * 10 + d) 10)) [
      | inl small ↦ absurd (ground arith)
      | inr big ↦ ground (arith, ap (λ x. emit_digits f x (digit_char d ∷ out)) e)
    ]

le-digits_value : (n : ℕ) (s : String) → n ≤ digits_value n s
unfolding digits_value
le-digits_value n [] = omega arith
le-digits_value n (c ∷ s) = omega (arith, le-digits_value (n * 10 + (code c - 48)) s)

-- Printing what a text of digits spells behind a number gives the number and the text.
digit_below : (c : Char) → is_digit c ≡ true → code c - 48 < 10
unfolding is_digit
digit_below c h = ground arith

leading_digit : (c : Char) → (leb 49 (code c) && leb (code c) 57) ≡ true → is_digit c ≡ true
unfolding is_digit
leading_digit c h = ground arith

emit_one : (d : ℕ) (out : String) → d < 10 → emit_digits (suc d) d out ≡ digit_char d ∷ out
unfolding emit_digits
emit_one d out h = ground arith

digits_value_nil : (n : ℕ) → digits_value n "" ≡ n
unfolding digits_value
digits_value_nil n = refl

emit-digits_value :
    (s : String) (f g n : ℕ)
    → 0 < n
    → all_digits s ≡ true
    → digits_value n s < f
    → n < g
    → emit_digits f (digits_value n s) "" ≡ emit_digits g n s
unfolding digits_value all_digits
emit-digits_value [] f g n p a h k = emit_enough f g n "" h k
emit-digits_value (c ∷ s) f g n p a h k =
    let d = code c - 48 in
    let digit : is_digit c ≡ true = ground arith in
    let small : d < 10 = digit_below c digit in
    emit-digits_value s f (suc (n * 10 + d)) (n * 10 + d) (omega arith) (ground arith) h
      (omega arith)
    ∙ emit_last (suc (n * 10 + d)) g n d s small p (omega arith) k
    ∙ ap (λ x. emit_digits g n (x ∷ s)) (digit_char-code c digit)

first_digit : (c : Char) (s : String) → digits_value 0 (c ∷ s) ≡ digits_value (code c - 48) s
unfolding digits_value
first_digit c s = ap (λ x. digits_value x s) (omega arith)

pub print_one : (c : Char) → is_digit c ≡ true → to_decimal (code c - 48) ≡ c ∷ ""
unfolding to_decimal
print_one c h = emit_one (code c - 48) "" (digit_below c h) ∙ ap (λ x. x ∷ "") (digit_char-code c h)

print_more :
    (c : Char) (s : String)
    → (leb 49 (code c) && leb (code c) 57) ≡ true
    → all_digits s ≡ true
    → to_decimal (digits_value (code c - 48) s) ≡ c ∷ s
unfolding to_decimal
print_more c s h a =
    let digit : is_digit c ≡ true = leading_digit c h in
    let small = digit_below c digit in
    let positive : 0 < code c - 48 = ground arith in
    emit-digits_value s (suc (digits_value (code c - 48) s)) (suc (code c - 48)) (code c - 48)
      positive a (omega arith) (omega arith)
    ∙ emit_one (code c - 48) s small
    ∙ ap (λ x. x ∷ s) (digit_char-code c digit)

canonical_parts :
    (c e : Char) (s : String)
    → is_canonical (c ∷ e ∷ s) ≡ true
    → ((leb 49 (code c) && leb (code c) 57) ≡ true) × (all_digits (e ∷ s) ≡ true)
unfolding is_canonical
canonical_parts c e s h = (ground arith, ground arith)

canonical_one : (c : Char) → is_canonical (c ∷ []) ≡ true → is_digit c ≡ true
unfolding is_canonical
canonical_one c h = h

canonical_nil : ¬ (is_canonical "" ≡ true)
unfolding is_canonical
canonical_nil h = ground arith

-- A canonical text is the print of the number that it spells.
pub to_decimal-big_int : (s : String) → is_canonical s ≡ true → to_decimal (big_int s) ≡ s
unfolding big_int
to_decimal-big_int [] h = absurd (canonical_nil h)
to_decimal-big_int (c ∷ []) h =
    ap to_decimal (first_digit c [] ∙ digits_value_nil (code c - 48))
    ∙ print_one c (canonical_one c h)
to_decimal-big_int (c ∷ e ∷ s) h =
    let (lead, rest) = canonical_parts c e s h in
    ap to_decimal (first_digit c (e ∷ s)) ∙ print_more c (e ∷ s) lead rest

pub big_int-to_decimal : (n : ℕ) → big_int (to_decimal n) ≡ n
unfolding big_int to_decimal
big_int-to_decimal n = digits_value-emit (suc n) n "" (omega arith) ∙ digits_value_nil n
