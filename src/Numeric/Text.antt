-- ===== src/Numeric/Text.antt =====
-- Decimal texts: the regular expressions of src/core/numeric/rawU64.ts, `BigInt` of a text of
-- digits, and `toString` of a natural number.
pub mod RoundTrip
pub mod Canonical
use Prim.Native.Char.{Char, code}
use Prim.Native.String.{[], ◌∷◌}
use say_ur_intent.Prelude.{
  ℕ, zero, suc, ◌+◌, ◌-◌, ◌*◌, ◌/◌, ◌%◌, String, Bool, true, false, ◌&&◌, ltb, leb, eqb,
  if◌then◌else◌,
}

unfoldable pub is_digit : Char → Bool
is_digit c = leb 48 (code c) && leb (code c) 57

-- `/^[0-9]*$/`.
unfoldable pub all_digits : String → Bool
unfolding is_digit
all_digits [] = true
all_digits (c ∷ s) = is_digit c && all_digits s

-- `/^\d+$/`.
unfoldable pub is_unsigned : String → Bool
unfolding all_digits
is_unsigned [] = false
is_unsigned (c ∷ s) = all_digits (c ∷ s)

-- `/^(?:0|[1-9][0-9]*)$/`.
unfoldable pub is_canonical : String → Bool
unfolding all_digits
is_canonical [] = false
is_canonical (c ∷ []) = is_digit c
is_canonical (c ∷ d ∷ s) = leb 49 (code c) && leb (code c) 57 && all_digits (d ∷ s)

-- The number that digits spell behind `n`.
unfoldable pub digits_value : ℕ → String → ℕ
digits_value n [] = n
digits_value n (c ∷ s) = digits_value (n * 10 + (code c - 48)) s

-- `BigInt`, at a text of digits.
unfoldable pub big_int : String → ℕ
big_int s = digits_value 0 s

unfoldable pub digit_char : ℕ → Char
digit_char zero = "0"
digit_char (suc zero) = "1"
digit_char (suc (suc zero)) = "2"
digit_char (suc (suc (suc zero))) = "3"
digit_char (suc (suc (suc (suc zero)))) = "4"
digit_char (suc (suc (suc (suc (suc zero))))) = "5"
digit_char (suc (suc (suc (suc (suc (suc zero)))))) = "6"
digit_char (suc (suc (suc (suc (suc (suc (suc zero))))))) = "7"
digit_char (suc (suc (suc (suc (suc (suc (suc (suc zero)))))))) = "8"
digit_char _ = "9"

-- The digits of `n` before a text; a round for each digit.
unfoldable pub emit_digits : ℕ → ℕ → String → String
emit_digits zero n out = out
emit_digits (suc fuel) n out =
    let rest = emit_digits fuel (n / 10) (digit_char (n % 10) ∷ out) in
    if ltb n 10 then digit_char n ∷ out else rest

-- `toString` of a `BigInt` that is not negative.
unfoldable pub to_decimal : ℕ → String
unfolding emit_digits
to_decimal n = emit_digits (suc n) n ""
