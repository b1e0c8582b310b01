-- ===== src/Numeric/Examples.antt =====
-- The parsers of raw amounts at concrete texts.
use say_ur_intent.Prelude.{false, [], ◌∷◌, some, none, ◌≡◌, ◌↔◌, ◌≤◌, ◌^◌, refl, map}
use say_ur_intent.Numeric.Text.{is_unsigned, big_int, to_decimal}
use say_ur_intent.Numeric.RawU64.{
  RawError, max_raw_u64, ok, err, parse_raw_u64, parse_canonical_raw_u64, sum_raw_amounts,
}
use say_ur_intent.Numeric.RawU64.Bounds.{parse_canonical-ok, sum_raw_amounts-to_decimal}
use say_ur_intent.Numeric.Scalar.{max_safe_integer, decimals_from_scalar, decimals_from_scalar-some}

parse_canonical-ok_example :
    (parse_canonical_raw_u64 "120" false ≡ ok 120)
    ↔ ((120 ≤ max_raw_u64) × ("120" ≡ to_decimal 120))
parse_canonical-ok_example = parse_canonical-ok "120" 120

sum_raw_amounts-to_decimal_example :
    sum_raw_amounts (map to_decimal (2 ∷ 40 ∷ [])) ≡ some (to_decimal 42)
sum_raw_amounts-to_decimal_example = sum_raw_amounts-to_decimal (2 ∷ 40 ∷ [])

decimals_from_scalar-some_example :
    (decimals_from_scalar 1000000 ≡ some 6) ↔ ((1000000 ≤ max_safe_integer) × (1000000 ≡ 10 ^ 6))
decimals_from_scalar-some_example = decimals_from_scalar-some 1000000 6

-- A leading zero is refused only where the text has to be canonical, and 2 ^ 64 does not fit.
leading_zero : parse_canonical_raw_u64 "007" false ≡ err RawError.not_canonical
unfolding parse_canonical_raw_u64 say_ur_intent.Numeric.Text.is_canonical
leading_zero = refl

too_large : parse_raw_u64 "18446744073709551616" false ≡ err RawError.not_u64
unfolding parse_raw_u64 is_unsigned big_int say_ur_intent.Numeric.Text.digits_value
too_large = refl

not_a_power : decimals_from_scalar 1200 ≡ none
unfolding decimals_from_scalar
not_a_power = refl
