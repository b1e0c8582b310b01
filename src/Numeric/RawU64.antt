-- ===== src/Numeric/RawU64.antt =====
-- `parseRawU64` and its kin of src/core/numeric/rawU64.ts, and `sumRawAmounts` of
-- src/core/read/amounts.ts.
pub mod Bounds
use Prim.Native.String.{String}
use say_ur_intent.Prelude.{
  ℕ, ◌+◌, ◌-◌, ◌^◌, Bool, true, false, ◌&&◌, not, ltb, eqb, if◌then◌else◌, List, [], ◌∷◌, Option,
  some, none,
}
use say_ur_intent.Numeric.Text.{is_unsigned, is_canonical, big_int, to_decimal}

abbrev pub max_raw_u64 : ℕ
max_raw_u64 = 2 ^ 64 - 1

-- What the thrown errors say.
pub data RawError : Type 0 where
  not_unsigned not_positive not_u64 not_canonical : RawError

pub data Parsed : Type 0 where
  ok : ℕ → Parsed
  err : RawError → Parsed

unfoldable pub parse_raw_u64 : String → Bool → Parsed
parse_raw_u64 value positive =
    if not (is_unsigned value)
    then err RawError.not_unsigned
    else let amount = big_int value in
      if positive && eqb amount 0
      then err RawError.not_positive
      else if ltb max_raw_u64 amount
      then err RawError.not_u64
      else ok amount

unfoldable pub parse_canonical_raw_u64 : String → Bool → Parsed
unfolding parse_raw_u64
parse_canonical_raw_u64 value positive =
    if not (is_canonical value) then err RawError.not_canonical else parse_raw_u64 value positive

-- `sumRawAmounts` from a running total; `none` where it throws.
unfoldable pub sum_from : ℕ → List String → Option ℕ
sum_from total [] = some total
sum_from total (s ∷ ss) =
    let rest = sum_from (total + big_int s) ss in if is_unsigned s then rest else none

unfoldable pub sum_raw_amounts : List String → Option String
unfolding sum_from
sum_raw_amounts amounts = elim (sum_from 0 amounts) [ none ↦ none | some n ↦ some (to_decimal n) ]
