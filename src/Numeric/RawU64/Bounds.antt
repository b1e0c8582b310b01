-- ===== src/Numeric/RawU64/Bounds.antt =====
-- The numbers that the parsers of raw amounts accept, and the texts they accept them from.
use Prim.Native.String.{String}
use say_ur_intent.Prelude.{
  ℕ, ◌+◌, ◌<◌, ◌≤◌, Bool, true, false, List, [], ◌∷◌, map, some, ◌≡◌, ◌↔◌, sym, ap, ◌∙◌, arith,
  Bool-cases, inl, inr,
}
use say_ur_intent.Numeric.Text.{is_unsigned, is_canonical, big_int, to_decimal}
use say_ur_intent.Numeric.Text.RoundTrip.{to_decimal-big_int, big_int-to_decimal}
use say_ur_intent.Numeric.Text.Canonical.{is_canonical-to_decimal, canonical-is_unsigned}
use say_ur_intent.Numeric.RawU64.{
  max_raw_u64, ok, parse_raw_u64, parse_canonical_raw_u64, sum_from, sum_raw_amounts,
}

-- Parsing gives a number exactly where the text is of digits, the number is what they spell and
-- fits 64 bits, and it is positive if that is asked for.
pub parse_raw_u64-ok :
    (s : String) (positive : Bool) (n : ℕ)
    → (parse_raw_u64 s positive ≡ ok n)
      ↔ ((is_unsigned s ≡ true) × (n ≡ big_int s) × (n ≤ max_raw_u64) × (positive ≡ true → 0 < n))
unfolding parse_raw_u64
parse_raw_u64-ok s true n = ground arith
parse_raw_u64-ok s false n = ground arith

-- Parsing a canonical text, zero admitted, gives a number exactly where the number fits 64 bits
-- and the text is its print.
pub parse_canonical-ok :
    (s : String) (n : ℕ)
    → (parse_canonical_raw_u64 s false ≡ ok n) ↔ ((n ≤ max_raw_u64) × (s ≡ to_decimal n))
unfolding parse_canonical_raw_u64
parse_canonical-ok s n = (forth, back)
  where
    forth : parse_canonical_raw_u64 s false ≡ ok n → (n ≤ max_raw_u64) × (s ≡ to_decimal n)
    forth e = elim (Bool-cases (is_canonical s)) [
      | inr other ↦ absurd (ground arith)
      | inl canon ↦
          let accepted : parse_raw_u64 s false ≡ ok n = ground arith in
          let (digits, value, bound, positive) = (parse_raw_u64-ok s false n).0 accepted in
          (bound, sym (to_decimal-big_int s canon) ∙ ap to_decimal (sym value))
    ]

    back : (n ≤ max_raw_u64) × (s ≡ to_decimal n) → parse_canonical_raw_u64 s false ≡ ok n
    back (bound, e) =
        let canonical : is_canonical s ≡ true = ap is_canonical e ∙ is_canonical-to_decimal n in
        let value : n ≡ big_int s = sym (ap big_int e ∙ big_int-to_decimal n) in
        let accepted : parse_raw_u64 s false ≡ ok n =
          (parse_raw_u64-ok s false n).1
            (canonical-is_unsigned s canonical, value, bound, λ q. absurd (ground arith)) in
        ground arith

-- The sum of numbers.
abbrev total : List ℕ → ℕ
total [] = 0
total (n ∷ ns) = n + total ns

unsigned_print : (n : ℕ) → is_unsigned (to_decimal n) ≡ true
unsigned_print n = canonical-is_unsigned (to_decimal n) (is_canonical-to_decimal n)

sum_from-print :
    (ns : List ℕ) (start : ℕ) → sum_from start (map to_decimal ns) ≡ some (start + total ns)
unfolding sum_from
sum_from-print [] start = ap some (omega arith)
sum_from-print (n ∷ ns) start =
    let value = big_int-to_decimal n in
    let digits = unsigned_print n in let rest = sum_from-print ns (start + n) in ground arith

-- The amounts that are printed numbers add up to the print of their sum, however large.
pub sum_raw_amounts-to_decimal :
    (ns : List ℕ) → sum_raw_amounts (map to_decimal ns) ≡ some (to_decimal (total ns))
unfolding sum_raw_amounts
sum_raw_amounts-to_decimal ns = let e = sum_from-print ns 0 in ground arith
