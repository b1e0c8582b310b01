-- ===== src/Quote/Bounds.antt =====
-- What the quote policy of DeepBook promises when it passes, and when it asks for a new quote.
use native.Mathlib.Nat.{mul-le-mul_left}
use say_ur_intent.Prelude.{
  ℕ, ◌+◌, ◌-◌, ◌*◌, ◌<◌, ◌≤◌, true, false, ltb, eqb, some, ◌≡◌, refl, arith, Bool-cases,
  Option-cases, ◌⊎◌, inl, inr,
}
use say_ur_intent.Host.{Host}
use say_ur_intent.Numeric.Text.{to_decimal}
use say_ur_intent.Numeric.RawU64.{RawError, Parsed, ok, err, parse_raw_u64, max_raw_u64}
use say_ur_intent.Numeric.RawU64.Bounds.{parse_raw_u64-ok}
use say_ur_intent.Quote.Policy.{
  quote_future_skew_tolerance_ms, bps_denominator, passed, valid_slippage_bps,
  parse_iso_utc_timestamp_ms, minimum_output,
}
use say_ur_intent.Quote.Deepbook.{
  DeepbookInput, DeepbookPolicy, deepbook_policy, deepbook_priced, deepbook_fetched,
  derive_deepbook, stale_after_of,
}

pub Parsed-cases : (p : Parsed) → ((n : ℕ) × (p ≡ ok n)) ⊎ ((e : RawError) × (p ≡ err e))
Parsed-cases (ok n) = inl (n, refl)
Parsed-cases (err e) = inr (e, refl)

-- The minimum is below the expected output by at most the slippage, rounded down.
pub minimum_output-between :
    (expected bps : ℕ)
    → valid_slippage_bps bps ≡ true
    → (minimum_output expected bps ≤ expected)
      × (expected * 9 ≤ minimum_output expected bps * 10 + 9)
unfolding minimum_output valid_slippage_bps
minimum_output-between expected bps h =
    let low : 9000 ≤ bps_denominator - bps = ground arith in
    let high : bps_denominator - bps ≤ 10000 = omega arith in
    let below = mul-le-mul_left expected high in
    let above = mul-le-mul_left expected low in (omega arith, omega arith)

pub minimum_output-le : (expected bps : ℕ) → minimum_output expected bps ≤ expected
unfolding minimum_output
minimum_output-le expected bps =
    let high : bps_denominator - bps ≤ 10000 = omega arith in
    omega (arith, mul-le-mul_left expected high)

module _ (host : Host) (input : DeepbookInput) where
  -- The quote is no older than it may be, and no more ahead of the clock than is tolerated.
  abbrev pub IsFresh : ℕ → Type 0
  IsFresh fetched =
      (parse_iso_utc_timestamp_ms host input.fetched_at ≡ some fetched)
      × (fetched ≤ input.now + quote_future_skew_tolerance_ms)
      × (input.now ≤ fetched + stale_after_of input.stale_after_ms)

  abbrev pub IsPriced : DeepbookPolicy → Type 0
  IsPriced p =
      (expected : ℕ) × (minimum : ℕ) × (parse_raw_u64 input.raw_quote.directional_output_raw false
        ≡ ok expected)
      × (minimum ≡ minimum_output expected input.max_slippage_bps)
      × (p.expected_out_raw ≡ to_decimal expected)
      × (p.min_out_raw ≡ to_decimal minimum)
      × (0 < minimum)
      × (minimum ≤ expected)
      × (expected * 9 ≤ minimum * 10 + 9)
      × (expected ≤ max_raw_u64)

  deepbook_policy-passed :
      (stale_after fetched expected minimum : ℕ) (p : DeepbookPolicy)
      → deepbook_policy input stale_after fetched expected minimum ≡ passed p
      → (p.expected_out_raw ≡ to_decimal expected) × (p.min_out_raw ≡ to_decimal minimum)
  unfolding deepbook_policy
  deepbook_policy-passed stale_after fetched expected minimum p e =
      elim (Parsed-cases (parse_raw_u64 input.raw_quote.input_amount_raw true)) [
        | inr (x, q) ↦ absurd (ground arith)
        | inl (n, q) ↦ elim (Parsed-cases (parse_raw_u64 input.raw_quote.deep_required_raw false)) [
          | inr (x, r) ↦ absurd (ground arith)
          | inl (m, r) ↦ ground arith
        ]
      ]

  deepbook_priced-passed :
      (stale_after fetched expected : ℕ) (p : DeepbookPolicy)
      → valid_slippage_bps input.max_slippage_bps ≡ true
      → parse_raw_u64 input.raw_quote.directional_output_raw false ≡ ok expected
      → deepbook_priced input stale_after fetched expected ≡ passed p
      → IsPriced p
  unfolding deepbook_priced
  deepbook_priced-passed stale_after fetched expected p valid parsed e =
      let minimum = minimum_output expected input.max_slippage_bps in
      let (below, near) = minimum_output-between expected input.max_slippage_bps valid in
      let (unsigned, value, bound, positive) =
        (parse_raw_u64-ok input.raw_quote.directional_output_raw false expected).0 parsed in
      elim (Bool-cases (eqb expected 0)) [
        | inl zero_out ↦ absurd (ground arith)
        | inr some_out ↦ elim (Bool-cases (eqb minimum 0)) [
          | inl zero_min ↦ absurd (ground arith)
          | inr some_min ↦
              let (printed, printed_min) =
                deepbook_policy-passed stale_after fetched expected minimum p (ground arith) in
              (
                expected,
                minimum,
                parsed,
                refl,
                printed,
                printed_min,
                ground arith,
                below,
                near,
                bound,
              )
        ]
      ]

  deepbook_fetched-passed :
      (stale_after fetched : ℕ) (p : DeepbookPolicy)
      → valid_slippage_bps input.max_slippage_bps ≡ true
      → deepbook_fetched input stale_after fetched ≡ passed p
      → (fetched ≤ input.now + quote_future_skew_tolerance_ms)
        × (input.now ≤ fetched + stale_after)
        × IsPriced p
  unfolding deepbook_fetched
  deepbook_fetched-passed stale_after fetched p valid e =
      elim (Bool-cases (ltb (input.now + quote_future_skew_tolerance_ms) fetched)) [
        | inl ahead ↦ absurd (ground arith)
        | inr near ↦ elim (Bool-cases (ltb stale_after (input.now - fetched))) [
          | inl old ↦ absurd (ground arith)
          | inr fresh ↦
              elim (Parsed-cases (parse_raw_u64 input.raw_quote.directional_output_raw false)) [
                | inr (x, q) ↦ absurd (ground arith)
                | inl (expected, q) ↦ (
                  ground arith,
                  ground arith,
                  deepbook_priced-passed stale_after fetched expected p valid q (ground arith),
                )
              ]
        ]
      ]

  -- When the policy passes, the quote is fresh and the printed amounts are those of an expected
  -- output that fits 64 bits and of the minimum output for the slippage, which is positive, not
  -- above it, and at least nine tenths of it, rounded down.
  pub derive_deepbook-passed :
      (p : DeepbookPolicy)
      → derive_deepbook host input ≡ passed p
      → ((fetched : ℕ) × IsFresh fetched) × IsPriced p
  unfolding derive_deepbook
  derive_deepbook-passed p e =
      let stale_after = stale_after_of input.stale_after_ms in
      elim (Bool-cases (valid_slippage_bps input.max_slippage_bps)) [
        | inr bad ↦ absurd (ground arith)
        | inl valid ↦ elim (Bool-cases (ltb stale_after 1)) [
          | inl never ↦ absurd (ground arith)
          | inr some_time ↦ elim (Option-cases (parse_iso_utc_timestamp_ms host input.fetched_at)) [
            | inl n ↦ absurd (ground arith)
            | inr (fetched, at) ↦
                let (near, fresh, priced) =
                  deepbook_fetched-passed stale_after fetched p valid (ground arith) in
                ((fetched, (at, near, fresh)), priced)
          ]
        ]
      ]
