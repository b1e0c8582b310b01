-- ===== src/Quote/Refresh.antt =====
-- Why the quote policy of DeepBook asks for a new quote.
use say_ur_intent.Prelude.{
  ℕ, ◌+◌, ◌-◌, ◌<◌, true, false, ltb, eqb, ◌≡◌, refl, arith, Bool-cases, Option, Option-cases, some,
  none, inl, inr,
}
use say_ur_intent.Host.{Host}
use say_ur_intent.Numeric.RawU64.{ok, parse_raw_u64}
use say_ur_intent.Session.Types.{RefreshReason}
use say_ur_intent.Quote.Policy.{
  quote_future_skew_tolerance_ms, Cause, RefreshRequired, refresh_required, valid_slippage_bps,
  parse_iso_utc_timestamp_ms, minimum_output,
}
use say_ur_intent.Quote.Deepbook.{
  DeepbookInput, QuoteDirection, deepbook_policy, deepbook_priced, deepbook_fetched,
  derive_deepbook, stale_after_of, refused,
}
use say_ur_intent.Quote.Bounds.{Parsed-cases}

module _ (host : Host) (input : DeepbookInput) where
  -- What is the case for each cause, at a quote of the time `fetched`.
  abbrev pub Explains : Cause → RefreshReason → ℕ → Type 0
  Explains Cause.timestamp_in_future reason fetched =
      (reason ≡ RefreshReason.quote_stale) × (input.now + quote_future_skew_tolerance_ms < fetched)
  Explains Cause.stale reason fetched =
      (reason ≡ RefreshReason.quote_stale)
      × (fetched + stale_after_of input.stale_after_ms < input.now)
  Explains Cause.zero_expected_output reason fetched =
      (reason ≡ RefreshReason.quote_unavailable)
      × (parse_raw_u64 input.raw_quote.directional_output_raw false ≡ ok 0)
  Explains Cause.zero_min_out reason fetched =
      (reason ≡ RefreshReason.quote_unavailable)
      × ((expected : ℕ) × (parse_raw_u64 input.raw_quote.directional_output_raw false ≡ ok expected)
          × (0 < expected)
          × (minimum_output expected input.max_slippage_bps ≡ 0))

  module _ (fetched : ℕ) (r : RefreshRequired QuoteDirection) where
    abbrev stale_after : ℕ
    stale_after = stale_after_of input.stale_after_ms

    refused-Explains :
        (reason : RefreshReason) (cause : Cause) (age : ℕ) (skew : Option ℕ)
        → refused input stale_after fetched reason cause age skew ≡ refresh_required r
        → Explains cause reason fetched
        → Explains r.reason r.refresh_reason fetched
    refused-Explains reason cause age skew e h =
        let c : r.reason ≡ cause = ground arith in
        let d : r.refresh_reason ≡ reason = ground arith in rw c (rw d h)

    never_refresh :
        (expected minimum : ℕ)
        → deepbook_policy input stale_after fetched expected minimum ≡ refresh_required r
        → ⊥
    unfolding deepbook_policy
    never_refresh expected minimum e =
        elim (Parsed-cases (parse_raw_u64 input.raw_quote.input_amount_raw true)) [
          | inr (x, q) ↦ ground arith
          | inl (n, q) ↦
              elim (Parsed-cases (parse_raw_u64 input.raw_quote.deep_required_raw false)) [
                | inr (x, s) ↦ ground arith
                | inl (m, s) ↦ ground arith
              ]
        ]

    deepbook_priced-refresh :
        (expected : ℕ)
        → parse_raw_u64 input.raw_quote.directional_output_raw false ≡ ok expected
        → deepbook_priced input stale_after fetched expected ≡ refresh_required r
        → Explains r.reason r.refresh_reason fetched
    unfolding deepbook_priced
    deepbook_priced-refresh expected parsed e =
        let minimum = minimum_output expected input.max_slippage_bps in
        let age = input.now - fetched in
        elim (Bool-cases (eqb expected 0)) [
          | inl zero_out ↦
              refused-Explains RefreshReason.quote_unavailable Cause.zero_expected_output age none
                (ground arith) (refl, ground arith)
          | inr some_out ↦ elim (Bool-cases (eqb minimum 0)) [
            | inl zero_min ↦
                refused-Explains RefreshReason.quote_unavailable Cause.zero_min_out age none
                  (ground arith) (refl, (expected, parsed, ground arith, ground arith))
            | inr some_min ↦ absurd (never_refresh expected minimum (ground arith))
          ]
        ]

    deepbook_fetched-refresh :
        deepbook_fetched input stale_after fetched ≡ refresh_required r
        → Explains r.reason r.refresh_reason fetched
    unfolding deepbook_fetched
    deepbook_fetched-refresh e =
        let age = input.now - fetched in
        elim (Bool-cases (ltb (input.now + quote_future_skew_tolerance_ms) fetched)) [
          | inl ahead ↦
              refused-Explains RefreshReason.quote_stale Cause.timestamp_in_future 0
                (some (fetched - input.now)) (ground arith) (refl, ground arith)
          | inr near ↦ elim (Bool-cases (ltb stale_after age)) [
            | inl old ↦
                refused-Explains RefreshReason.quote_stale Cause.stale age none (ground arith)
                  (refl, ground arith)
            | inr fresh ↦
                elim (Parsed-cases (parse_raw_u64 input.raw_quote.directional_output_raw false)) [
                  | inr (x, q) ↦ absurd (ground arith)
                  | inl (expected, q) ↦ deepbook_priced-refresh expected q (ground arith)
                ]
          ]
        ]

  -- A request for a new quote names what is the case: the quote is ahead of the clock beyond the
  -- tolerance, it is too old, it promises nothing, or nothing of it is left after the slippage.
  pub derive_deepbook-refresh :
      (r : RefreshRequired QuoteDirection)
      → derive_deepbook host input ≡ refresh_required r
      → (fetched : ℕ) × (parse_iso_utc_timestamp_ms host input.fetched_at ≡ some fetched)
        × Explains r.reason r.refresh_reason fetched
  unfolding derive_deepbook
  derive_deepbook-refresh r e = elim (Bool-cases (valid_slippage_bps input.max_slippage_bps)) [
    | inr bad ↦ absurd (ground arith)
    | inl valid ↦ elim (Bool-cases (ltb (stale_after_of input.stale_after_ms) 1)) [
      | inl never ↦ absurd (ground arith)
      | inr some_time ↦ elim (Option-cases (parse_iso_utc_timestamp_ms host input.fetched_at)) [
        | inl n ↦ absurd (ground arith)
        | inr (fetched, at) ↦ (fetched, at, deepbook_fetched-refresh fetched r (ground arith))
      ]
    ]
  ]
