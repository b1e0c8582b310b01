-- ===== src/Quote/Deepbook.antt =====
-- `deriveDeepbookSwapQuotePolicy`: src/adapters/deepbook/deepbookQuotePolicy.ts. An age is a
-- difference of times cut at 0, where the code cuts it too.
use say_ur_intent.Prelude.{
  ℕ, ◌+◌, ◌-◌, String, true, false, not, ltb, eqb, if◌then◌else◌, Option, some, none,
}
use say_ur_intent.Host.{Host}
use say_ur_intent.Numeric.Text.{to_decimal}
use say_ur_intent.Numeric.RawU64.{ok, err, parse_raw_u64}
use say_ur_intent.Receipt.Forbidden.{starts_with}
use say_ur_intent.Session.Types.{RefreshReason}
use say_ur_intent.Quote.Policy.{
  review_quote_stale_after_ms, quote_future_skew_tolerance_ms, PolicyError, Cause, Derived, threw,
  refresh_required, passed, valid_slippage_bps, parse_iso_utc_timestamp_ms, minimum_output,
}

pub data QuoteDirection : Type 0 where
  base_to_quote quote_to_base : QuoteDirection

pub data FeeMode : Type 0 where
  deep input_coin : FeeMode

-- What the policy reads of `DeepbookRawQuoteEvidence`.
pub record RawQuote : Type 0 where
  pub source_move_function : String
  pub input_amount_raw : String
  pub directional_output_raw : String
  pub deep_required_raw : String

pub record DeepbookInput : Type 0 where
  pub raw_quote : RawQuote
  pub fetched_at : String
  pub max_slippage_bps : ℕ
  pub now : ℕ
  pub stale_after_ms : Option ℕ
  pub fee_mode : Option FeeMode

pub record DeepbookPolicy : Type 0 where
  pub direction : QuoteDirection
  pub fetched_at : String
  pub quote_age_ms : ℕ
  pub stale_after_ms : ℕ
  pub clock_skew_ms : Option ℕ
  pub fee_mode : FeeMode
  pub max_slippage_bps : ℕ
  pub source_amount_raw : String
  pub expected_out_raw : String
  pub min_out_raw : String
  pub deep_amount_raw : String

abbrev pub Result : Type 0
Result = Derived QuoteDirection DeepbookPolicy

-- `directionFromRawQuote`.
unfoldable pub direction_from_raw_quote : RawQuote → QuoteDirection
direction_from_raw_quote quote =
    if starts_with quote.source_move_function "pool::get_quote_quantity_out"
    then QuoteDirection.base_to_quote
    else QuoteDirection.quote_to_base

abbrev pub skew_of : ℕ → ℕ → Option ℕ
skew_of fetched now = if ltb now fetched then some (fetched - now) else none

module _ (input : DeepbookInput) (stale_after fetched : ℕ) where
  abbrev pub refused : RefreshReason → Cause → ℕ → Option ℕ → Result
  refused refresh_reason reason age skew = refresh_required (record {
    refresh_reason = refresh_reason;
    reason = reason;
    side = direction_from_raw_quote input.raw_quote;
    fetched_at = input.fetched_at;
    quote_age_ms = age;
    stale_after_ms = stale_after;
    clock_skew_ms = skew;
  })

  -- `unavailableQuote`.
  abbrev unavailable_quote : Cause → Result
  unavailable_quote reason =
      refused RefreshReason.quote_unavailable reason (input.now - fetched) none

  -- The literal at the end: it still parses the other two amounts.
  unfoldable pub deepbook_policy : ℕ → ℕ → Result
  deepbook_policy expected minimum = elim (parse_raw_u64 input.raw_quote.input_amount_raw true) [
    | err e ↦ threw (PolicyError.bad_source e)
    | ok source ↦ elim (parse_raw_u64 input.raw_quote.deep_required_raw false) [
      | err e ↦ threw (PolicyError.bad_fee e)
      | ok fee ↦ passed (record {
        direction = direction_from_raw_quote input.raw_quote;
        fetched_at = input.fetched_at;
        quote_age_ms = input.now - fetched;
        stale_after_ms = stale_after;
        clock_skew_ms = skew_of fetched input.now;
        fee_mode = elim input.fee_mode [ none ↦ FeeMode.deep | some mode ↦ mode ];
        max_slippage_bps = input.max_slippage_bps;
        source_amount_raw = to_decimal source;
        expected_out_raw = to_decimal expected;
        min_out_raw = to_decimal minimum;
        deep_amount_raw = to_decimal fee;
      })
    ]
  ]

  unfoldable pub deepbook_priced : ℕ → Result
  unfolding deepbook_policy
  deepbook_priced expected =
      let minimum = minimum_output expected input.max_slippage_bps in
      if eqb expected 0
      then unavailable_quote Cause.zero_expected_output
      else if eqb minimum 0
      then unavailable_quote Cause.zero_min_out
      else deepbook_policy expected minimum

  unfoldable pub deepbook_fetched : Result
  unfolding deepbook_priced
  deepbook_fetched =
      if ltb (input.now + quote_future_skew_tolerance_ms) fetched
      then refused RefreshReason.quote_stale Cause.timestamp_in_future 0
          (some (fetched - input.now))
      else if ltb stale_after (input.now - fetched)
      then refused RefreshReason.quote_stale Cause.stale (input.now - fetched) none
      else elim (parse_raw_u64 input.raw_quote.directional_output_raw false) [
        | err e ↦ threw (PolicyError.bad_output e)
        | ok expected ↦ deepbook_priced expected
      ]

unfoldable pub stale_after_of : Option ℕ → ℕ
stale_after_of none = review_quote_stale_after_ms
stale_after_of (some ms) = ms

-- `deriveDeepbookSwapQuotePolicy`.
unfoldable pub derive_deepbook : Host → DeepbookInput → Result
unfolding deepbook_fetched
derive_deepbook host input =
    if not (valid_slippage_bps input.max_slippage_bps)
    then threw PolicyError.bad_slippage
    else if ltb (stale_after_of input.stale_after_ms) 1
    then threw PolicyError.bad_stale_after
    else elim (parse_iso_utc_timestamp_ms host input.fetched_at) [
      | none ↦ threw PolicyError.bad_fetched_at
      | some fetched ↦ deepbook_fetched input (stale_after_of input.stale_after_ms) fetched
    ]
