-- ===== src/Quote/Flowx.antt =====
-- `deriveFlowxSwapQuotePolicy`: src/adapters/flowx/flowxSwapQuotePolicy.ts.
use say_ur_intent.Prelude.{
  ℕ, ◌+◌, ◌-◌, ◌*◌, String, Bool, true, false, ◌&&◌, not, ltb, leb, eqb, if◌then◌else◌, Option,
  some, none,
}
use say_ur_intent.Host.{Host}
use say_ur_intent.Numeric.Text.{to_decimal}
use say_ur_intent.Numeric.RawU64.{ok, err, parse_raw_u64}
use say_ur_intent.Session.Types.{RefreshReason}
use say_ur_intent.Quote.Policy.{
  PolicyError, Cause, Derived, threw, refresh_required, passed, parse_iso_utc_timestamp_ms,
  minimum_output,
}

abbrev pub flowx_review_quote_stale_after_ms : ℕ
flowx_review_quote_stale_after_ms = 30000

abbrev pub flowx_quote_future_skew_tolerance_ms : ℕ
flowx_quote_future_skew_tolerance_ms = 5000

abbrev pub flowx_max_slippage_bps : ℕ
flowx_max_slippage_bps = 1000

abbrev pub flowx_min_slippage_bps : ℕ
flowx_min_slippage_bps = 1

abbrev pub flowx_router_slippage_units_per_bps : ℕ
flowx_router_slippage_units_per_bps = 100

pub record FlowxInput : Type 0 where
  pub amount_in_raw : String
  pub amount_out_raw : String
  pub swap_x_to_y : Bool
  pub fetched_at : String
  pub max_slippage_bps : ℕ
  pub now : ℕ
  pub stale_after_ms : Option ℕ

pub record FlowxPolicy : Type 0 where
  pub swap_x_to_y : Bool
  pub fetched_at : String
  pub quote_age_ms : ℕ
  pub stale_after_ms : ℕ
  pub clock_skew_ms : Option ℕ
  pub max_slippage_bps : ℕ
  pub router_slippage_units : ℕ
  pub deadline_ms_epoch : ℕ
  pub source_amount_raw : String
  pub expected_out_raw : String
  pub min_out_raw : String

abbrev pub Result : Type 0
Result = Derived Bool FlowxPolicy

abbrev pub flowx_skew_of : ℕ → ℕ → Option ℕ
flowx_skew_of fetched now = if ltb now fetched then some (fetched - now) else none

module _ (input : FlowxInput) (stale_after fetched : ℕ) where
  abbrev refused : RefreshReason → Cause → ℕ → Option ℕ → Result
  refused refresh_reason reason age skew = refresh_required (record {
    refresh_reason = refresh_reason;
    reason = reason;
    side = input.swap_x_to_y;
    fetched_at = input.fetched_at;
    quote_age_ms = age;
    stale_after_ms = stale_after;
    clock_skew_ms = skew;
  })

  -- `unavailableQuote`.
  abbrev unavailable_quote : Cause → Result
  unavailable_quote reason =
      refused RefreshReason.quote_unavailable reason (input.now - fetched) none

  unfoldable pub flowx_policy : ℕ → ℕ → Result
  flowx_policy expected minimum = elim (parse_raw_u64 input.amount_in_raw true) [
    | err e ↦ threw (PolicyError.bad_source e)
    | ok source ↦ passed (record {
      swap_x_to_y = input.swap_x_to_y;
      fetched_at = input.fetched_at;
      quote_age_ms = input.now - fetched;
      stale_after_ms = stale_after;
      clock_skew_ms = flowx_skew_of fetched input.now;
      max_slippage_bps = input.max_slippage_bps;
      router_slippage_units = input.max_slippage_bps * flowx_router_slippage_units_per_bps;
      deadline_ms_epoch = fetched + stale_after;
      source_amount_raw = to_decimal source;
      expected_out_raw = to_decimal expected;
      min_out_raw = to_decimal minimum;
    })
  ]

  unfoldable pub flowx_priced : ℕ → Result
  unfolding flowx_policy
  flowx_priced expected =
      let minimum = minimum_output expected input.max_slippage_bps in
      if eqb expected 0
      then unavailable_quote Cause.zero_expected_output
      else if eqb minimum 0
      then unavailable_quote Cause.zero_min_out
      else flowx_policy expected minimum

  unfoldable pub flowx_fetched : Result
  unfolding flowx_priced
  flowx_fetched =
      if ltb (input.now + flowx_quote_future_skew_tolerance_ms) fetched
      then refused RefreshReason.quote_stale Cause.timestamp_in_future 0
          (some (fetched - input.now))
      else if ltb stale_after (input.now - fetched)
      then refused RefreshReason.quote_stale Cause.stale (input.now - fetched) none
      else elim (parse_raw_u64 input.amount_out_raw false) [
        | err e ↦ threw (PolicyError.bad_output e)
        | ok expected ↦ flowx_priced expected
      ]

unfoldable pub flowx_stale_after_of : Option ℕ → ℕ
flowx_stale_after_of none = flowx_review_quote_stale_after_ms
flowx_stale_after_of (some ms) = ms

-- `assertSlippageBps`: whether it passes.
unfoldable pub flowx_valid_slippage_bps : ℕ → Bool
flowx_valid_slippage_bps value =
    leb flowx_min_slippage_bps value && leb value flowx_max_slippage_bps

-- `deriveFlowxSwapQuotePolicy`.
unfoldable pub derive_flowx : Host → FlowxInput → Result
unfolding flowx_fetched flowx_stale_after_of flowx_valid_slippage_bps
derive_flowx host input =
    if not (flowx_valid_slippage_bps input.max_slippage_bps)
    then threw PolicyError.bad_slippage
    else if ltb (flowx_stale_after_of input.stale_after_ms) 1
    then threw PolicyError.bad_stale_after
    else elim (parse_iso_utc_timestamp_ms host input.fetched_at) [
      | none ↦ threw PolicyError.bad_fetched_at
      | some fetched ↦ flowx_fetched input (flowx_stale_after_of input.stale_after_ms) fetched
    ]
