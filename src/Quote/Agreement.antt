-- ===== src/Quote/Agreement.antt =====
-- The quote policies of DeepBook and FlowX decide alike.
use say_ur_intent.Prelude.{
  ℕ, ◌+◌, ◌-◌, String, Bool, true, false, ltb, eqb, ◌≡◌, arith, Bool-cases, Option, some, none,
  Option-cases, inl, inr, refl,
}
use say_ur_intent.Host.{Host}
use say_ur_intent.Numeric.RawU64.{ok, parse_raw_u64}
use say_ur_intent.Quote.Policy.{
  quote_future_skew_tolerance_ms, RefreshRequired, Derived, threw, refresh_required, passed,
  valid_slippage_bps, parse_iso_utc_timestamp_ms, minimum_output,
}
use say_ur_intent.Quote.Deepbook.{
  FeeMode, QuoteDirection, DeepbookInput, DeepbookPolicy, deepbook_policy, deepbook_priced,
  deepbook_fetched, derive_deepbook, stale_after_of,
}
use say_ur_intent.Quote.Flowx.{
  FlowxInput, FlowxPolicy, flowx_policy, flowx_priced, flowx_fetched, derive_flowx,
  flowx_stale_after_of, flowx_valid_slippage_bps,
}
use say_ur_intent.Quote.Bounds.{Parsed-cases}

-- What both policies say, without the side of the pool and what one protocol adds.
pub record Amounts : Type 0 where
  pub fetched_at : String
  pub quote_age_ms : ℕ
  pub stale_after_ms : ℕ
  pub clock_skew_ms : Option ℕ
  pub max_slippage_bps : ℕ
  pub source_amount_raw : String
  pub expected_out_raw : String
  pub min_out_raw : String

abbrev no_side : {S : Type 0} → RefreshRequired S → RefreshRequired (Unit {0})
no_side r = record {
  refresh_reason = r.refresh_reason;
  reason = r.reason;
  side = tt;
  fetched_at = r.fetched_at;
  quote_age_ms = r.quote_age_ms;
  stale_after_ms = r.stale_after_ms;
  clock_skew_ms = r.clock_skew_ms;
}

abbrev outline : {S P : Type 0} → (P → Amounts) → Derived S P → Derived (Unit {0}) Amounts
outline amounts (threw e) = threw e
outline amounts (refresh_required r) = refresh_required (no_side r)
outline amounts (passed p) = passed (amounts p)

abbrev deepbook_amounts : DeepbookPolicy → Amounts
deepbook_amounts p = record {
  fetched_at = p.fetched_at;
  quote_age_ms = p.quote_age_ms;
  stale_after_ms = p.stale_after_ms;
  clock_skew_ms = p.clock_skew_ms;
  max_slippage_bps = p.max_slippage_bps;
  source_amount_raw = p.source_amount_raw;
  expected_out_raw = p.expected_out_raw;
  min_out_raw = p.min_out_raw;
}

abbrev flowx_amounts : FlowxPolicy → Amounts
flowx_amounts p = record {
  fetched_at = p.fetched_at;
  quote_age_ms = p.quote_age_ms;
  stale_after_ms = p.stale_after_ms;
  clock_skew_ms = p.clock_skew_ms;
  max_slippage_bps = p.max_slippage_bps;
  source_amount_raw = p.source_amount_raw;
  expected_out_raw = p.expected_out_raw;
  min_out_raw = p.min_out_raw;
}

abbrev pub deepbook_outline : Derived QuoteDirection DeepbookPolicy → Derived (Unit {0}) Amounts
deepbook_outline = outline deepbook_amounts

abbrev pub flowx_outline : Derived Bool FlowxPolicy → Derived (Unit {0}) Amounts
flowx_outline = outline flowx_amounts

-- The request to FlowX, put to DeepBook with a fee and a function for the direction.
abbrev pub as_deepbook : FlowxInput → String → String → Option FeeMode → DeepbookInput
as_deepbook input fee function mode = record {
  raw_quote = record {
    source_move_function = function;
    input_amount_raw = input.amount_in_raw;
    directional_output_raw = input.amount_out_raw;
    deep_required_raw = fee;
  };
  fetched_at = input.fetched_at;
  max_slippage_bps = input.max_slippage_bps;
  now = input.now;
  stale_after_ms = input.stale_after_ms;
  fee_mode = mode;
}

stale_after-agrees : (o : Option ℕ) → flowx_stale_after_of o ≡ stale_after_of o
unfolding flowx_stale_after_of stale_after_of
stale_after-agrees none = refl
stale_after-agrees (some ms) = refl

slippage-agrees : (n : ℕ) → flowx_valid_slippage_bps n ≡ valid_slippage_bps n
unfolding flowx_valid_slippage_bps valid_slippage_bps
slippage-agrees n = refl

module _ (input : FlowxInput) (fee function : String) (mode : Option FeeMode) (n : ℕ) where
  abbrev twin : DeepbookInput
  twin = as_deepbook input fee function mode

  module _ (parsed : parse_raw_u64 fee false ≡ ok n) (stale_after fetched : ℕ) where
    policy-agrees :
        (expected minimum : ℕ)
        → deepbook_outline (deepbook_policy twin stale_after fetched expected minimum)
          ≡ flowx_outline (flowx_policy input stale_after fetched expected minimum)
    unfolding deepbook_policy flowx_policy
    policy-agrees expected minimum = elim (Parsed-cases (parse_raw_u64 input.amount_in_raw true)) [
      | inr (e, q) ↦ ground arith
      | inl (source, q) ↦ ground arith
    ]

    priced-agrees :
        (expected : ℕ)
        → deepbook_outline (deepbook_priced twin stale_after fetched expected)
          ≡ flowx_outline (flowx_priced input stale_after fetched expected)
    unfolding deepbook_priced flowx_priced
    priced-agrees expected =
        let minimum = minimum_output expected input.max_slippage_bps in
        let same = policy-agrees expected minimum in
        elim (Bool-cases (eqb expected 0)) [
          | inl zero_out ↦ ground arith
          | inr some_out ↦ elim (Bool-cases (eqb minimum 0)) [
            | inl zero_min ↦ ground arith
            | inr some_min ↦ ground arith
          ]
        ]

    fetched-agrees :
        deepbook_outline (deepbook_fetched twin stale_after fetched)
        ≡ flowx_outline (flowx_fetched input stale_after fetched)
    unfolding deepbook_fetched flowx_fetched
    fetched-agrees = elim (Bool-cases (ltb (input.now + quote_future_skew_tolerance_ms) fetched)) [
      | inl ahead ↦ ground arith
      | inr near ↦ elim (Bool-cases (ltb stale_after (input.now - fetched))) [
        | inl old ↦ ground arith
        | inr fresh ↦ elim (Parsed-cases (parse_raw_u64 input.amount_out_raw false)) [
          | inr (e, q) ↦ ground arith
          | inl (expected, q) ↦ let same = priced-agrees expected in ground arith
        ]
      ]
    ]

  -- On the same amounts, times and slippage the two policies throw the same error, ask for a new
  -- quote for the same reason, or pass with the same age and amounts, where the fee in DEEP that
  -- only DeepBook has is a 64-bit amount.
  pub derive_deepbook-derive_flowx :
      (host : Host)
      → parse_raw_u64 fee false ≡ ok n
      → deepbook_outline (derive_deepbook host twin) ≡ flowx_outline (derive_flowx host input)
  unfolding derive_deepbook derive_flowx
  derive_deepbook-derive_flowx host parsed =
      let stale = stale_after-agrees input.stale_after_ms in
      let slippage = slippage-agrees input.max_slippage_bps in
      elim (Bool-cases (valid_slippage_bps input.max_slippage_bps)) [
        | inr bad ↦ ground arith
        | inl valid ↦ elim (Bool-cases (ltb (stale_after_of input.stale_after_ms) 1)) [
          | inl never ↦ ground arith
          | inr some_time ↦ elim (Option-cases (parse_iso_utc_timestamp_ms host input.fetched_at)) [
            | inl n_iso ↦ ground arith
            | inr (fetched, at) ↦
                let same = fetched-agrees parsed (stale_after_of input.stale_after_ms) fetched in
                ground arith
          ]
        ]
      ]
