-- ===== src/Quote/Examples.antt =====
-- The quote policies at a quote of the host of `Fixtures`, and its evidence.
use Prim.Native.Nat.{max}
use say_ur_intent.Prelude.{ℕ, ◌<◌, ◌≤◌, String, true, false, some, none, ◌≡◌, ◌↔◌, refl}
use say_ur_intent.Numeric.Text.{to_decimal}
use say_ur_intent.Numeric.RawU64.{ok, parse_raw_u64}
use say_ur_intent.Session.Types.{RefreshReason}
use say_ur_intent.Session.Fixtures.{stamp, some_host, some_handle}
use say_ur_intent.Quote.Policy.{
  Cause, RefreshRequired, refresh_required, passed, valid_slippage_bps, minimum_output,
  parse_iso_utc_timestamp_ms,
}
use say_ur_intent.Quote.Deepbook.{
  DeepbookInput, DeepbookPolicy, FeeMode, QuoteDirection, derive_deepbook,
}
use say_ur_intent.Quote.Flowx.{flowx_valid_slippage_bps, FlowxInput, FlowxPolicy, derive_flowx}
use say_ur_intent.Quote.Bounds.{IsFresh, IsPriced, derive_deepbook-passed}
use say_ur_intent.Quote.Refresh.{Explains, derive_deepbook-refresh}
use say_ur_intent.Quote.Agreement.{
  deepbook_outline, flowx_outline, as_deepbook, derive_deepbook-derive_flowx,
}
use say_ur_intent.Quote.Evidence.{times_in_order, amounts_agree, verify_quote_policy_evidence}
use say_ur_intent.Quote.Evidence.Data.{
  SwapQuotePolicyEvidence, QuotePolicyAsset, QuotePolicyAmount, AssetUnitSource,
}
use say_ur_intent.Quote.Evidence.Checked.{
  IsBound, IsCurrent, HasMinimum, verify_quote_policy_evidence-some,
}
use say_ur_intent.Quote.Evidence.FromFlowx.{CarriesAmounts, derive_flowx-evidence}
use say_ur_intent.Receipt.Chain.{Library}

abbrev flowx_input : FlowxInput
flowx_input = record {
  amount_in_raw = "30";
  amount_out_raw = "1000";
  swap_x_to_y = true;
  fetched_at = stamp 3;
  max_slippage_bps = 100;
  now = 4;
  stale_after_ms = some 6;
}

abbrev flowx_policy_example : FlowxPolicy
flowx_policy_example = record {
  swap_x_to_y = true;
  fetched_at = stamp 3;
  quote_age_ms = 1;
  stale_after_ms = 6;
  clock_skew_ms = none;
  max_slippage_bps = 100;
  router_slippage_units = 10000;
  deadline_ms_epoch = 9;
  source_amount_raw = "30";
  expected_out_raw = "1000";
  min_out_raw = "990";
}

abbrev deepbook_input : DeepbookInput
deepbook_input = as_deepbook flowx_input "2" "pool::get_quote_quantity_out" none

abbrev deepbook_policy_example : DeepbookPolicy
deepbook_policy_example = record {
  direction = QuoteDirection.base_to_quote;
  fetched_at = stamp 3;
  quote_age_ms = 1;
  stale_after_ms = 6;
  clock_skew_ms = none;
  fee_mode = FeeMode.deep;
  max_slippage_bps = 100;
  source_amount_raw = "30";
  expected_out_raw = "1000";
  min_out_raw = "990";
  deep_amount_raw = "2";
}

deepbook_passes : derive_deepbook some_host deepbook_input ≡ passed deepbook_policy_example
unfolding derive_deepbook valid_slippage_bps parse_iso_utc_timestamp_ms stamp parse_raw_u64
    minimum_output to_decimal say_ur_intent.Numeric.Text.is_unsigned
    say_ur_intent.Numeric.Text.big_int say_ur_intent.Numeric.Text.digits_value
    say_ur_intent.Numeric.Text.emit_digits say_ur_intent.Numeric.Text.digit_char
    say_ur_intent.Numeric.Text.all_digits say_ur_intent.Numeric.Text.is_digit
    say_ur_intent.Quote.Deepbook.stale_after_of
    say_ur_intent.Quote.Deepbook.direction_from_raw_quote
    say_ur_intent.Receipt.Forbidden.starts_with say_ur_intent.Quote.Deepbook.deepbook_fetched
    say_ur_intent.Quote.Deepbook.deepbook_priced say_ur_intent.Quote.Deepbook.deepbook_policy
deepbook_passes = refl

derive_deepbook-passed_example :
    ((fetched : ℕ) × IsFresh some_host deepbook_input fetched)
    × IsPriced some_host deepbook_input deepbook_policy_example
derive_deepbook-passed_example =
    derive_deepbook-passed some_host deepbook_input deepbook_policy_example deepbook_passes

abbrev late_input : DeepbookInput
late_input = record deepbook_input { now = 10 }

abbrev late_refresh : RefreshRequired QuoteDirection
late_refresh = record {
  refresh_reason = RefreshReason.quote_stale;
  reason = Cause.stale;
  side = QuoteDirection.base_to_quote;
  fetched_at = stamp 3;
  quote_age_ms = 7;
  stale_after_ms = 6;
  clock_skew_ms = none;
}

late : derive_deepbook some_host late_input ≡ refresh_required late_refresh
unfolding derive_deepbook valid_slippage_bps parse_iso_utc_timestamp_ms stamp parse_raw_u64
    minimum_output to_decimal say_ur_intent.Numeric.Text.is_unsigned
    say_ur_intent.Numeric.Text.big_int say_ur_intent.Numeric.Text.digits_value
    say_ur_intent.Numeric.Text.emit_digits say_ur_intent.Numeric.Text.digit_char
    say_ur_intent.Numeric.Text.all_digits say_ur_intent.Numeric.Text.is_digit
    say_ur_intent.Quote.Deepbook.stale_after_of
    say_ur_intent.Quote.Deepbook.direction_from_raw_quote
    say_ur_intent.Receipt.Forbidden.starts_with say_ur_intent.Quote.Deepbook.deepbook_fetched
    say_ur_intent.Quote.Deepbook.deepbook_priced say_ur_intent.Quote.Deepbook.deepbook_policy
late = refl

derive_deepbook-refresh_example :
    (fetched : ℕ) × (parse_iso_utc_timestamp_ms some_host late_input.fetched_at ≡ some fetched)
    × Explains some_host late_input late_refresh.reason late_refresh.refresh_reason fetched
derive_deepbook-refresh_example = derive_deepbook-refresh some_host late_input late_refresh late

fee_parses : parse_raw_u64 "2" false ≡ ok 2
unfolding parse_raw_u64 say_ur_intent.Numeric.Text.is_unsigned say_ur_intent.Numeric.Text.big_int
    say_ur_intent.Numeric.Text.digits_value say_ur_intent.Numeric.Text.emit_digits
    say_ur_intent.Numeric.Text.digit_char say_ur_intent.Numeric.Text.all_digits
    say_ur_intent.Numeric.Text.is_digit
fee_parses = refl

derive_deepbook-derive_flowx_example :
    deepbook_outline (derive_deepbook some_host deepbook_input)
    ≡ flowx_outline (derive_flowx some_host flowx_input)
derive_deepbook-derive_flowx_example =
    derive_deepbook-derive_flowx flowx_input "2" "pool::get_quote_quantity_out" none 2 some_host
      fee_parses

abbrev sui_asset : QuotePolicyAsset
sui_asset = record {
  symbol = "SUI";
  coin_type = "0x2::sui::SUI";
  decimals = 9;
  unit_source = AssetUnitSource.flowx_clmm;
}

abbrev sui_amount : String → QuotePolicyAmount
sui_amount raw = record { raw = raw; asset = sui_asset }

abbrev some_library : Library
some_library = record {
  normalize_struct_tag = some;
  big_int = λ s. none;
  big_int_text = λ z. "0";
  slice = λ n s. s;
  to_lower_case = λ s. s;
}

abbrev flowx_evidence : SwapQuotePolicyEvidence
flowx_evidence = record {
  material_id = "material";
  review_session_id = "session";
  plan_id = "plan";
  account = "0xa";
  adapter_id = "flowx-swap";
  protocol = "flowx";
  action_kind = "swap";
  quote_evidence_id = "flowx_route_quote:plan";
  quote_source = record {
    provider = "flowx";
    pool_key = "SUI_USDC";
    direction = QuoteDirection.base_to_quote;
    fetched_at = stamp 3;
    source_move_function = "universal_router::build";
  };
  max_slippage_bps = 100;
  stale_after_ms = 6;
  source_amount = sui_amount "30";
  expected_output = sui_amount "1000";
  minimum_output = sui_amount "990";
  protocol_fee = sui_amount "0";
  derived_at = stamp 4;
  expires_at = stamp 9;
}

evidence_verifies :
    verify_quote_policy_evidence some_host some_library some_handle flowx_evidence 4
    ≡ some flowx_evidence
unfolding verify_quote_policy_evidence times_in_order amounts_agree minimum_output stamp
    parse_raw_u64 say_ur_intent.Numeric.Text.is_unsigned say_ur_intent.Numeric.Text.big_int
    say_ur_intent.Numeric.Text.digits_value say_ur_intent.Numeric.Text.emit_digits
    say_ur_intent.Numeric.Text.digit_char say_ur_intent.Numeric.Text.all_digits
    say_ur_intent.Numeric.Text.is_digit say_ur_intent.Quote.Evidence.matches_identity
    say_ur_intent.Quote.Evidence.amount say_ur_intent.Quote.Evidence.Data.same_asset
    say_ur_intent.Quote.Evidence.Schema.parse_evidence
    say_ur_intent.Quote.Evidence.Schema.parse_asset say_ur_intent.Quote.Evidence.Schema.parse_amount
    say_ur_intent.Quote.Evidence.Schema.valid_scalars
    say_ur_intent.Quote.Evidence.Schema.valid_quote_source
    say_ur_intent.Quote.Evidence.Mapping.map_to_contract_draft
    say_ur_intent.Quote.Evidence.Mapping.map_unit_source
    say_ur_intent.Quote.Evidence.Mapping.draft_sources
    say_ur_intent.Quote.Evidence.Mapping.draft_claims
    say_ur_intent.Quote.Evidence.Mapping.draft_quantities
    say_ur_intent.Quote.Contract.valid_source_of_truth say_ur_intent.Quote.Contract.valid_claim
    say_ur_intent.Quote.Contract.valid_raw_quantity say_ur_intent.Receipt.Evidence.every
    say_ur_intent.Host.is_iso_utc say_ur_intent.Host.parse_sui_address
    say_ur_intent.Numeric.RawU64.parse_canonical_raw_u64 say_ur_intent.Numeric.Text.is_canonical
evidence_verifies = refl

verify_quote_policy_evidence-some_example :
    IsBound some_handle flowx_evidence
    × IsCurrent some_host flowx_evidence 4
    × HasMinimum flowx_evidence
verify_quote_policy_evidence-some_example =
    verify_quote_policy_evidence-some some_host some_library some_handle flowx_evidence
      flowx_evidence 4 evidence_verifies

flowx_passes : derive_flowx some_host flowx_input ≡ passed flowx_policy_example
unfolding derive_flowx flowx_valid_slippage_bps parse_iso_utc_timestamp_ms stamp parse_raw_u64
    minimum_output to_decimal say_ur_intent.Numeric.Text.is_unsigned
    say_ur_intent.Numeric.Text.big_int say_ur_intent.Numeric.Text.digits_value
    say_ur_intent.Numeric.Text.emit_digits say_ur_intent.Numeric.Text.digit_char
    say_ur_intent.Numeric.Text.all_digits say_ur_intent.Numeric.Text.is_digit
    say_ur_intent.Quote.Flowx.flowx_stale_after_of
    say_ur_intent.Quote.Deepbook.direction_from_raw_quote
    say_ur_intent.Receipt.Forbidden.starts_with say_ur_intent.Quote.Flowx.flowx_fetched
    say_ur_intent.Quote.Flowx.flowx_priced say_ur_intent.Quote.Flowx.flowx_policy
flowx_passes = refl

carries : CarriesAmounts flowx_input flowx_policy_example flowx_evidence
unfolding to_decimal say_ur_intent.Numeric.Text.emit_digits say_ur_intent.Numeric.Text.digit_char
carries = (refl, refl, refl, refl, refl)

derive_flowx-evidence_example :
    (amounts_agree flowx_evidence ≡ some tt)
    × ((fetched : ℕ) × (parse_iso_utc_timestamp_ms some_host flowx_input.fetched_at ≡ some fetched)
        × (flowx_input.now ≤ flowx_policy_example.deadline_ms_epoch)
        × ((times_in_order fetched
                (max flowx_input.now fetched)
                flowx_policy_example.deadline_ms_epoch
                flowx_policy_example.stale_after_ms
                (max flowx_input.now fetched)
              ≡ true)
            ↔ (flowx_input.now < flowx_policy_example.deadline_ms_epoch)))
derive_flowx-evidence_example =
    derive_flowx-evidence flowx_input some_host flowx_policy_example flowx_evidence flowx_passes
      carries
