-- ===== src/Quote/Evidence/Schema.antt =====
-- `swapQuotePolicyEvidenceSchema` of src/core/action/swapQuotePolicyEvidence.ts: what it refuses,
-- and the normalized account and coin types of what it accepts.
use say_ur_intent.Prelude.{Bool, ◌&&◌, leb, Option, some}
use say_ur_intent.Prelude.Fallible.{◌>>=◌, ◌>>◌, ensure}
use say_ur_intent.Host.{Host, is_iso_utc, parse_sui_address}
use say_ur_intent.Receipt.Chain.{Library}
use say_ur_intent.Quote.Contract.{bounded}
use say_ur_intent.Quote.Evidence.Data.{
  QuotePolicyAsset, QuotePolicyAmount, QuoteSource, SwapQuotePolicyEvidence,
}

module _ (host : Host) (library : Library) where
  unfoldable pub parse_asset : QuotePolicyAsset → Option QuotePolicyAsset
  parse_asset asset = do
    coin_type ← library.normalize_struct_tag asset.coin_type
    ensure (
        bounded host library 1 64 asset.symbol
        && bounded host library 1 512 asset.coin_type
        && leb asset.decimals 255)
    some (record {
      symbol = asset.symbol;
      coin_type = coin_type;
      decimals = asset.decimals;
      unit_source = asset.unit_source;
    })

  unfoldable pub parse_amount : QuotePolicyAmount → Option QuotePolicyAmount
  unfolding parse_asset
  parse_amount amount = do
    asset ← parse_asset amount.asset
    ensure (leb 1 (host.utf16_length amount.raw))
    some (record { raw = amount.raw; asset = asset })

  unfoldable pub valid_quote_source : QuoteSource → Bool
  valid_quote_source source =
      bounded host library 1 120 source.provider
      && bounded host library 1 120 source.pool_key
      && is_iso_utc host source.fetched_at
      && bounded host library 1 160 source.source_move_function

  unfoldable pub valid_scalars : SwapQuotePolicyEvidence → Bool
  unfolding valid_quote_source
  valid_scalars e =
      leb 1 (host.utf16_length e.material_id)
      && leb 1 (host.utf16_length e.review_session_id)
      && leb 1 (host.utf16_length e.plan_id)
      && bounded host library 1 120 e.adapter_id
      && bounded host library 1 120 e.protocol
      && bounded host library 1 120 e.action_kind
      && bounded host library 1 120 e.quote_evidence_id
      && valid_quote_source e.quote_source
      && leb 1 e.max_slippage_bps
      && leb e.max_slippage_bps 10000
      && leb 1 e.stale_after_ms
      && is_iso_utc host e.derived_at
      && is_iso_utc host e.expires_at

  -- `parseSwapQuotePolicyEvidence`; `none` where it throws.
  unfoldable pub parse_evidence : SwapQuotePolicyEvidence → Option SwapQuotePolicyEvidence
  unfolding parse_amount valid_scalars
  parse_evidence e = do
    ensure (valid_scalars e)
    account ← parse_sui_address host e.account
    source_amount ← parse_amount e.source_amount
    expected_output ← parse_amount e.expected_output
    minimum_output ← parse_amount e.minimum_output
    protocol_fee ← parse_amount e.protocol_fee
    some (record {
      material_id = e.material_id;
      review_session_id = e.review_session_id;
      plan_id = e.plan_id;
      account = account;
      adapter_id = e.adapter_id;
      protocol = e.protocol;
      action_kind = e.action_kind;
      quote_evidence_id = e.quote_evidence_id;
      quote_source = e.quote_source;
      max_slippage_bps = e.max_slippage_bps;
      stale_after_ms = e.stale_after_ms;
      source_amount = source_amount;
      expected_output = expected_output;
      minimum_output = minimum_output;
      protocol_fee = protocol_fee;
      derived_at = e.derived_at;
      expires_at = e.expires_at;
    })
