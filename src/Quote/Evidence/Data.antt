-- ===== src/Quote/Evidence/Data.antt =====
-- The data of swap quote policy evidence: src/core/action/swapQuotePolicyEvidence.ts.
use say_ur_intent.Prelude.{ℕ, String, Bool, true, false, ◌&&◌, ◌==◌, eqb}
use say_ur_intent.Session.Material.Data.{MaterialHandle}
use say_ur_intent.Quote.Deepbook.{QuoteDirection}

-- The three admitted `unitSource` values.
pub data AssetUnitSource : Type 0 where
  deepbook_scalar flowx_clmm sui_metadata : AssetUnitSource

pub record QuotePolicyAsset : Type 0 where
  pub symbol : String
  pub coin_type : String
  pub decimals : ℕ
  pub unit_source : AssetUnitSource

pub record QuotePolicyAmount : Type 0 where
  pub raw : String
  pub asset : QuotePolicyAsset

pub record QuoteSource : Type 0 where
  pub provider : String
  pub pool_key : String
  pub direction : QuoteDirection
  pub fetched_at : String
  pub source_move_function : String

-- The fields with one admitted value are left out.
pub record SwapQuotePolicyEvidence : Type 0 where
  pub material_id : String
  pub review_session_id : String
  pub plan_id : String
  pub account : String
  pub adapter_id : String
  pub protocol : String
  pub action_kind : String
  pub quote_evidence_id : String
  pub quote_source : QuoteSource
  pub max_slippage_bps : ℕ
  pub stale_after_ms : ℕ
  pub source_amount : QuotePolicyAmount
  pub expected_output : QuotePolicyAmount
  pub minimum_output : QuotePolicyAmount
  pub protocol_fee : QuotePolicyAmount
  pub derived_at : String
  pub expires_at : String

-- `CreateSwapQuotePolicyEvidenceInput`.
pub record CreateInput : Type 0 where
  pub material_handle : MaterialHandle
  pub adapter_id : String
  pub protocol : String
  pub action_kind : String
  pub quote_evidence_id : String
  pub quote_source : QuoteSource
  pub max_slippage_bps : ℕ
  pub stale_after_ms : ℕ
  pub source_amount : QuotePolicyAmount
  pub expected_output : QuotePolicyAmount
  pub minimum_output : QuotePolicyAmount
  pub protocol_fee : QuotePolicyAmount
  pub derived_at : ℕ

abbrev same_unit_source : AssetUnitSource → AssetUnitSource → Bool
same_unit_source AssetUnitSource.deepbook_scalar AssetUnitSource.deepbook_scalar = true
same_unit_source AssetUnitSource.flowx_clmm AssetUnitSource.flowx_clmm = true
same_unit_source AssetUnitSource.sui_metadata AssetUnitSource.sui_metadata = true
same_unit_source _ _ = false

-- `sameAsset`.
unfoldable pub same_asset : QuotePolicyAsset → QuotePolicyAsset → Bool
same_asset left right =
    left.symbol == right.symbol
    && left.coin_type == right.coin_type
    && eqb left.decimals right.decimals
    && same_unit_source left.unit_source right.unit_source
