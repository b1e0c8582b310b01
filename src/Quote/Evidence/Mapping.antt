-- ===== src/Quote/Evidence/Mapping.antt =====
-- `mapSwapQuotePolicyEvidenceToContractDraft`: src/core/action/swapQuotePolicyEvidence.ts.
use Prim.Native.String.{◌++◌}
use say_ur_intent.Prelude.{String, ◌&&◌, List, [], ◌∷◌, Option, some}
use say_ur_intent.Prelude.Fallible.{◌>>=◌, ◌>>◌, ensure}
use say_ur_intent.Host.{Host}
use say_ur_intent.Receipt.Chain.{Library}
use say_ur_intent.Receipt.Evidence.{every}
use say_ur_intent.Quote.Contract.{
  SourceKind, UnitSource, QuantityRole, SourceOfTruth, AssetReference, Claim, RawQuantity,
  valid_source_of_truth, valid_claim, valid_raw_quantity, raw_quantity_amount, unit_metadata,
  quote_min_out, slippage_policy,
}
use say_ur_intent.Quote.Evidence.Data.{AssetUnitSource, SwapQuotePolicyEvidence}
use say_ur_intent.Quote.Evidence.Schema.{parse_evidence}

-- `mapUnitSource`, which knows every admitted value.
unfoldable pub map_unit_source : AssetUnitSource → SourceKind × UnitSource × String
map_unit_source AssetUnitSource.deepbook_scalar = (
  SourceKind.pinned_sdk_registry, UnitSource.pinned_sdk_metadata,
  "Pinned DeepBook mainnet coin metadata scalar used for quote raw units",
)
map_unit_source AssetUnitSource.flowx_clmm = (
  SourceKind.pinned_sdk_registry, UnitSource.pinned_sdk_metadata,
  "Pinned FlowX mainnet registry (chain-verified) used for quote raw units",
)
map_unit_source AssetUnitSource.sui_metadata = (
  SourceKind.verified_mainnet_onchain_metadata, UnitSource.verified_onchain_metadata,
  "Sui mainnet getCoinMetadata result used for quote raw units",
)

-- `SwapQuotePolicyContractMapping`; every unit source is supported.
pub record ContractMapping : Type 0 where
  pub source_of_truth : List SourceOfTruth
  pub evidence_claims : List Claim
  pub raw_quantities : List RawQuantity

module _ (e : SwapQuotePolicyEvidence) where
  abbrev unit_kind : SourceKind
  unit_kind = (map_unit_source e.expected_output.asset.unit_source).0

  abbrev unit_claim_source : UnitSource
  unit_claim_source = (map_unit_source e.expected_output.asset.unit_source).1

  abbrev unit_description : String
  unit_description = (map_unit_source e.expected_output.asset.unit_source).2

  abbrev output_asset : AssetReference
  output_asset = record {
    symbol = e.expected_output.asset.symbol;
    coin_type = e.expected_output.asset.coin_type;
  }

  unfoldable pub draft_sources : List SourceOfTruth
  unfolding map_unit_source
  draft_sources =
      record {
        id = "swap_quote_policy";
        kind = SourceKind.quote_evidence;
        source = e.protocol ++ " quote policy for " ++ e.adapter_id;
        verified_at = e.derived_at;
        fields =
            "quoteEvidenceId" ∷ "rawAmount" ∷ "minOutRaw" ∷ "asset" ∷ "amountRole"
            ∷ "maxSlippageBps" ∷ [];
      }
      ∷ record {
        id = "swap_quote_output_unit";
        kind = unit_kind;
        source = unit_description;
        verified_at = e.derived_at;
        fields = "coinType" ∷ "decimals" ∷ [];
      }
      ∷ []

  unfoldable pub draft_claims : List Claim
  unfolding map_unit_source
  draft_claims =
      raw_quantity_amount "swap_quote_expected_output_claim" "swap_quote_policy"
        QuantityRole.expected_output output_asset e.expected_output.raw
      ∷ raw_quantity_amount "swap_quote_minimum_output_claim" "swap_quote_policy"
          QuantityRole.minimum_output output_asset e.minimum_output.raw
      ∷ unit_metadata "swap_quote_output_unit_claim" "swap_quote_output_unit" unit_claim_source
          e.expected_output.asset.coin_type e.expected_output.asset.decimals
      ∷ quote_min_out "swap_quote_min_out_claim" "swap_quote_policy" e.quote_evidence_id
          e.minimum_output.raw
      ∷ slippage_policy "swap_quote_slippage_policy_claim" "swap_quote_policy" e.max_slippage_bps
          e.minimum_output.raw
      ∷ []

  abbrev draft_quantity : String → QuantityRole → String → String → String → RawQuantity
  draft_quantity id role raw field claim = record {
    id = id;
    role = role;
    asset = output_asset;
    raw_amount = raw;
    unit_decimals = e.expected_output.asset.decimals;
    unit_source = unit_claim_source;
    unit_source_field = field;
    unit_claim_id = "swap_quote_output_unit_claim";
    amount_claim_id = claim;
  }

  unfoldable pub draft_quantities : List RawQuantity
  unfolding map_unit_source
  draft_quantities =
      draft_quantity "swap_quote_expected_output" QuantityRole.expected_output e.expected_output.raw
        "expectedOutput.asset.decimals" "swap_quote_expected_output_claim"
      ∷ draft_quantity "swap_quote_minimum_output" QuantityRole.minimum_output e.minimum_output.raw
          "minimumOutput.asset.decimals" "swap_quote_minimum_output_claim"
      ∷ []

-- `none` where a schema throws.
unfoldable pub map_to_contract_draft :
    Host → Library → SwapQuotePolicyEvidence → Option ContractMapping
unfolding draft_sources draft_claims draft_quantities every
map_to_contract_draft host library input = do
  e ← parse_evidence host library input
  ensure (
      every (valid_source_of_truth host library) (draft_sources e)
      && every (valid_claim host library) (draft_claims e)
      && every (valid_raw_quantity host library) (draft_quantities e))
  some (record {
    source_of_truth = draft_sources e;
    evidence_claims = draft_claims e;
    raw_quantities = draft_quantities e;
  })
