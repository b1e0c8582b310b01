-- ===== src/Quote/Contract.antt =====
-- The parts of a wallet review contract that quote evidence is mapped to, with their schemas:
-- `adapterSourceOfTruthSchema`, `adapterEvidenceClaimSchema` and `adapterRawQuantitySchema` of
-- src/core/action/signableAdapterContract.ts, for the variants that the mapping makes.
use say_ur_intent.Prelude.{ℕ, String, Bool, true, false, ◌&&◌, leb, same_text, List, some}
use say_ur_intent.Host.{Host, is_iso_utc}
use say_ur_intent.Numeric.RawU64.{ok, err, parse_canonical_raw_u64}
use say_ur_intent.Receipt.Chain.{Library}
use say_ur_intent.Receipt.Evidence.{every}

pub data SourceKind : Type 0 where
  quote_evidence pinned_sdk_registry verified_mainnet_onchain_metadata : SourceKind

pub data UnitSource : Type 0 where
  pinned_sdk_metadata verified_onchain_metadata : UnitSource

pub data QuantityRole : Type 0 where
  expected_output minimum_output : QuantityRole

pub record SourceOfTruth : Type 0 where
  pub id : String
  pub kind : SourceKind
  pub source : String
  pub verified_at : String
  pub fields : List String

pub record AssetReference : Type 0 where
  pub symbol : String
  pub coin_type : String

pub data Claim : Type 0 where
  raw_quantity_amount : String → String → QuantityRole → AssetReference → String → Claim
  unit_metadata : String → String → UnitSource → String → ℕ → Claim
  quote_min_out : String → String → String → String → Claim
  slippage_policy : String → String → ℕ → String → Claim

pub record RawQuantity : Type 0 where
  pub id : String
  pub role : QuantityRole
  pub asset : AssetReference
  pub raw_amount : String
  pub unit_decimals : ℕ
  pub unit_source : UnitSource
  pub unit_source_field : String
  pub unit_claim_id : String
  pub amount_claim_id : String

module _ (host : Host) (library : Library) where
  -- `z.string().min(low).max(high)`.
  abbrev pub bounded : ℕ → ℕ → String → Bool
  bounded low high s = leb low (host.utf16_length s) && leb (host.utf16_length s) high

  abbrev evidence_id : String → Bool
  evidence_id = bounded 1 120

  -- `unsignedIntegerStringSchema`.
  abbrev unsigned_integer : String → Bool
  unsigned_integer s =
      leb 1 (host.utf16_length s)
      && elim (parse_canonical_raw_u64 s false) [ ok n ↦ true | err e ↦ false ]

  -- A coin type that is normalized already.
  abbrev normalized_coin_type : String → Bool
  normalized_coin_type s = bounded 1 512 s && same_text (library.normalize_struct_tag s) (some s)

  unfoldable pub valid_source_of_truth : SourceOfTruth → Bool
  unfolding every
  valid_source_of_truth s =
      evidence_id s.id
      && bounded 1 240 s.source
      && is_iso_utc host s.verified_at
      && every (bounded 1 120) s.fields

  abbrev valid_asset : AssetReference → Bool
  valid_asset asset = bounded 1 64 asset.symbol && normalized_coin_type asset.coin_type

  unfoldable pub valid_claim : Claim → Bool
  valid_claim (raw_quantity_amount id source_id role asset raw) =
      evidence_id id && evidence_id source_id && valid_asset asset && unsigned_integer raw
  valid_claim (unit_metadata id source_id source coin_type decimals) =
      evidence_id id && evidence_id source_id && normalized_coin_type coin_type && leb decimals 255
  valid_claim (quote_min_out id source_id quote_id min_out) =
      evidence_id id && evidence_id source_id && bounded 1 120 quote_id && unsigned_integer min_out
  valid_claim (slippage_policy id source_id bps min_out) =
      evidence_id id && evidence_id source_id && leb bps 10000 && unsigned_integer min_out

  unfoldable pub valid_raw_quantity : RawQuantity → Bool
  valid_raw_quantity q =
      evidence_id q.id
      && valid_asset q.asset
      && unsigned_integer q.raw_amount
      && leb q.unit_decimals 255
      && bounded 1 160 q.unit_source_field
      && evidence_id q.unit_claim_id
      && evidence_id q.amount_claim_id
