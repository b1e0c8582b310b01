-- ===== src/Quote/Evidence.antt =====
-- `verifySwapQuotePolicyEvidence` and `createSwapQuotePolicyEvidence`:
-- src/core/action/swapQuotePolicyEvidence.ts. `none` is a throw.
pub mod Data
pub mod Schema
pub mod Mapping
pub mod Checked
pub mod FromFlowx
use say_ur_intent.Prelude.{
  ℕ, ◌+◌, String, Bool, true, false, ◌&&◌, ◌||◌, not, ◌==◌, leb, ltb, eqb, Option, some, none,
  if◌then◌else◌,
}
use say_ur_intent.Prelude.Fallible.{◌>>=◌, ◌>>◌, ensure}
use say_ur_intent.Host.{Host}
use say_ur_intent.Numeric.RawU64.{Parsed, ok, err, parse_raw_u64}
use say_ur_intent.Session.Material.Data.{MaterialHandle}
use say_ur_intent.Receipt.Chain.{Library}
use say_ur_intent.Quote.Policy.{minimum_output}
use say_ur_intent.Quote.Evidence.Data.{SwapQuotePolicyEvidence, CreateInput, same_asset}
use say_ur_intent.Quote.Evidence.Schema.{parse_evidence}
use say_ur_intent.Quote.Evidence.Mapping.{map_to_contract_draft}

unfoldable pub matches_identity : MaterialHandle → SwapQuotePolicyEvidence → Bool
matches_identity handle e =
    e.material_id == handle.material_id
    && e.review_session_id == handle.review_session_id
    && e.plan_id == handle.plan_id
    && e.account == handle.account
    && e.expires_at == handle.expires_at

-- The tests on times; the schema has made sure that each of them parses.
unfoldable pub times_in_order : ℕ → ℕ → ℕ → ℕ → ℕ → Bool
times_in_order fetched derived expires stale_after now =
    leb fetched derived
    && eqb (fetched + stale_after) expires
    && leb derived now
    && ltb derived expires
    && ltb now expires

unfoldable pub amount : String → Bool → Option ℕ
amount raw positive = elim (parse_raw_u64 raw positive) [ ok n ↦ some n | err e ↦ none ]

unfoldable pub amounts_agree : SwapQuotePolicyEvidence → Option (Unit {0})
unfolding amount
amounts_agree e = do
  expected ← amount e.expected_output.raw true
  minimum ← amount e.minimum_output.raw true
  source ← amount e.source_amount.raw true
  fee ← amount e.protocol_fee.raw false
  ensure (eqb minimum (minimum_output expected e.max_slippage_bps))

unfoldable pub verify_quote_policy_evidence :
    Host → Library → MaterialHandle → SwapQuotePolicyEvidence → ℕ → Option SwapQuotePolicyEvidence
unfolding amounts_agree
verify_quote_policy_evidence host library handle input now = do
  e ← parse_evidence host library input
  ensure (matches_identity handle e)
  fetched ← host.parse_date e.quote_source.fetched_at
  derived ← host.parse_date e.derived_at
  expires ← host.parse_date e.expires_at
  ensure (times_in_order fetched derived expires e.stale_after_ms now)
  amounts_agree e
  ensure (same_asset e.expected_output.asset e.minimum_output.asset)
  mapping ← map_to_contract_draft host library e
  some e

unfoldable pub evidence_of : Host → CreateInput → SwapQuotePolicyEvidence
evidence_of host input = record {
  material_id = input.material_handle.material_id;
  review_session_id = input.material_handle.review_session_id;
  plan_id = input.material_handle.plan_id;
  account = input.material_handle.account;
  adapter_id = input.adapter_id;
  protocol = input.protocol;
  action_kind = input.action_kind;
  quote_evidence_id = input.quote_evidence_id;
  quote_source = input.quote_source;
  max_slippage_bps = input.max_slippage_bps;
  stale_after_ms = input.stale_after_ms;
  source_amount = input.source_amount;
  expected_output = input.expected_output;
  minimum_output = input.minimum_output;
  protocol_fee = input.protocol_fee;
  derived_at = host.to_iso input.derived_at;
  expires_at = input.material_handle.expires_at;
}

-- `createSwapQuotePolicyEvidence`.
unfoldable pub create_evidence : Host → Library → CreateInput → Option SwapQuotePolicyEvidence
unfolding evidence_of verify_quote_policy_evidence
create_evidence host library input =
    verify_quote_policy_evidence host library input.material_handle (evidence_of host input)
      input.derived_at
