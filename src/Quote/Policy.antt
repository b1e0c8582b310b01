-- ===== src/Quote/Policy.antt =====
-- What the two quote policies share, by src/adapters/deepbook/deepbookQuotePolicy.ts:
-- src/adapters/flowx/flowxSwapQuotePolicy.ts declares its results, `parseIsoUtcTimestampMs` and the
-- minimum output once more in the same words, and its own limits, which are in Flowx. Slippage and ages
-- are whole numbers; one with a fraction is refused like one out of range.
use say_ur_intent.Prelude.{
  ℕ, ◌-◌, ◌*◌, ◌/◌, String, Bool, ◌&&◌, ◌==◌, leb, if◌then◌else◌, Option, some, none,
}
use say_ur_intent.Host.{Host}
use say_ur_intent.Session.Types.{RefreshReason}
use say_ur_intent.Numeric.RawU64.{RawError}

abbrev pub review_quote_stale_after_ms : ℕ
review_quote_stale_after_ms = 30000

abbrev pub quote_future_skew_tolerance_ms : ℕ
quote_future_skew_tolerance_ms = 5000

abbrev pub max_slippage_bps : ℕ
max_slippage_bps = 1000

abbrev pub min_slippage_bps : ℕ
min_slippage_bps = 1

abbrev pub bps_denominator : ℕ
bps_denominator = 10000

-- What a policy throws: a bad argument, or an amount that does not parse.
pub data PolicyError : Type 0 where
  bad_slippage bad_stale_after bad_fetched_at : PolicyError
  bad_output bad_source bad_fee : RawError → PolicyError

pub data Cause : Type 0 where
  stale timestamp_in_future zero_expected_output zero_min_out : Cause

-- `…RefreshRequired`, with the side of the pool that the quote is for.
pub record RefreshRequired (Side : Type 0) : Type 0 where
  pub refresh_reason : RefreshReason
  pub reason : Cause
  pub side : Side
  pub fetched_at : String
  pub quote_age_ms : ℕ
  pub stale_after_ms : ℕ
  pub clock_skew_ms : Option ℕ

-- A policy throws, asks for a new quote, or passes.
pub data Derived (Side : Type 0) (Policy : Type 0) : Type 0 where
  threw : PolicyError → Derived Side Policy
  refresh_required : RefreshRequired Side → Derived Side Policy
  passed : Policy → Derived Side Policy

-- `assertSlippageBps`: whether it passes.
unfoldable pub valid_slippage_bps : ℕ → Bool
valid_slippage_bps value = leb min_slippage_bps value && leb value max_slippage_bps

-- `parseIsoUtcTimestampMs`; `none` where it throws.
unfoldable pub parse_iso_utc_timestamp_ms : Host → String → Option ℕ
parse_iso_utc_timestamp_ms host value = elim (host.parse_date value) [
  | none ↦ none
  | some t ↦ if host.to_iso t == value then some t else none
]

-- `(expectedOut * (BPS_DENOMINATOR - maxSlippageBps)) / BPS_DENOMINATOR`.
unfoldable pub minimum_output : ℕ → ℕ → ℕ
minimum_output expected bps = expected * (bps_denominator - bps) / bps_denominator
