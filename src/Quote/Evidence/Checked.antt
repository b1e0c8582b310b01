-- ===== src/Quote/Evidence/Checked.antt =====
-- What evidence of a quote policy says once it is verified.
use mathlib.Core.Path.{subst}
use say_ur_intent.Prelude.{
  ℕ, ◌+◌, ◌<◌, ◌≤◌, String, Bool, true, false, eqb, some, ◌≡◌, refl, arith, eq_iff, inl, inr,
}
use say_ur_intent.Prelude.Fallible.{ensure, bind-some, ensure-some}
use say_ur_intent.Host.{Host}
use say_ur_intent.Numeric.RawU64.{ok, parse_raw_u64}
use say_ur_intent.Numeric.RawU64.Bounds.{parse_raw_u64-ok}
use say_ur_intent.Session.Material.Data.{MaterialHandle}
use say_ur_intent.Receipt.Chain.{Library}
use say_ur_intent.Quote.Policy.{minimum_output}
use say_ur_intent.Quote.Bounds.{Parsed-cases}
use say_ur_intent.Quote.Evidence.{
  matches_identity, times_in_order, amount, amounts_agree, verify_quote_policy_evidence,
}
use say_ur_intent.Quote.Evidence.Data.{SwapQuotePolicyEvidence, same_asset}
use say_ur_intent.Quote.Evidence.Schema.{parse_evidence}
use say_ur_intent.Quote.Evidence.Mapping.{map_to_contract_draft}

abbrev pub IsBound : MaterialHandle → SwapQuotePolicyEvidence → Type 0
IsBound handle e =
    (e.material_id ≡ handle.material_id)
    × (e.review_session_id ≡ handle.review_session_id)
    × (e.plan_id ≡ handle.plan_id)
    × (e.account ≡ handle.account)
    × (e.expires_at ≡ handle.expires_at)

-- The policy was made after the quote was fetched, and neither has expired at `now`.
abbrev pub IsCurrent : Host → SwapQuotePolicyEvidence → ℕ → Type 0
IsCurrent host e now =
    (fetched : ℕ) × (derived : ℕ) × (expires : ℕ) × (host.parse_date e.quote_source.fetched_at
      ≡ some fetched)
    × (host.parse_date e.derived_at ≡ some derived)
    × (host.parse_date e.expires_at ≡ some expires)
    × (fetched ≤ derived)
    × (derived ≤ now)
    × (now < expires)
    × (expires ≡ fetched + e.stale_after_ms)

-- The minimum output is the expected one less the slippage, and positive.
abbrev pub HasMinimum : SwapQuotePolicyEvidence → Type 0
HasMinimum e =
    (expected : ℕ) × (minimum : ℕ) × (parse_raw_u64 e.expected_output.raw true ≡ ok expected)
    × (parse_raw_u64 e.minimum_output.raw true ≡ ok minimum)
    × (minimum ≡ minimum_output expected e.max_slippage_bps)
    × (0 < minimum)
    × (e.minimum_output.asset.coin_type ≡ e.expected_output.asset.coin_type)
    × (e.minimum_output.asset.decimals ≡ e.expected_output.asset.decimals)

matches_identity-IsBound :
    (handle : MaterialHandle) (e : SwapQuotePolicyEvidence)
    → matches_identity handle e ≡ true
    → IsBound handle e
unfolding matches_identity
matches_identity-IsBound handle e h = ground (
  arith,
  eq_iff e.material_id handle.material_id,
  eq_iff e.review_session_id handle.review_session_id,
  eq_iff e.plan_id handle.plan_id,
  eq_iff e.account handle.account,
  eq_iff e.expires_at handle.expires_at,
)

times :
    (fetched derived expires stale_after now : ℕ)
    → times_in_order fetched derived expires stale_after now ≡ true
    → (fetched ≤ derived) × (derived ≤ now) × (now < expires) × (expires ≡ fetched + stale_after)
unfolding times_in_order
times fetched derived expires stale_after now h = ground arith

amount-some :
    (raw : String) (positive : Bool) (n : ℕ)
    → amount raw positive ≡ some n
    → parse_raw_u64 raw positive ≡ ok n
unfolding amount
amount-some raw positive n h = elim (Parsed-cases (parse_raw_u64 raw positive)) [
  | inl (m, q) ↦ ground arith
  | inr (x, q) ↦ absurd (ground arith)
]

assets :
    (e : SwapQuotePolicyEvidence)
    → same_asset e.expected_output.asset e.minimum_output.asset ≡ true
    → (e.minimum_output.asset.coin_type ≡ e.expected_output.asset.coin_type)
      × (e.minimum_output.asset.decimals ≡ e.expected_output.asset.decimals)
unfolding same_asset
assets e h =
    ground (arith, eq_iff e.expected_output.asset.coin_type e.minimum_output.asset.coin_type)

amounts_agree-HasMinimum :
    (e : SwapQuotePolicyEvidence) (u : Unit {0})
    → amounts_agree e ≡ some u
    → same_asset e.expected_output.asset e.minimum_output.asset ≡ true
    → HasMinimum e
unfolding amounts_agree
amounts_agree-HasMinimum e u h same =
    let (expected, p, h1) = bind-some (amount e.expected_output.raw true) _ u h in
    let (minimum, q, h2) = bind-some (amount e.minimum_output.raw true) _ u h1 in
    let (source, r, h3) = bind-some (amount e.source_amount.raw true) _ u h2 in
    let (fee, s, h4) = bind-some (amount e.protocol_fee.raw false) _ u h3 in
    let equal = ensure-some (eqb minimum (minimum_output expected e.max_slippage_bps)) u h4 in
    let parsed = amount-some e.minimum_output.raw true minimum q in
    let (unsigned, value, bound, positive) =
      (parse_raw_u64-ok e.minimum_output.raw true minimum).0 parsed in
    let (coin_type, decimals) = assets e same in
    (
      expected,
      minimum,
      amount-some e.expected_output.raw true expected p,
      parsed,
      ground arith,
      positive refl,
      coin_type,
      decimals,
    )

-- Verified evidence is bound to its material, was made while the quote was fresh and has not
-- expired, and its minimum output is the expected output less the slippage, positive and in the
-- same asset.
pub verify_quote_policy_evidence-some :
    (host : Host) (library : Library) (handle : MaterialHandle) (input e : SwapQuotePolicyEvidence)
    (now : ℕ)
    → verify_quote_policy_evidence host library handle input now ≡ some e
    → IsBound handle e × IsCurrent host e now × HasMinimum e
unfolding verify_quote_policy_evidence
verify_quote_policy_evidence-some host library handle input e now h =
    let (x, parsed, h1) = bind-some (parse_evidence host library input) _ e h in
    let (u1, p1, h2) = bind-some (ensure (matches_identity handle x)) _ e h1 in
    let (fetched, p2, h3) = bind-some (host.parse_date x.quote_source.fetched_at) _ e h2 in
    let (derived, p3, h4) = bind-some (host.parse_date x.derived_at) _ e h3 in
    let (expires, p4, h5) = bind-some (host.parse_date x.expires_at) _ e h4 in
    let (u2, p5, h6) =
      bind-some (ensure (times_in_order fetched derived expires x.stale_after_ms now)) _ e h5 in
    let (u3, p6, h7) = bind-some (amounts_agree x) _ e h6 in
    let (u4, p7, h8) =
      bind-some (ensure (same_asset x.expected_output.asset x.minimum_output.asset)) _ e h7 in
    let (mapping, p8, h9) = bind-some (map_to_contract_draft host library x) _ e h8 in
    let same : x ≡ e = ground arith in
    let bound = matches_identity-IsBound handle x (ensure-some (matches_identity handle x) u1 p1) in
    let (after, made, live, ends) =
      times fetched derived expires x.stale_after_ms now
        (ensure-some (times_in_order fetched derived expires x.stale_after_ms now) u2 p5) in
    let minimum =
      amounts_agree-HasMinimum x u3 p6
        (ensure-some (same_asset x.expected_output.asset x.minimum_output.asset) u4 p7) in
    subst (λ y. IsBound handle y × IsCurrent host y now × HasMinimum y) same
      (bound, (fetched, derived, expires, p2, p3, p4, after, made, live, ends), minimum)
