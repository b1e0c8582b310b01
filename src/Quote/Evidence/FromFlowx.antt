-- ===== src/Quote/Evidence/FromFlowx.antt =====
-- The policy of FlowX against the checks of its evidence, as
-- src/adapters/flowx/flowxSwapReviewEvidence.ts puts the one into the other.
use Prim.Native.Nat.{max}
use say_ur_intent.Prelude.{
  ℕ, ◌+◌, ◌-◌, ◌<◌, ◌≤◌, Bool, true, false, ltb, eqb, some, ◌≡◌, ◌↔◌, refl, sym, ap, ◌∙◌, arith,
  Bool-cases, Option-cases, inl, inr,
}
use say_ur_intent.Host.{Host}
use say_ur_intent.Numeric.Text.{to_decimal}
use say_ur_intent.Numeric.Text.RoundTrip.{big_int-to_decimal}
use say_ur_intent.Numeric.Text.Canonical.{is_canonical-to_decimal, canonical-is_unsigned}
use say_ur_intent.Numeric.RawU64.{ok, parse_raw_u64, max_raw_u64}
use say_ur_intent.Numeric.RawU64.Bounds.{parse_raw_u64-ok}
use say_ur_intent.Quote.Policy.{passed, parse_iso_utc_timestamp_ms, minimum_output}
use say_ur_intent.Quote.Flowx.{
  flowx_stale_after_of, flowx_valid_slippage_bps, flowx_quote_future_skew_tolerance_ms, FlowxInput,
  FlowxPolicy, flowx_policy, flowx_priced, flowx_fetched, derive_flowx,
}
use say_ur_intent.Quote.Bounds.{Parsed-cases, minimum_output-le}
use say_ur_intent.Quote.Evidence.{times_in_order, amount, amounts_agree}
use say_ur_intent.Quote.Evidence.Data.{SwapQuotePolicyEvidence}

-- A printed number parses again.
amount-to_decimal :
    (n : ℕ) (positive : Bool)
    → n ≤ max_raw_u64
    → (positive ≡ true → 0 < n)
    → amount (to_decimal n) positive ≡ some n
unfolding amount
amount-to_decimal n positive bound above =
    let parsed : parse_raw_u64 (to_decimal n) positive ≡ ok n =
      (parse_raw_u64-ok (to_decimal n) positive n).1 (
        canonical-is_unsigned (to_decimal n) (is_canonical-to_decimal n),
        sym (big_int-to_decimal n),
        bound,
        above,
      ) in
    ground arith

module _ (input : FlowxInput) where
  -- The printed amounts of a policy.
  abbrev Prints : FlowxPolicy → Type 0
  Prints p =
      (source : ℕ) × (expected : ℕ) × (0 < source)
      × (source ≤ max_raw_u64)
      × (0 < expected)
      × (expected ≤ max_raw_u64)
      × (0 < minimum_output expected input.max_slippage_bps)
      × (p.source_amount_raw ≡ to_decimal source)
      × (p.expected_out_raw ≡ to_decimal expected)
      × (p.min_out_raw ≡ to_decimal (minimum_output expected input.max_slippage_bps))
      × (p.max_slippage_bps ≡ input.max_slippage_bps)

  abbrev Ends : ℕ → ℕ → FlowxPolicy → Type 0
  Ends stale_after fetched p =
      (p.stale_after_ms ≡ stale_after) × (p.deadline_ms_epoch ≡ fetched + stale_after)

  flowx_priced-passed :
      (stale_after fetched expected : ℕ) (p : FlowxPolicy)
      → expected ≤ max_raw_u64
      → flowx_priced input stale_after fetched expected ≡ passed p
      → Prints p × Ends stale_after fetched p
  unfolding flowx_priced flowx_policy
  flowx_priced-passed stale_after fetched expected p bound e = elim (Bool-cases (eqb expected 0)) [
    | inl zero_out ↦ absurd (ground arith)
    | inr some_out ↦ elim (Bool-cases (eqb (minimum_output expected input.max_slippage_bps) 0)) [
      | inl zero_min ↦ absurd (ground arith)
      | inr some_min ↦ elim (Parsed-cases (parse_raw_u64 input.amount_in_raw true)) [
        | inr (x, q) ↦ absurd (ground arith)
        | inl (source, q) ↦
            let (unsigned, value, small, positive) =
              (parse_raw_u64-ok input.amount_in_raw true source).0 q in
            let above = positive refl in
            (
              (
                source,
                expected,
                above,
                small,
                ground arith,
                bound,
                ground arith,
                ground arith,
                ground arith,
                ground arith,
                ground arith,
              ),
              (ground arith, ground arith),
            )
      ]
    ]
  ]

  flowx_fetched-passed :
      (stale_after fetched : ℕ) (p : FlowxPolicy)
      → flowx_fetched input stale_after fetched ≡ passed p
      → (input.now ≤ fetched + stale_after) × Prints p × Ends stale_after fetched p
  unfolding flowx_fetched
  flowx_fetched-passed stale_after fetched p e =
      elim (Bool-cases (ltb (input.now + flowx_quote_future_skew_tolerance_ms) fetched)) [
        | inl ahead ↦ absurd (ground arith)
        | inr near ↦ elim (Bool-cases (ltb stale_after (input.now - fetched))) [
          | inl old ↦ absurd (ground arith)
          | inr fresh ↦ elim (Parsed-cases (parse_raw_u64 input.amount_out_raw false)) [
            | inr (x, q) ↦ absurd (ground arith)
            | inl (expected, q) ↦
                let (unsigned, value, small, positive) =
                  (parse_raw_u64-ok input.amount_out_raw false expected).0 q in
                let (prints, ends) =
                  flowx_priced-passed stale_after fetched expected p small (ground arith) in
                (ground arith, prints, ends)
          ]
        ]
      ]

  flowx-passed :
      (host : Host) (p : FlowxPolicy)
      → derive_flowx host input ≡ passed p
      → (fetched : ℕ) × (parse_iso_utc_timestamp_ms host input.fetched_at ≡ some fetched)
        × (0 < flowx_stale_after_of input.stale_after_ms)
        × (input.now ≤ fetched + flowx_stale_after_of input.stale_after_ms)
        × Prints p
        × Ends (flowx_stale_after_of input.stale_after_ms) fetched p
  unfolding derive_flowx
  flowx-passed host p e =
      let stale_after = flowx_stale_after_of input.stale_after_ms in
      elim (Bool-cases (flowx_valid_slippage_bps input.max_slippage_bps)) [
        | inr bad ↦ absurd (ground arith)
        | inl valid ↦ elim (Bool-cases (ltb stale_after 1)) [
          | inl never ↦ absurd (ground arith)
          | inr some_time ↦ elim (Option-cases (parse_iso_utc_timestamp_ms host input.fetched_at)) [
            | inl n ↦ absurd (ground arith)
            | inr (fetched, at) ↦
                let (fresh, prints, ends) =
                  flowx_fetched-passed stale_after fetched p (ground arith) in
                (fetched, at, ground arith, fresh, prints, ends)
          ]
        ]
      ]

  -- The evidence carries the amounts of the policy, and no fee.
  abbrev pub CarriesAmounts : FlowxPolicy → SwapQuotePolicyEvidence → Type 0
  CarriesAmounts p e =
      (e.source_amount.raw ≡ p.source_amount_raw)
      × (e.expected_output.raw ≡ p.expected_out_raw)
      × (e.minimum_output.raw ≡ p.min_out_raw)
      × (e.protocol_fee.raw ≡ to_decimal 0)
      × (e.max_slippage_bps ≡ p.max_slippage_bps)

  printed-amounts_agree :
      (p : FlowxPolicy) (e : SwapQuotePolicyEvidence)
      → Prints p
      → CarriesAmounts p e
      → amounts_agree e ≡ some tt
  unfolding amounts_agree
  printed-amounts_agree p e prints (s, x, m, f, b) =
      let (source, expected, s0, s1, x0, x1, m0, ps, px, pm, pb) = prints in
      let minimum = minimum_output expected input.max_slippage_bps in
      let m1 : minimum ≤ max_raw_u64 =
        omega (arith, minimum_output-le expected input.max_slippage_bps) in
      let of_source : amount e.source_amount.raw true ≡ some source =
        ap (λ r. amount r true) (s ∙ ps) ∙ amount-to_decimal source true s1 (λ q. s0) in
      let of_expected : amount e.expected_output.raw true ≡ some expected =
        ap (λ r. amount r true) (x ∙ px) ∙ amount-to_decimal expected true x1 (λ q. x0) in
      let of_minimum : amount e.minimum_output.raw true ≡ some minimum =
        ap (λ r. amount r true) (m ∙ pm) ∙ amount-to_decimal minimum true m1 (λ q. m0) in
      let of_fee : amount e.protocol_fee.raw false ≡ some 0 =
        ap (λ r. amount r false) f
        ∙ amount-to_decimal 0 false (omega arith) (λ q. absurd (ground arith)) in
      let slippage : e.max_slippage_bps ≡ input.max_slippage_bps = b ∙ pb in
      let same : eqb minimum (minimum_output expected e.max_slippage_bps) ≡ true =
        rw slippage (ground arith) in
      ground arith

  -- The amounts of a policy that passed pass the checks of its evidence. Its times pass them, with
  -- the policy made at the later of the clock and the quote, exactly before the deadline: at the
  -- deadline itself the policy still passes, and its evidence is refused as expired.
  pub derive_flowx-evidence :
      (host : Host) (p : FlowxPolicy) (e : SwapQuotePolicyEvidence)
      → derive_flowx host input ≡ passed p
      → CarriesAmounts p e
      → (amounts_agree e ≡ some tt)
        × ((fetched : ℕ) × (parse_iso_utc_timestamp_ms host input.fetched_at ≡ some fetched)
            × (input.now ≤ p.deadline_ms_epoch)
            × ((times_in_order fetched
                    (max input.now fetched)
                    p.deadline_ms_epoch
                    p.stale_after_ms
                    (max input.now fetched)
                  ≡ true)
                ↔ (input.now < p.deadline_ms_epoch)))
  unfolding times_in_order
  derive_flowx-evidence host p e d carries =
      let (fetched, at, some_time, fresh, prints, (stale, ends)) = flowx-passed host p d in
      (printed-amounts_agree p e prints carries, (fetched, at, omega arith, ground arith))
