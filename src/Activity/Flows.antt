-- ===== src/Activity/Flows.antt =====
-- What the coin flows of an account add up to, and what they allow to infer.
use mathlib.Core.Path.{subst}
use say_ur_intent.Prelude.{
  ℕ, suc, zero, ◌+◌, String, Bool, true, false, ◌==◌, if◌then◌else◌, List, [], ◌∷◌, Option, some,
  none, Map, lookup, insert, lookup-insert, ◌≡◌, ◌≢◌, ◌↔◌, refl, same_text_iff, sym, ap, ◌∙◌, arith,
  Bool-cases, Option-cases, inl, inr, eq_iff,
}
use say_ur_intent.Prelude.Int.{ℤ, pos, negsuc, pos_part, neg_part, sub_ℕ, ◌+ℤ◌}
use say_ur_intent.Prelude.Fallible.{bind-some}
use say_ur_intent.Host.{Host, parse_sui_address}
use say_ur_intent.Activity.Effects.{
  OwnedChange, Details, TransactionFact, Completeness, InferencePolicy, Flow, AccountEffects,
  address_matches, changes_of, add_amount, entry_of, accumulate, evidence_for, policy_for,
  effects_with, requested_account_effects, proves_absence, completeness_of,
}

-- The net is what came less what went.
abbrev pub IsNet : Flow → Type 0
IsNet flow = flow.net ≡ sub_ℕ flow.increase flow.decrease

add_amount-parts :
    (a : ℤ) (f : Flow)
    → ((add_amount a f).increase ≡ f.increase + pos_part a)
      × ((add_amount a f).decrease ≡ f.decrease + neg_part a)
unfolding add_amount
add_amount-parts (pos zero) f = (omega arith, omega arith)
add_amount-parts (pos (suc n)) f = (refl, omega arith)
add_amount-parts (negsuc n) f = (omega arith, refl)

sub_ℕ_step : (a b : ℕ) (z : ℤ) → sub_ℕ a b +ℤ z ≡ sub_ℕ (a + pos_part z) (b + neg_part z)
unfolding ◌+ℤ◌
sub_ℕ_step a b (pos n) = ground arith
sub_ℕ_step a b (negsuc n) = ground arith

add_amount-IsNet : (a : ℤ) (f : Flow) → IsNet f → IsNet (add_amount a f)
unfolding add_amount
add_amount-IsNet (pos zero) f h =
    ap (λ x. x +ℤ pos 0) h ∙ sub_ℕ_step f.increase f.decrease (pos 0) ∙ ground arith
add_amount-IsNet (pos (suc n)) f h =
    ap (λ x. x +ℤ pos (suc n)) h ∙ sub_ℕ_step f.increase f.decrease (pos (suc n)) ∙ ground arith
add_amount-IsNet (negsuc n) f h =
    ap (λ x. x +ℤ negsuc n) h ∙ sub_ℕ_step f.increase f.decrease (negsuc n) ∙ ground arith

chosen-IsNet :
    (b : Bool) (f : Flow) (o : Option Flow)
    → IsNet f
    → IsNet (entry_of o)
    → IsNet (entry_of (if b then some f else o))
chosen-IsNet true f o h k = h
chosen-IsNet false f o h k = k

module _ (big_int : String → Option ℤ) (coin : String) where
  abbrev part : (ℤ → ℕ) → Option ℤ → ℕ
  part of none = 0
  part of (some z) = of z

  -- The amounts of one coin, those that come and those that go.
  abbrev pub total : (ℤ → ℕ) → List OwnedChange → ℕ
  total of [] = 0
  total of (change ∷ changes) =
      (if change.coin_type == coin then part of (big_int change.amount_raw) else 0)
      + total of changes

  accumulate-entry :
      (changes : List OwnedChange) (flows out : Map Flow)
      → ((c : String) → IsNet (entry_of (lookup c flows)))
      → accumulate big_int changes flows ≡ some out
      → ((entry_of (lookup coin out)).increase
          ≡ (entry_of (lookup coin flows)).increase + total pos_part changes)
        × ((entry_of (lookup coin out)).decrease
            ≡ (entry_of (lookup coin flows)).decrease + total neg_part changes)
        × IsNet (entry_of (lookup coin out))
  unfolding accumulate
  accumulate-entry [] flows out h e =
      let same : flows ≡ out = ground arith in rw (sym same) (omega arith, omega arith, h coin)
  accumulate-entry (change ∷ changes) flows out h e =
      let (a, parsed, e1) = bind-some (big_int change.amount_raw) _ out e in
      let old = entry_of (lookup change.coin_type flows) in
      let next = insert change.coin_type (add_amount a old) flows in
      let found : (c : String)
          → lookup c next
            ≡ (if change.coin_type == c then some (add_amount a old) else lookup c flows) =
        λ c. lookup-insert c change.coin_type (add_amount a old) flows in
      let net : (c : String) → IsNet (entry_of (lookup c next)) = λ c.
        subst (λ o. IsNet (entry_of o)) (sym (found c))
          (chosen-IsNet (change.coin_type == c) (add_amount a old) (lookup c flows)
            (add_amount-IsNet a old (h change.coin_type)) (h c)) in
      let (i, d, n) = accumulate-entry changes next out net e1 in
      let (came, went) = add_amount-parts a old in
      elim (Bool-cases (change.coin_type == coin)) [
        | inl here ↦
            let is_coin : change.coin_type ≡ coin = (eq_iff change.coin_type coin).0 here in
            let at : lookup coin next ≡ some (add_amount a old) = found coin ∙ ground arith in
            let entry : entry_of (lookup coin next) ≡ add_amount a old = ap entry_of at in
            let before : old ≡ entry_of (lookup coin flows) =
              ap (λ c. entry_of (lookup c flows)) is_coin in
            let first : total pos_part (change ∷ changes) ≡ pos_part a + total pos_part changes =
              ground arith in
            let second : total neg_part (change ∷ changes) ≡ neg_part a + total neg_part changes =
              ground arith in
            (
              omega (
                arith,
                i,
                ap (λ (f : Flow). f.increase) entry,
                came,
                ap (λ (f : Flow). f.increase) before,
                first,
              ),
              omega (
                arith,
                d,
                ap (λ (f : Flow). f.decrease) entry,
                went,
                ap (λ (f : Flow). f.decrease) before,
                second,
              ),
              n,
            )
        | inr other ↦
            let at : lookup coin next ≡ lookup coin flows = found coin ∙ ground arith in
            let entry : entry_of (lookup coin next) ≡ entry_of (lookup coin flows) =
              ap entry_of at in
            let first : total pos_part (change ∷ changes) ≡ total pos_part changes = ground arith in
            let second : total neg_part (change ∷ changes) ≡ total neg_part changes =
              ground arith in
            (
              omega (arith, i, ap (λ (f : Flow). f.increase) entry, first),
              omega (arith, d, ap (λ (f : Flow). f.decrease) entry, second),
              n,
            )
      ]

  add_zero : (n : ℕ) → 0 + n ≡ n
  add_zero n = omega arith

  -- The flow of a coin has the sum of what came and the sum of what went in the changes of that
  -- coin, and its net is the difference.
  pub accumulate-total :
      (changes : List OwnedChange) (out : Map Flow)
      → accumulate big_int changes [] ≡ some out
      → ((entry_of (lookup coin out)).increase ≡ total pos_part changes)
        × ((entry_of (lookup coin out)).decrease ≡ total neg_part changes)
        × ((entry_of (lookup coin out)).net
            ≡ sub_ℕ (total pos_part changes) (total neg_part changes))
  unfolding lookup
  accumulate-total changes out e =
      let (i, d, n) = accumulate-entry changes [] out (λ c. refl) e in
      let came = i ∙ add_zero (total pos_part changes) in
      let went = d ∙ add_zero (total neg_part changes) in
      (
        came,
        went,
        n
            ∙ ap (λ x. sub_ℕ x (entry_of (lookup coin out)).decrease) came
            ∙ ap (sub_ℕ (total pos_part changes)) went,
      )

effects_with-policy :
    (host : Host) (big_int : String → Option ℤ) (locale_before : String → String → Bool)
    (sent : Bool) (completeness : Completeness) (changes : List OwnedChange)
    (effects : AccountEffects)
    → effects_with host big_int locale_before sent completeness changes ≡ some effects
    → effects.policy
      ≡ policy_for (evidence_for completeness changes) (proves_absence completeness changes)
unfolding effects_with
effects_with-policy host big_int locale_before sent completeness changes effects e =
    let (flows, p, e1) = bind-some (accumulate big_int changes []) _ effects e in ground arith

policy_proven :
    (completeness : Completeness) (changes : List OwnedChange)
    → (policy_for (evidence_for completeness changes) (proves_absence completeness changes)
        ≡ InferencePolicy.absence_proven)
      ↔ ((completeness ≡ Completeness.complete) × (changes ≡ []))
unfolding policy_for evidence_for
policy_proven Completeness.complete [] = ground arith
policy_proven Completeness.complete (c ∷ cs) = ground arith
policy_proven Completeness.truncated changes = ground arith
policy_proven Completeness.unavailable changes = ground arith

whole_details : (cut : Bool) → completeness_of cut ≡ Completeness.complete → cut ≡ false
whole_details true e = absurd (ground arith)
whole_details false e = refl

-- No change of the list is of the account: no owner of them, where it has one, is an address that
-- parses as the account.
abbrev pub NoneOwned : Host → String → List OwnedChange → Type 0
NoneOwned host account [] = Unit {0}
NoneOwned host account (change ∷ changes) =
    ((owner : String) → change.owner ≡ some owner → parse_sui_address host owner ≢ some account)
    × NoneOwned host account changes

address_matches_iff :
    (host : Host) (owner : Option String) (account : String)
    → (address_matches host owner account ≡ true)
      ↔ ((raw : String) × (owner ≡ some raw) × (parse_sui_address host raw ≡ some account))
unfolding address_matches
address_matches_iff host none account =
    (λ e. absurd (ground arith), λ (raw, p, q). absurd (ground arith))
address_matches_iff host (some raw) account =
    let (forth, back) = same_text_iff (parse_sui_address host raw) (some account) in
    (λ e. (raw, refl, forth e), λ (other, p, q). ground arith)

changes_of-NoneOwned :
    (host : Host) (account : String) (changes : List OwnedChange)
    → (changes_of host account changes ≡ []) ↔ NoneOwned host account changes
unfolding changes_of
changes_of-NoneOwned host account [] = (λ e. tt, λ h. refl)
changes_of-NoneOwned host account (change ∷ changes) =
    let (forth, back) = changes_of-NoneOwned host account changes in
    let (owned, matches) = address_matches_iff host change.owner account in
    elim (Bool-cases (address_matches host change.owner account)) [
      | inl here ↦ (
        λ e. absurd (ground arith),
        λ (foreign, rest). let (raw, p, q) = owned here in absurd (foreign raw p q),
      )
      | inr other ↦ (
        λ e. (λ owner p q. let found = matches (owner, p, q) in ground arith, forth (ground arith)),
        λ (foreign, rest). let none_left = back rest in ground arith,
      )
    ]

-- The absence of changes is taken as proven exactly where the details of the transaction are
-- there, the provider has not cut them off, and the owner of none of them is an address of the account.
pub requested_account_effects-policy :
    (host : Host) (big_int : String → Option ℤ) (locale_before : String → String → Bool)
    (t : TransactionFact) (account : String) (effects : AccountEffects)
    → requested_account_effects host big_int locale_before t account ≡ some effects
    → (effects.policy ≡ InferencePolicy.absence_proven) ↔ (
        (details : Details) × (t.details ≡ some details)
        × (details.truncated ≡ false)
        × NoneOwned host account details.balance_changes)
unfolding requested_account_effects
requested_account_effects-policy host big_int locale_before t account effects e =
    elim (Option-cases t.details) [
      | inl missing ↦
          let policy =
            effects_with-policy host big_int locale_before (address_matches host t.sender account)
              Completeness.unavailable [] effects (ground arith) in
          let (forth, back) = policy_proven Completeness.unavailable [] in
          (λ q. absurd (ground arith), λ (details, d, r, s). absurd (ground arith))
      | inr (details, p) ↦
          let changes = changes_of host account details.balance_changes in
          let policy =
            effects_with-policy host big_int locale_before (address_matches host t.sender account)
              (completeness_of details.truncated) changes effects (ground arith) in
          let (forth, back) = policy_proven (completeness_of details.truncated) changes in
          (
            λ q.
                let (whole, empty) = forth (sym policy ∙ q) in
                (
                  details,
                  p,
                  whole_details details.truncated whole,
                  (changes_of-NoneOwned host account details.balance_changes).0 empty,
                ),
            λ (other, d, whole, foreign).
                let empty = (changes_of-NoneOwned host account other.balance_changes).1 foreign in
                let same : details ≡ other = ground arith in
                policy
                ∙ back (
                  ap (λ (x : Details). completeness_of x.truncated) same ∙ ap completeness_of whole,
                  ap (λ (x : Details). changes_of host account x.balance_changes) same ∙ empty,
                ),
          )
    ]
