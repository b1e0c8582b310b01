-- ===== src/Activity/Effects.antt =====
-- The effects of transactions on a requested account:
-- src/core/activity/transactionActivityAccountEffects.ts. `big_int` stands for `BigInt` of a text,
-- which throws, and `locale_before` for `localeCompare` below 0. Where `none` is given the code
-- throws. `toString` of the totals is left to who prints them.
use say_ur_intent.Prelude.{
  ℕ, suc, zero, ◌+◌, String, Bool, true, false, ltb, eqb, if◌then◌else◌, List, [], ◌∷◌, Option,
  some, none, Map, lookup, insert, same_text,
}
use say_ur_intent.Prelude.Int.{ℤ, pos, negsuc, pos_part, neg_part, ◌+ℤ◌}
use say_ur_intent.Prelude.Fallible.{◌>>=◌}
use say_ur_intent.Host.{Host, parse_sui_address}

pub record OwnedChange : Type 0 where
  pub index : ℕ
  pub owner : Option String
  pub coin_type : String
  pub amount_raw : String

-- `details`: the changes, and whether the provider has cut them off.
pub record Details : Type 0 where
  pub balance_changes : List OwnedChange
  pub truncated : Bool

pub record TransactionFact : Type 0 where
  pub digest : String
  pub sender : Option String
  pub details : Option Details

pub data Completeness : Type 0 where
  complete truncated unavailable : Completeness

pub data ChangeEvidence : Type 0 where
  changes_returned no_changes_returned incomplete_changes changes_unavailable : ChangeEvidence

pub data InferencePolicy : Type 0 where
  use_returned_changes absence_proven do_not_infer : InferencePolicy

pub data Role : Type 0 where
  sender affected_only : Role

pub record Flow : Type 0 where
  pub increase : ℕ
  pub decrease : ℕ
  pub net : ℤ

pub record AccountEffects : Type 0 where
  pub role : Role
  pub sent_by_account : Bool
  pub evidence : ChangeEvidence
  pub absence_proven : Bool
  pub policy : InferencePolicy
  pub completeness : Completeness
  pub changes : List OwnedChange
  pub coin_flows : Map Flow

-- `addressMatches`.
unfoldable pub address_matches : Host → Option String → String → Bool
address_matches host none account = false
address_matches host (some candidate) account =
    same_text (parse_sui_address host candidate) (some account)

-- `filter` of the changes of the account.
unfoldable pub changes_of : Host → String → List OwnedChange → List OwnedChange
unfolding address_matches
changes_of host account [] = []
changes_of host account (change ∷ changes) =
    let rest = changes_of host account changes in
    if address_matches host change.owner account then change ∷ rest else rest

abbrev pub no_flow : Flow
no_flow = record { increase = 0; decrease = 0; net = pos 0 }

-- One round of the loop on an entry.
unfoldable pub add_amount : ℤ → Flow → Flow
add_amount (pos zero) flow = record flow { net = flow.net +ℤ pos 0 }
add_amount (pos (suc n)) flow = record {
  increase = flow.increase + suc n;
  decrease = flow.decrease;
  net = flow.net +ℤ pos (suc n);
}
add_amount (negsuc n) flow = record {
  increase = flow.increase;
  decrease = flow.decrease + suc n;
  net = flow.net +ℤ negsuc n;
}

abbrev pub entry_of : Option Flow → Flow
entry_of none = no_flow
entry_of (some flow) = flow

-- The loop of `coinFlowsForBalanceChanges`, in the order of insertion.
unfoldable pub accumulate : (String → Option ℤ) → List OwnedChange → Map Flow → Option (Map Flow)
unfolding add_amount
accumulate big_int [] flows = some flows
accumulate big_int (change ∷ changes) flows = do
  amount ← big_int change.amount_raw
  accumulate big_int changes
      (insert change.coin_type (add_amount amount (entry_of (lookup change.coin_type flows))) flows)

abbrev magnitude : ℤ → ℕ
magnitude z = pos_part z + neg_part z

-- The order of the rows: the larger net first, then by the coin type.
abbrev pub flow_before : (String → String → Bool) → String × Flow → String × Flow → Bool
flow_before locale_before (c, f) (d, g) =
    if eqb (magnitude f.net) (magnitude g.net)
    then locale_before c d
    else ltb (magnitude g.net) (magnitude f.net)

unfoldable pub place : (String → String → Bool) → String × Flow → Map Flow → Map Flow
place locale_before row [] = row ∷ []
place locale_before row (head ∷ rows) =
    let rest = place locale_before row rows in
    if flow_before locale_before head row then head ∷ rest else row ∷ head ∷ rows

-- `sort` with that order, which is stable.
unfoldable pub sort_flows : (String → String → Bool) → Map Flow → Map Flow
unfolding place
sort_flows locale_before [] = []
sort_flows locale_before (row ∷ rows) = place locale_before row (sort_flows locale_before rows)

unfoldable pub evidence_for : Completeness → List OwnedChange → ChangeEvidence
evidence_for Completeness.truncated changes = ChangeEvidence.incomplete_changes
evidence_for Completeness.unavailable changes = ChangeEvidence.changes_unavailable
evidence_for Completeness.complete [] = ChangeEvidence.no_changes_returned
evidence_for Completeness.complete (change ∷ changes) = ChangeEvidence.changes_returned

unfoldable pub policy_for : ChangeEvidence → Bool → InferencePolicy
policy_for ChangeEvidence.changes_returned proven = InferencePolicy.use_returned_changes
policy_for ChangeEvidence.no_changes_returned true = InferencePolicy.absence_proven
policy_for _ _ = InferencePolicy.do_not_infer

abbrev role_of : Bool → Role
role_of true = Role.sender
role_of false = Role.affected_only

abbrev pub proves_absence : Completeness → List OwnedChange → Bool
proves_absence Completeness.complete [] = true
proves_absence _ _ = false

abbrev pub completeness_of : Bool → Completeness
completeness_of true = Completeness.truncated
completeness_of false = Completeness.complete

module _ (host : Host) (big_int : String → Option ℤ) (locale_before : String → String → Bool) where
  unfoldable pub effects_with : Bool → Completeness → List OwnedChange → Option AccountEffects
  unfolding accumulate sort_flows evidence_for policy_for
  effects_with sent completeness changes = do
    flows ← accumulate big_int changes []
    some (record {
      role = role_of sent;
      sent_by_account = sent;
      evidence = evidence_for completeness changes;
      absence_proven = proves_absence completeness changes;
      policy = policy_for (evidence_for completeness changes) (proves_absence completeness changes);
      completeness = completeness;
      changes = changes;
      coin_flows = sort_flows locale_before flows;
    })

  -- `requestedAccountEffectsForTransaction`.
  unfoldable pub requested_account_effects : TransactionFact → String → Option AccountEffects
  unfolding effects_with changes_of address_matches
  requested_account_effects t account = elim t.details [
    | none ↦ effects_with (address_matches host t.sender account) Completeness.unavailable []
    | some details ↦
        effects_with (address_matches host t.sender account) (completeness_of details.truncated)
          (changes_of host account details.balance_changes)
  ]
