-- ===== src/Activity/Examples.antt =====
-- Account activity at concrete transactions and scans.
use say_ur_intent.Prelude.{
  is_some, ℕ, zero, suc, ◌+◌, String, Bool, true, false, List, [], ◌∷◌, Option, some, none, Map,
  lookup, ◌≡◌, ◌≢◌, ◌↔◌, refl, if◌then◌else◌, ltb, leb, eqb,
}
use Prim.Native.Char.{code}
use say_ur_intent.Prelude.Int.{ℤ, pos, negsuc, pos_part, neg_part, sub_ℕ}
use say_ur_intent.Numeric.Text.{big_int}
use say_ur_intent.Session.Fixtures.{some_host}
use say_ur_intent.Activity.Effects.{
  OwnedChange, Details, TransactionFact, Completeness, ChangeEvidence, InferencePolicy, Role, Flow,
  AccountEffects, entry_of, accumulate, requested_account_effects,
}
use say_ur_intent.Activity.Flows.{
  NoneOwned, total, accumulate-total, requested_account_effects-policy,
}
use say_ur_intent.Activity.Stream.{
  TransactionRecord, Order, select_rows, details_in, any_details, has_digest, select_rows-details,
}
use say_ur_intent.Activity.Coverage.{
  ScanRecord, ScanKind, Relationship, CoverageStatus, build_coverage, Covers, IsIn,
  build_coverage-complete,
}

-- Texts of digits, of a number below 0 behind a sign.
abbrev signed : String → Option ℤ
signed String.[] = some (pos 0)
signed (String.◌∷◌ c s) =
    if eqb (code c) 45 then some (negsuc (big_int s)) else some (pos (big_int (String.◌∷◌ c s)))

abbrev change_of : String → String → OwnedChange
change_of owner amount = record {
  index = 0;
  owner = some owner;
  coin_type = "SUI";
  amount_raw = amount;
}

abbrev some_changes : List OwnedChange
some_changes = change_of "0xa" "5" ∷ change_of "0xa" "-1" ∷ []

abbrev some_flow : Flow
some_flow = record { increase = 5; decrease = 2; net = pos 3 }

accumulates : accumulate signed some_changes [] ≡ some (("SUI", some_flow) ∷ [])
unfolding accumulate say_ur_intent.Prelude.insert lookup say_ur_intent.Prelude.Int.◌+ℤ◌ big_int
    say_ur_intent.Numeric.Text.digits_value
accumulates = refl

accumulate-total_example :
    ((entry_of (lookup "SUI" (("SUI", some_flow) ∷ []))).increase
      ≡ total signed "SUI" pos_part some_changes)
    × ((entry_of (lookup "SUI" (("SUI", some_flow) ∷ []))).decrease
        ≡ total signed "SUI" neg_part some_changes)
    × ((entry_of (lookup "SUI" (("SUI", some_flow) ∷ []))).net
        ≡ sub_ℕ
            (total signed "SUI" pos_part some_changes)
            (total signed "SUI" neg_part some_changes))
accumulate-total_example =
    accumulate-total signed "SUI" some_changes (("SUI", some_flow) ∷ []) accumulates

abbrev quiet_details : Details
quiet_details = record { balance_changes = change_of "0xb" "5" ∷ []; truncated = false }

abbrev quiet_transaction : TransactionFact
quiet_transaction = record { digest = "d"; sender = some "0xa"; details = some quiet_details }

abbrev quiet_effects : AccountEffects
quiet_effects = record {
  role = Role.sender;
  sent_by_account = true;
  evidence = ChangeEvidence.no_changes_returned;
  absence_proven = true;
  policy = InferencePolicy.absence_proven;
  completeness = Completeness.complete;
  changes = [];
  coin_flows = [];
}

abbrev before : String → String → Bool
before a b = false

quiet :
    requested_account_effects some_host signed before quiet_transaction "0xa" ≡ some quiet_effects
unfolding requested_account_effects say_ur_intent.Host.parse_sui_address
quiet = refl

requested_account_effects-policy_example :
    (quiet_effects.policy ≡ InferencePolicy.absence_proven) ↔ (
      (details : Details) × (quiet_transaction.details ≡ some details)
      × (details.truncated ≡ false)
      × NoneOwned some_host "0xa" details.balance_changes)
requested_account_effects-policy_example =
    requested_account_effects-policy some_host signed before quiet_transaction "0xa" quiet_effects
      quiet

abbrev some_scan : ScanRecord
some_scan = record {
  scan_id = "scan";
  kind = ScanKind.account_scan;
  relationship = Relationship.affected;
  from_timestamp = some "2026-01-01";
  to_timestamp = some "2026-02-01";
  window_complete = some true;
  incomplete_reason = none;
}

build_coverage-complete_example :
    ((build_coverage "2026-01-05" "2026-01-31" (some_scan ∷ []) 1 false).status
      ≡ CoverageStatus.complete)
    ↔ ((1 ≢ zero)
        × ((scan : ScanRecord) × IsIn scan (some_scan ∷ [])
            × Covers "2026-01-05" "2026-01-31" scan))
build_coverage-complete_example =
    build_coverage-complete "2026-01-05" "2026-01-31" (some_scan ∷ []) 1 false

abbrev level : String → String → Order
level a b = Order.same

abbrev plain_record : TransactionRecord
plain_record = record {
  digest = "d";
  relationship = Relationship.affected;
  checkpoint = some "7";
  timestamp = none;
  has_details = false;
}

abbrev some_rows : List TransactionRecord
some_rows = plain_record ∷ record plain_record { has_details = true } ∷ []

select_rows-details_example :
    (is_some (lookup "d" (select_rows big_int level some_rows []))
      ≡ has_digest big_int level "d" some_rows)
    × (details_in big_int level (lookup "d" (select_rows big_int level some_rows []))
        ≡ any_details big_int level "d" some_rows)
select_rows-details_example = select_rows-details big_int level "d" some_rows
