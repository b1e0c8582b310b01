-- ===== src/Activity/Coverage.antt =====
-- Which part of a requested range the stored scans cover:
-- src/core/activity/externalActivityCoverage.ts. Times are compared as texts, by their characters.
use Prim.Native.Char.{code}
use say_ur_intent.Prelude.{
  ℕ, String, Bool, true, false, ◌&&◌, ◌||◌, not, ltb, eqb, is_some, if◌then◌else◌, List, [], ◌∷◌,
  ◌++◌, Option, some, none, ◌≡◌, ◌≢◌, ◌↔◌, refl, ap, ◌⊎◌, inl, inr, arith, Bool-cases,
}

pub data ScanKind : Type 0 where
  digest_lookup account_scan function_scan : ScanKind

pub data Relationship : Type 0 where
  affected sent : Relationship

-- What coverage reads of `ExternalActivityScanRecord`.
pub record ScanRecord : Type 0 where
  pub scan_id : String
  pub kind : ScanKind
  pub relationship : Relationship
  pub from_timestamp : Option String
  pub to_timestamp : Option String
  pub window_complete : Option Bool
  pub incomplete_reason : Option String

pub data CoverageStatus : Type 0 where
  no_stored_scans complete partial : CoverageStatus

pub data Limitation : Type 0 where
  no_complete_affected_account_scan no_stored_activity_scans scan_records_truncated : Limitation
  scan_window_incomplete scan_window_unbounded sent_only_scan_not_full_account_coverage : Limitation

pub record Coverage : Type 0 where
  pub status : CoverageStatus
  pub complete_ids : List String
  pub incomplete_ids : List String
  pub sent_only_ids : List String
  pub limitations : List Limitation

-- `<=` between texts.
unfoldable pub text_le : String → String → Bool
text_le String.[] t = true
text_le (String.◌∷◌ c s) String.[] = false
text_le (String.◌∷◌ c s) (String.◌∷◌ d t) =
    ltb (code c) (code d) || eqb (code c) (code d) && text_le s t

abbrev is_account_scan : ScanKind → Bool
is_account_scan ScanKind.account_scan = true
is_account_scan _ = false

abbrev pub is_affected : Relationship → Bool
is_affected Relationship.affected = true
is_affected _ = false

abbrev is_sent : Relationship → Bool
is_sent Relationship.sent = true
is_sent _ = false

abbrev is_true : Option Bool → Bool
is_true (some true) = true
is_true _ = false

abbrev is_false : Option Bool → Bool
is_false (some false) = true
is_false _ = false

abbrev at_most : Option String → String → Bool
at_most none to = false
at_most (some from) to = text_le from to

abbrev at_least : Option String → String → Bool
at_least none from = false
at_least (some to) from = text_le from to

-- `scanCompletesAffectedAccountRange`.
unfoldable pub scan_completes : ScanRecord → String → String → Bool
unfolding text_le
scan_completes scan from to =
    is_account_scan scan.kind
    && is_affected scan.relationship
    && is_true scan.window_complete
    && not (is_some scan.incomplete_reason)
    && at_most scan.from_timestamp from
    && at_least scan.to_timestamp to

-- `filter`, then `map` to the ids.
unfoldable pub ids_where : (ScanRecord → Bool) → List ScanRecord → List String
ids_where test [] = []
ids_where test (scan ∷ scans) =
    let rest = ids_where test scans in if test scan then scan.scan_id ∷ rest else rest

abbrev some_ids : List String → Bool
some_ids [] = false
some_ids (id ∷ ids) = true

abbrev when : Bool → Limitation → List Limitation
when true limitation = limitation ∷ []
when false limitation = []

abbrev status_of : ℕ → List String → CoverageStatus
status_of scan_count ids =
    if eqb scan_count 0
    then CoverageStatus.no_stored_scans
    else if some_ids ids
    then CoverageStatus.complete
    else CoverageStatus.partial

abbrev incomplete_scan : ScanRecord → Bool
incomplete_scan scan = is_false scan.window_complete || is_some scan.incomplete_reason

abbrev sent_only_scan : ScanRecord → Bool
sent_only_scan scan = is_account_scan scan.kind && is_sent scan.relationship

abbrev unbounded_scan : ScanRecord → Bool
unbounded_scan scan = not (is_some scan.from_timestamp) || not (is_some scan.to_timestamp)

-- `buildExternalActivityCoverageResult`, without what it copies. The limitations are in the order
-- of their texts, in which the code sorts them.
unfoldable pub build_coverage : String → String → List ScanRecord → ℕ → Bool → Coverage
unfolding scan_completes ids_where
build_coverage from to scans scan_count truncated =
    let completing = ids_where (λ scan. scan_completes scan from to) scans in
    let incomplete = ids_where incomplete_scan scans in
    let sent_only = ids_where sent_only_scan scans in
    record {
      status = status_of scan_count completing;
      complete_ids = completing;
      incomplete_ids = incomplete;
      sent_only_ids = sent_only;
      limitations =
          when (not (some_ids completing)) Limitation.no_complete_affected_account_scan
          ++ when (eqb scan_count 0) Limitation.no_stored_activity_scans
          ++ when truncated Limitation.scan_records_truncated
          ++ when (some_ids incomplete) Limitation.scan_window_incomplete
          ++ when (some_ids (ids_where unbounded_scan scans)) Limitation.scan_window_unbounded
          ++ when (some_ids sent_only) Limitation.sent_only_scan_not_full_account_coverage;
    }

abbrev pub IsIn : ScanRecord → List ScanRecord → Type 0
IsIn x [] = ⊥
IsIn x (scan ∷ scans) = (x ≡ scan) ⊎ IsIn x scans

ids_where-some :
    (test : ScanRecord → Bool) (scans : List ScanRecord)
    → (some_ids (ids_where test scans) ≡ true)
      ↔ ((scan : ScanRecord) × IsIn scan scans × (test scan ≡ true))
unfolding ids_where
ids_where-some test [] = (λ e. absurd (ground arith), λ (s, i, t). absurd i)
ids_where-some test (head ∷ scans) =
    let (forth, back) = ids_where-some test scans in
    elim (Bool-cases (test head)) [
      | inl passes ↦ (λ e. (head, inl refl, passes), λ h. ground arith)
      | inr fails ↦ (
        λ e. let (scan, i, t) = forth (ground arith) in (scan, inr i, t),
        λ (scan, i, t). elim i [
          | inl q ↦ absurd (ground (arith, ap test q))
          | inr j ↦ let there = back (scan, j, t) in ground arith
        ],
      )
    ]

-- The scan is of the account as an affected one, its window was completed with no reason to the
-- contrary, starts no later than the range and ends no earlier.
pub record Covers (from to : String) (scan : ScanRecord) : Type 0 where
  pub of_account : scan.kind ≡ ScanKind.account_scan
  pub of_affected : scan.relationship ≡ Relationship.affected
  pub completed : scan.window_complete ≡ some true
  pub no_reason : scan.incomplete_reason ≡ none
  pub starts : (start : String) × (scan.from_timestamp ≡ some start) × (text_le start from ≡ true)
  pub ends : (end : String) × (scan.to_timestamp ≡ some end) × (text_le to end ≡ true)

account_scan_only : (k : ScanKind) → is_account_scan k ≡ true → k ≡ ScanKind.account_scan
account_scan_only ScanKind.account_scan e = refl
account_scan_only ScanKind.digest_lookup e = absurd (ground arith)
account_scan_only ScanKind.function_scan e = absurd (ground arith)

affected_only : (r : Relationship) → is_affected r ≡ true → r ≡ Relationship.affected
affected_only Relationship.affected e = refl
affected_only Relationship.sent e = absurd (ground arith)

true_only : (o : Option Bool) → is_true o ≡ true → o ≡ some true
true_only none e = absurd (ground arith)
true_only (some true) e = refl
true_only (some false) e = absurd (ground arith)

no_reason_only : {A : Type 0} (o : Option A) → not (is_some o) ≡ true → o ≡ none
no_reason_only none e = refl
no_reason_only (some a) e = absurd (ground arith)

starts_by :
    (o : Option String) (from : String)
    → at_most o from ≡ true
    → (start : String) × (o ≡ some start) × (text_le start from ≡ true)
starts_by none from e = absurd (ground arith)
starts_by (some start) from e = (start, refl, e)

ends_by :
    (o : Option String) (to : String)
    → at_least o to ≡ true
    → (end : String) × (o ≡ some end) × (text_le to end ≡ true)
ends_by none to e = absurd (ground arith)
ends_by (some end) to e = (end, refl, e)

scan_completes-Covers :
    (scan : ScanRecord) (from to : String)
    → (scan_completes scan from to ≡ true) ↔ Covers from to scan
unfolding scan_completes
scan_completes-Covers scan from to = (
  λ e. record {
    of_account = account_scan_only scan.kind (ground arith);
    of_affected = affected_only scan.relationship (ground arith);
    completed = true_only scan.window_complete (ground arith);
    no_reason = no_reason_only scan.incomplete_reason (ground arith);
    starts = starts_by scan.from_timestamp from (ground arith);
    ends = ends_by scan.to_timestamp to (ground arith);
  },
  λ h.
      let (start, at_start, before) = h.starts in
      let (end, at_end, after) = h.ends in
      ground (arith, h.of_account, h.of_affected, h.completed, h.no_reason),
)

-- A range counts as covered exactly where scans are stored and one of them is of the account as
-- an affected one, has its window complete and no reason to the contrary, starts no later than
-- the range and ends no earlier.
pub build_coverage-complete :
    (from to : String) (scans : List ScanRecord) (scan_count : ℕ) (truncated : Bool)
    → ((build_coverage from to scans scan_count truncated).status ≡ CoverageStatus.complete)
      ↔ ((scan_count ≢ 0) × ((scan : ScanRecord) × IsIn scan scans × Covers from to scan))
unfolding build_coverage
build_coverage-complete from to scans scan_count truncated =
    let (forth, back) = ids_where-some (λ scan. scan_completes scan from to) scans in
    (
      λ e.
          let (scan, i, passes) = forth (ground arith) in
          (ground arith, (scan, i, (scan_completes-Covers scan from to).0 passes)),
      λ (stored, (scan, i, covers)).
          let there = back (scan, i, (scan_completes-Covers scan from to).1 covers) in ground arith,
    )
