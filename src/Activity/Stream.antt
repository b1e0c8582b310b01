-- ===== src/Activity/Stream.antt =====
-- One record for each transaction of the stored activity:
-- src/core/activity/externalActivityTransactionStream.ts. `compare_text` stands for
-- `localeCompare`, and `big_int` for `BigInt` of a checkpoint, which is a text of digits.
use say_ur_intent.Prelude.{
  ℕ, String, Bool, true, false, ◌&&◌, ◌||◌, ◌==◌, ltb, is_some, if◌then◌else◌, List, [], ◌∷◌,
  Option, some, none, Map, lookup, insert, lookup-insert, ◌≡◌, refl, ap, ◌∙◌, arith, eq_iff,
  Bool-cases, inl, inr,
}
use say_ur_intent.Activity.Coverage.{Relationship, is_affected}

-- What the selection reads of `ExternalActivityTransactionRecord`.
pub record TransactionRecord : Type 0 where
  pub digest : String
  pub relationship : Relationship
  pub checkpoint : Option String
  pub timestamp : Option String
  pub has_details : Bool

-- A comparison: below 0, 0 or above 0.
pub data Order : Type 0 where
  before same after : Order

abbrev then_by : Order → Order → Order
then_by Order.same next = next
then_by Order.before next = Order.before
then_by Order.after next = Order.after

-- `Number(b) - Number(a)`.
abbrev flag_order : Bool → Bool → Order
flag_order true false = Order.before
flag_order false true = Order.after
flag_order _ _ = Order.same

-- The larger number first.
abbrev number_order : ℕ → ℕ → Order
number_order a b = if ltb b a then Order.before else if ltb a b then Order.after else Order.same

-- A missing value comes last.
abbrev optional_order : (String → String → Order) → Option String → Option String → Order
optional_order order none none = Order.same
optional_order order none (some b) = Order.after
optional_order order (some a) none = Order.before
optional_order order (some a) (some b) = order a b

module _ (big_int : String → ℕ) (compare_text : String → String → Order) where
  -- `compareExternalActivityTransactionsDescending`.
  unfoldable pub compare_descending : TransactionRecord → TransactionRecord → Order
  compare_descending a b =
      then_by
        (optional_order (λ x y. number_order (big_int x) (big_int y)) a.checkpoint b.checkpoint)
        (then_by (optional_order (λ x y. compare_text y x) a.timestamp b.timestamp)
          (compare_text b.digest a.digest))

  -- `compareCanonicalTransactionPreference`.
  unfoldable pub compare_preference : TransactionRecord → TransactionRecord → Order
  unfolding compare_descending
  compare_preference a b = then_by (flag_order a.has_details b.has_details) (
      then_by (flag_order (is_affected a.relationship) (is_affected b.relationship))
        (compare_descending a b))

  abbrev comes_before : Order → Bool
  comes_before Order.before = true
  comes_before _ = false

  abbrev wins : TransactionRecord → Option TransactionRecord → Bool
  wins row none = true
  wins row (some existing) = comes_before (compare_preference row existing)

  -- The loop over the rows.
  unfoldable pub select_rows :
      List TransactionRecord → Map TransactionRecord → Map TransactionRecord
  unfolding compare_preference
  select_rows [] chosen = chosen
  select_rows (row ∷ rows) chosen =
      select_rows rows
        (if wins row (lookup row.digest chosen) then insert row.digest row chosen else chosen)

  unfoldable pub place_row : TransactionRecord → List TransactionRecord → List TransactionRecord
  unfolding compare_descending
  place_row row [] = row ∷ []
  place_row row (head ∷ rows) =
      let rest = place_row row rows in
      if comes_before (compare_descending head row) then head ∷ rest else row ∷ head ∷ rows

  -- `sort` of the chosen records.
  unfoldable pub sort_rows : Map TransactionRecord → List TransactionRecord
  unfolding place_row
  sort_rows [] = []
  sort_rows ((digest, row) ∷ rows) = place_row row (sort_rows rows)

  -- `canonicalExternalActivityTransactions`.
  unfoldable pub canonical_transactions : List TransactionRecord → List TransactionRecord
  unfolding select_rows sort_rows
  canonical_transactions rows = sort_rows (select_rows rows [])

  abbrev pub details_in : Option TransactionRecord → Bool
  details_in none = false
  details_in (some row) = row.has_details

  -- Whether some row of a digest has details.
  abbrev pub any_details : String → List TransactionRecord → Bool
  any_details digest [] = false
  any_details digest (row ∷ rows) =
      row.digest == digest && row.has_details || any_details digest rows

  -- Choosing between the stored record and a row keeps the details of either.
  winner-details :
      (row : TransactionRecord) (old : Option TransactionRecord)
      → details_in (if wins row old then some row else old) ≡ (details_in old || row.has_details)
  unfolding compare_preference
  winner-details row none = refl
  winner-details row (some existing) = elim (Bool-cases row.has_details) [
    | inl has ↦ elim (Bool-cases existing.has_details) [
      | inl had ↦ elim (Bool-cases (wins row (some existing))) [
        | inl w ↦ ground arith
        | inr l ↦ ground arith
      ]
      | inr lacked ↦ ground arith
    ]
    | inr lacks ↦ elim (Bool-cases existing.has_details) [
      | inl had ↦ ground arith
      | inr lacked ↦ elim (Bool-cases (wins row (some existing))) [
        | inl w ↦ ground arith
        | inr l ↦ ground arith
      ]
    ]
  ]

  -- Whether some row has a digest.
  abbrev pub has_digest : String → List TransactionRecord → Bool
  has_digest digest [] = false
  has_digest digest (row ∷ rows) = row.digest == digest || has_digest digest rows

  abbrev chosen_after : TransactionRecord → Map TransactionRecord → Map TransactionRecord
  chosen_after row chosen =
      if wins row (lookup row.digest chosen) then insert row.digest row chosen else chosen

  lookup-chosen :
      (digest : String) (row : TransactionRecord) (chosen : Map TransactionRecord)
      → lookup digest (chosen_after row chosen) ≡ (
          if row.digest == digest
          then (if wins row (lookup row.digest chosen) then some row else lookup row.digest chosen)
          else lookup digest chosen)
  lookup-chosen digest row chosen =
      let put = lookup-insert digest row.digest row chosen in
      elim (Bool-cases (row.digest == digest)) [
        | inl here ↦
            let is_digest : lookup row.digest chosen ≡ lookup digest chosen =
              ap (λ d. lookup d chosen) ((eq_iff row.digest digest).0 here) in
            elim (Bool-cases (wins row (lookup row.digest chosen))) [
              | inl w ↦ ground arith
              | inr l ↦ ground arith
            ]
        | inr other ↦ elim (Bool-cases (wins row (lookup row.digest chosen))) [
          | inl w ↦ ground arith
          | inr l ↦ ground arith
        ]
      ]

  winner-some :
      (row : TransactionRecord) (old : Option TransactionRecord)
      → is_some (if wins row old then some row else old) ≡ true
  winner-some row none = refl
  winner-some row (some existing) = elim (Bool-cases (wins row (some existing))) [
    | inl w ↦ ground arith
    | inr l ↦ ground arith
  ]

  select_rows-lookup :
      (digest : String) (rows : List TransactionRecord) (chosen : Map TransactionRecord)
      → (is_some (lookup digest (select_rows rows chosen))
          ≡ (is_some (lookup digest chosen) || has_digest digest rows))
        × (details_in (lookup digest (select_rows rows chosen))
            ≡ (details_in (lookup digest chosen) || any_details digest rows))
  unfolding select_rows
  select_rows-lookup digest [] chosen = (ground arith, ground arith)
  select_rows-lookup digest (row ∷ rows) chosen =
      let (present, details) = select_rows-lookup digest rows (chosen_after row chosen) in
      let at = lookup-chosen digest row chosen in
      elim (Bool-cases (row.digest == digest)) [
        | inl here ↦
            let is_digest : lookup row.digest chosen ≡ lookup digest chosen =
              ap (λ d. lookup d chosen) ((eq_iff row.digest digest).0 here) in
            let old = lookup row.digest chosen in
            let is_winner : lookup digest (chosen_after row chosen)
                ≡ (if wins row old then some row else old) =
              at ∙ ground arith in
            let some_winner = ap is_some is_winner ∙ winner-some row old in
            let winner =
              ap details_in is_winner
              ∙ winner-details row old
              ∙ ap (λ o. details_in o || row.has_details) is_digest in
            (ground (arith, present, some_winner), ground (arith, details, winner))
        | inr other ↦
            let kept : lookup digest (chosen_after row chosen) ≡ lookup digest chosen =
              at ∙ ground arith in
            (ground (arith, present, ap is_some kept), ground (arith, details, ap details_in kept))
      ]

  -- Before sorting there is a record for a digest exactly where some row has the digest, and it
  -- has details exactly where some row of the digest has them.
  pub select_rows-details :
      (digest : String) (rows : List TransactionRecord)
      → (is_some (lookup digest (select_rows rows [])) ≡ has_digest digest rows)
        × (details_in (lookup digest (select_rows rows [])) ≡ any_details digest rows)
  unfolding lookup
  select_rows-details digest rows = select_rows-lookup digest rows []
