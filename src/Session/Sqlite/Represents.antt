-- ===== src/Session/Sqlite/Represents.antt =====
-- Rows of the table against the records of the in-memory store.
use mathlib.Core.Path.{subst}
use say_ur_intent.Prelude.{
  ℕ, String, Bool, true, false, ◌==◌, List, [], ◌∷◌, Option, some, none, Map, lookup, insert, ◌≡◌,
  refl, sym, ap, ◌∙◌, ◌⊎◌, inl, inr, arith, eq_iff, Bool-cases,
}
use say_ur_intent.Session.Types.{ReviewSession, ReviewState, ActionPlan, ExecutionResult}
use say_ur_intent.Session.Sqlite.{
  Codec, Row, row_of, session_from_row, optional, parse_optional, select_row, update_row,
}

-- Texts parse back to what was printed.
abbrev pub ParsesBack : {T : Type 0} → Codec T → Type 0
ParsesBack codec =
    ((p : List ActionPlan) → codec.parse_plans (codec.plans_text p) ≡ some p)
    × ((s : ReviewState) → codec.parse_state (codec.state_text s) ≡ some s)
    × ((r : ExecutionResult) → codec.parse_result (codec.result_text r) ≡ some r)

parse-optional {ℓ κ} :
    {A : Type ℓ} {B : Type κ} (f : A → B) (g : B → Option A) (o : Option A)
    → ((a : A) → g (f a) ≡ some a)
    → parse_optional g (optional f o) ≡ some o
parse-optional f g none h = refl
parse-optional f g (some a) h = ground (arith, h a)

-- The rows stand for the records, one by one.
abbrev pub Represents : {T : Type 0} → Codec T → List (Row T) → Map ReviewSession → Type 0
Represents codec [] [] = Unit {0}
Represents codec [] (entry ∷ m) = ⊥
Represents codec (row ∷ rows) [] = ⊥
Represents codec (row ∷ rows) ((id, s) ∷ m) =
    (row.id ≡ id) × (session_from_row codec row ≡ some s) × Represents codec rows m

module _ {T : Type 0} (codec : Codec T) where
  pub session_from_row-row_of :
      (s : ReviewSession) (revision : ℕ)
      → ParsesBack codec
      → session_from_row codec (row_of codec s revision) ≡ some s
  unfolding session_from_row row_of
  session_from_row-row_of s revision (plans, states, results) =
      let p = plans s.plans in
      let q = parse-optional codec.state_text codec.parse_state s.review_state states in
      let r = parse-optional codec.result_text codec.parse_result s.execution_result results in
      rw (p, q, r) refl

  -- What a select finds.
  pub select_row-lookup :
      (rows : List (Row T)) (m : Map ReviewSession) (id : String)
      → Represents codec rows m
      → ((select_row id rows ≡ none) × (lookup id m ≡ none))
        ⊎ ((row : Row T) × (s : ReviewSession) × (select_row id rows ≡ some row)
            × (lookup id m ≡ some s)
            × (row.id ≡ id)
            × (session_from_row codec row ≡ some s))
  unfolding select_row lookup
  select_row-lookup [] [] id h = inl (refl, refl)
  select_row-lookup [] (entry ∷ m) id h = absurd h
  select_row-lookup (row ∷ rows) [] id h = absurd h
  select_row-lookup (row ∷ rows) ((j, s) ∷ m) id (same, from, rest) = elim (Bool-cases (j == id)) [
    | inl here ↦ inr (
      row,
      s,
      ground (arith, ap (λ x. x == id) same),
      ground arith,
      same ∙ (eq_iff j id).0 here,
      from,
    )
    | inr there ↦ elim (select_row-lookup rows m id rest) [
      | inl (a, b) ↦ inl (ground (arith, ap (λ x. x == id) same), ground arith)
      | inr (r, t, a, b, c, d) ↦
          inr (r, t, ground (arith, ap (λ x. x == id) same), ground arith, c, d)
    ]
  ]

  module _ (id : String) (test : Row T → Bool) (f : Row T → Row T) where
    -- An update of the row that stands for a record.
    pub update_row-Represents :
        (rows : List (Row T)) (m : Map ReviewSession) (row : Row T) (next : ReviewSession)
        → Represents codec rows m
        → select_row id rows ≡ some row
        → test row ≡ true
        → (f row).id ≡ id
        → session_from_row codec (f row) ≡ some next
        → (written : List (Row T)) × (update_row id test f rows ≡ (true, written))
          × Represents codec written (insert id next m)
    unfolding update_row select_row insert
    update_row-Represents [] [] row next h found t i e = absurd (ground arith)
    update_row-Represents [] (entry ∷ m) row next h found t i e = absurd h
    update_row-Represents (head ∷ rows) [] row next h found t i e = absurd h
    update_row-Represents (head ∷ rows) ((j, s) ∷ m) row next (same, from, rest) found t i e =
        elim (Bool-cases (head.id == id)) [
          | inl here ↦
              let is_row : head ≡ row = ground arith in
              let key : (j == id) ≡ true = ap (λ x. x == id) (sym same) ∙ here in
              let put : insert id next ((j, s) ∷ m) ≡ (j, next) ∷ m = ground arith in
              let named : (f head).id ≡ j =
                ap (λ r. (f r).id) is_row ∙ i ∙ sym ((eq_iff head.id id).0 here) ∙ same in
              (
                f head ∷ rows,
                ground (arith, ap test is_row),
                subst (Represents codec (f head ∷ rows)) (sym put)
                    (named, ap (λ r. session_from_row codec (f r)) is_row ∙ e, rest),
              )
          | inr there ↦
              let (written, updated, represents) =
                update_row-Represents rows m row next rest (ground arith) t i e in
              let key : (j == id) ≡ false = ap (λ x. x == id) (sym same) ∙ there in
              let put : insert id next ((j, s) ∷ m) ≡ (j, s) ∷ insert id next m = ground arith in
              (
                head ∷ written,
                ground arith,
                subst (Represents codec (head ∷ written)) (sym put) (same, from, represents),
              )
        ]

    pub update_row-kept :
        (rows : List (Row T)) (row : Row T)
        → select_row id rows ≡ some row
        → test row ≡ false
        → update_row id test f rows ≡ (false, rows)
    unfolding update_row select_row
    update_row-kept [] row found t = absurd (ground arith)
    update_row-kept (head ∷ rows) row found t = elim (Bool-cases (head.id == id)) [
      | inl here ↦ ground arith
      | inr there ↦ let rest = update_row-kept rows row (ground arith) t in ground arith
    ]

    pub update_row-missing :
        (rows : List (Row T))
        → select_row id rows ≡ none
        → update_row id test f rows ≡ (false, rows)
    unfolding update_row select_row
    update_row-missing [] found = refl
    update_row-missing (head ∷ rows) found = elim (Bool-cases (head.id == id)) [
      | inl here ↦ absurd (ground arith)
      | inr there ↦ let rest = update_row-missing rows (ground arith) in ground arith
    ]
