-- ===== src/Session/Sqlite/Histories.antt =====
-- Sequences of operations on the SQLite store and on the in-memory store.
use say_ur_intent.Prelude.{
  ℕ, ◌+◌, String, Bool, true, false, ◌==◌, eqb, List, [], ◌∷◌, ◌++◌, Option, some, none, Map,
  lookup, insert-missing, ◌≡◌, refl, sym, ap, ◌∙◌, inl, inr, arith, eq_iff, Bool-cases,
}
use mathlib.Core.Path.{subst}
use say_ur_intent.Session.Types.{ReviewSession}
use say_ur_intent.Session.Records.{
  create_record, commit_record, acquire_handoff_lock, release_handoff_lock,
}
use say_ur_intent.Session.Sqlite.{
  Codec, Row, row_of, update_row, get_live, create_live, update_live, commit_live, acquire_live,
  release_live,
}
use say_ur_intent.Session.Sqlite.Represents.{
  ParsesBack, Represents, session_from_row-row_of, select_row-lookup,
}
use say_ur_intent.Session.Sqlite.Refinement.{
  Agrees, written_or, lock_free, or_free, get_live-lookup, commit_live-Agrees, acquire_live-Agrees,
  release_live-Agrees,
}

-- The writes of a store, each under the id of its session.
pub data Command : Type 0 where
  create : ReviewSession → Command
  commit : ReviewSession → ReviewSession → Command
  acquire : String → String → Command
  release : String → Option String → Command

-- A creation answers nothing where it does not throw.
abbrev creates {ℓ} : {A : Type ℓ} → Option A → Option (Bool × A)
creates none = none
creates (some written) = some (true, written)

-- A write with its answer; `none` where it throws.
unfoldable pub step_live :
    {T : Type 0} → Codec T → Command → List (Row T) → Option (Bool × List (Row T))
step_live codec (create session) rows = creates (create_live codec session.id session rows)
step_live codec (commit expected next) rows = commit_live codec next.id expected next rows
step_live codec (acquire id digest) rows = acquire_live codec id digest rows
step_live codec (release id digest) rows = release_live codec id digest rows

unfoldable pub step_memory : Command → Map ReviewSession → Option (Bool × Map ReviewSession)
step_memory (create session) m = creates (create_record session.id session m)
step_memory (commit expected next) m = some (written_or m (commit_record next.id expected next m))
step_memory (acquire id digest) m = some (acquire_handoff_lock id digest m)
step_memory (release id digest) m = some (release_handoff_lock id digest m)

-- Whether a write threw, and the store after it. Every throw comes before anything is written.
abbrev attempt {ℓ} : {A : Type ℓ} → A → Option (Bool × A) → Bool × A
attempt store none = (true, store)
attempt store (some (answer, written)) = (false, written)

-- Which writes of a sequence threw, each caught by its caller, and the store after them.
unfoldable pub run_live :
    {T : Type 0} → Codec T → List Command → List (Row T) → List Bool × List (Row T)
unfolding step_live
run_live codec [] rows = ([], rows)
run_live codec (c ∷ cs) rows =
    let (threw, written) = attempt rows (step_live codec c rows) in
    let (others, last) = run_live codec cs written in (threw ∷ others, last)

unfoldable pub run_memory : List Command → Map ReviewSession → List Bool × Map ReviewSession
unfolding step_memory
run_memory [] m = ([], m)
run_memory (c ∷ cs) m =
    let (threw, written) = attempt m (step_memory c m) in
    let (others, last) = run_memory cs written in (threw ∷ others, last)

same_flags : {a b : Bool} {xs ys : List Bool} → a ≡ b → xs ≡ ys → a ∷ xs ≡ b ∷ ys
same_flags p q = rw (p, q) refl

module _ {T : Type 0} (codec : Codec T) (back : ParsesBack codec) where
  append-Represents :
      (rows : List (Row T)) (m : Map ReviewSession) (s : ReviewSession)
      → Represents codec rows m
      → Represents codec (rows ++ row_of codec s 0 ∷ []) (m ++ (s.id, s) ∷ [])
  unfolding row_of
  append-Represents [] [] s h = (refl, session_from_row-row_of codec s 0 back, tt)
  append-Represents [] (entry ∷ m) s h = absurd h
  append-Represents (row ∷ rows) [] s h = absurd h
  append-Represents (row ∷ rows) ((id, t) ∷ m) s (same, from, rest) =
      (same, from, append-Represents rows m s rest)

  -- The table and the records after the same write, and whether it threw.
  abbrev Follows : Bool × List (Row T) → Bool × Map ReviewSession → Type 0
  Follows (threw, rows) (refused, m) = (threw ≡ refused) × Represents codec rows m

  create-Follows :
      (rows : List (Row T)) (m : Map ReviewSession) (s : ReviewSession)
      → Represents codec rows m
      → Follows
          (attempt rows (creates (create_live codec s.id s rows)))
          (attempt m (creates (create_record s.id s m)))
  unfolding create_live create_record
  create-Follows rows m s h = elim (select_row-lookup codec rows m s.id h) [
    | inl (a, b) ↦
        let live : attempt rows (creates (create_live codec s.id s rows))
            ≡ (false, rows ++ row_of codec s 0 ∷ []) =
          ground arith in
        let records : attempt m (creates (create_record s.id s m)) ≡ (false, m ++ (s.id, s) ∷ []) =
          ground (arith, insert-missing s.id s m b) in
        rw (live, records) (refl, append-Represents rows m s h)
    | inr (row, t, a, b, c, d) ↦
        let live : attempt rows (creates (create_live codec s.id s rows)) ≡ (true, rows) =
          ground arith in
        let records : attempt m (creates (create_record s.id s m)) ≡ (true, m) = ground arith in
        rw (live, records) (refl, h)
  ]

  agreed :
      (rows : List (Row T)) (m : Map ReviewSession) (o : Option (Bool × List (Row T)))
      (answer : Bool) (next : Map ReviewSession)
      → Agrees codec o (answer, next)
      → Follows (attempt rows o) (false, next)
  agreed rows m o answer next (after, put, h) = rw put (refl, h)

  step-Follows :
      (c : Command) (rows : List (Row T)) (m : Map ReviewSession)
      → Represents codec rows m
      → Follows (attempt rows (step_live codec c rows)) (attempt m (step_memory c m))
  unfolding step_live step_memory
  step-Follows (create s) rows m h = create-Follows rows m s h
  step-Follows (commit expected next) rows m h =
      agreed rows m (commit_live codec next.id expected next rows)
        (written_or m (commit_record next.id expected next m)).0 _
        (commit_live-Agrees codec rows m expected next back h)
  step-Follows (acquire id digest) rows m h =
      agreed rows m (acquire_live codec id digest rows) (acquire_handoff_lock id digest m).0 _
        (acquire_live-Agrees codec rows m id digest h)
  step-Follows (release id digest) rows m h =
      agreed rows m (release_live codec id digest rows)
        (or_free (lock_free (lookup id m)) (release_handoff_lock id digest m)).0 _
        (release_live-Agrees codec rows m id digest h)

  run-Follows :
      (cs : List Command) (rows : List (Row T)) (m : Map ReviewSession)
      → Represents codec rows m
      → ((run_live codec cs rows).0 ≡ (run_memory cs m).0)
        × Represents codec (run_live codec cs rows).1 (run_memory cs m).1
  unfolding run_live run_memory
  run-Follows [] rows m h = (refl, h)
  run-Follows (c ∷ cs) rows m h =
      let (threw, represents) = step-Follows c rows m h in
      let (others, last) =
        run-Follows cs (attempt rows (step_live codec c rows)).1 (attempt m (step_memory c m)).1
          represents in
      (same_flags threw others, last)

  -- In any sequence of creations, conditional writes and locks that starts from the empty store,
  -- the same of them throw in SQLite as in memory, and afterwards the table gives for every id,
  -- without a throw, the session that the in-memory store holds.
  pub run_live-run_memory :
      (cs : List Command) (id : String)
      → ((run_live codec cs []).0 ≡ (run_memory cs []).0)
        × (get_live codec id (run_live codec cs []).1 ≡ some (lookup id (run_memory cs []).1))
  run_live-run_memory cs id =
      let (threw, represents) = run-Follows cs [] [] tt in
      (threw, get_live-lookup codec (run_live codec cs []).1 (run_memory cs []).1 id represents)

-- Of two updates that expect the same revision of a row, the second changes nothing once the first
-- has changed it.
pub update_live-once :
    {T : Type 0}
    → (codec : Codec T) (revision : ℕ) (s t : ReviewSession) (rows written : List (Row T))
    → s.id ≡ t.id
    → update_live codec revision s rows ≡ (true, written)
    → update_live codec revision t written ≡ (false, written)
unfolding update_live update_row row_of
update_live-once codec revision s t [] written same e = absurd (ground arith)
update_live-once codec revision s t (row ∷ rows) written same e =
    elim (Bool-cases (row.id == s.id)) [
      | inl here ↦ elim (Bool-cases (eqb row.revision revision)) [
        | inl fresh ↦
            let put : row_of codec s (row.revision + 1) ∷ rows ≡ written = ground arith in
            subst (λ w. update_live codec revision t w ≡ (false, w)) put
              (ground (arith, eq_iff s.id t.id))
        | inr stale ↦ absurd (ground arith)
      ]
      | inr there ↦
          let rest = (update_live codec revision s rows).1 in
          let below : update_live codec revision s rows ≡ (true, rest) = ground arith in
          let put : row ∷ rest ≡ written = ground arith in
          let again = update_live-once codec revision s t rows rest same below in
          let other : (row.id == t.id) ≡ false = ap (λ x. row.id == x) (sym same) ∙ there in
          subst (λ w. update_live codec revision t w ≡ (false, w)) put (ground arith)
    ]
