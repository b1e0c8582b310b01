-- ===== src/Session/Sqlite/Refinement.antt =====
-- The SQLite store refines the in-memory store, an operation at a time.
use mathlib.Core.Path.{subst}
use say_ur_intent.Prelude.{
  ℕ, ◌+◌, String, Bool, true, false, ◌||◌, not, ◌==◌, eqb, is_some, same_text, same_text_iff, List,
  Option, some, none, Map, lookup, insert, insert-lookup, ◌≡◌, refl, sym, ap, ◌∙◌, inl, inr, arith,
  eq_iff, Bool-cases, Option-cases,
}
use say_ur_intent.Prelude.Fallible.{bind-some}
use say_ur_intent.Session.Types.{ReviewSession, same_session}
use say_ur_intent.Session.Records.{commit_record, acquire_handoff_lock, release_handoff_lock}
use say_ur_intent.Session.Sqlite.{
  Codec, Row, row_of, session_from_row, parse_optional, with_lock, get_live, update_live,
  commit_live, acquire_live, release_live, releases,
}
use say_ur_intent.Session.Sqlite.Represents.{
  ParsesBack, Represents, session_from_row-row_of, select_row-lookup, update_row-Represents,
  update_row-kept, update_row-missing,
}

-- A conditional write as an answer and the records after it.
abbrev pub written_or : Map ReviewSession → Option (Map ReviewSession) → Bool × Map ReviewSession
written_or m none = (false, m)
written_or m (some written) = (true, written)

-- Whether the lock of a record is free.
abbrev pub lock_free : Option ReviewSession → Bool
lock_free none = false
lock_free (some s) = not (is_some s.pending_handoff_digest)

-- The answer of the table to a release: a lock that is free counts as released.
abbrev pub or_free : Bool → Bool × Map ReviewSession → Bool × Map ReviewSession
or_free free (answer, m) = (answer || free, m)

module _ {T : Type 0} (codec : Codec T) where
  -- An operation on the table gives the answer and the rows of an operation on the records.
  abbrev pub Agrees : Option (Bool × List (Row T)) → Bool × Map ReviewSession → Type 0
  Agrees o (answer, m) = (rows : List (Row T)) × (o ≡ some (answer, rows)) × Represents codec rows m

  named : (s : ReviewSession) (revision : ℕ) → (row_of codec s revision).id ≡ s.id
  unfolding row_of
  named s revision = refl

  pub get_live-lookup :
      (rows : List (Row T)) (m : Map ReviewSession) (id : String)
      → Represents codec rows m
      → get_live codec id rows ≡ some (lookup id m)
  unfolding get_live
  get_live-lookup rows m id h = elim (select_row-lookup codec rows m id h) [
    | inl (a, b) ↦ ground arith
    | inr (row, s, a, b, c, d) ↦ ground arith
  ]

  lock_of_row :
      (row : Row T) (s : ReviewSession)
      → session_from_row codec row ≡ some s
      → s.pending_handoff_digest ≡ row.pending_handoff_digest
  unfolding session_from_row
  lock_of_row row s e =
      let (plans, p, e1) = bind-some (codec.parse_plans row.plans_json) _ s e in
      let (state, q, e2) =
        bind-some (parse_optional codec.parse_state row.review_state_json) _ s e1 in
      let (result, r, e3) =
        bind-some (parse_optional codec.parse_result row.execution_result_json) _ s e2 in
      ground arith

  relocked :
      (row : Row T) (s : ReviewSession) (digest : Option String)
      → session_from_row codec row ≡ some s
      → session_from_row codec (with_lock digest row)
        ≡ some (record s { pending_handoff_digest = digest })
  unfolding session_from_row
  relocked row s digest e =
      let (plans, p, e1) = bind-some (codec.parse_plans row.plans_json) _ s e in
      let (state, q, e2) =
        bind-some (parse_optional codec.parse_state row.review_state_json) _ s e1 in
      let (result, r, e3) =
        bind-some (parse_optional codec.parse_result row.execution_result_json) _ s e2 in
      ground arith

  pub commit_live-Agrees :
      (rows : List (Row T)) (m : Map ReviewSession) (expected next : ReviewSession)
      → ParsesBack codec
      → Represents codec rows m
      → Agrees
          (commit_live codec next.id expected next rows)
          (written_or m (commit_record next.id expected next m))
  unfolding commit_live update_live commit_record
  commit_live-Agrees rows m expected next back h =
      let live = commit_live codec next.id expected next rows in
      let record_of = written_or m (commit_record next.id expected next m) in
      elim (select_row-lookup codec rows m next.id h) [
        | inl (a, b) ↦
            let refused : record_of ≡ (false, m) = ground arith in
            subst (Agrees live) (sym refused) (rows, ground arith, h)
        | inr (row, s, a, b, c, d) ↦ elim (Bool-cases (same_session s expected)) [
          | inr other ↦
              let refused : record_of ≡ (false, m) = ground arith in
              subst (Agrees live) (sym refused) (rows, ground arith, h)
          | inl same ↦
              let put : record_of ≡ (true, insert next.id next m) = ground arith in
              let (written, updated, represents) =
                update_row-Represents codec next.id (λ r. eqb r.revision row.revision)
                  (λ r. row_of codec next (r.revision + 1)) rows m row next h a (ground arith)
                  (named next (row.revision + 1))
                  (session_from_row-row_of codec next (row.revision + 1) back) in
              subst (Agrees live) (sym put) (written, ground arith, represents)
        ]
      ]

  pub acquire_live-Agrees :
      (rows : List (Row T)) (m : Map ReviewSession) (id digest : String)
      → Represents codec rows m
      → Agrees (acquire_live codec id digest rows) (acquire_handoff_lock id digest m)
  unfolding acquire_live acquire_handoff_lock
  acquire_live-Agrees rows m id digest h =
      let live = acquire_live codec id digest rows in
      let record_of = acquire_handoff_lock id digest m in
      elim (select_row-lookup codec rows m id h) [
        | inl (a, b) ↦
            let refused : record_of ≡ (false, m) = ground arith in
            subst (Agrees live) (sym refused) (rows, ground arith, h)
        | inr (row, s, a, b, c, d) ↦
            let lock = lock_of_row row s d in
            let locked = record s { pending_handoff_digest = some digest } in
            elim (Option-cases s.pending_handoff_digest) [
              | inl free ↦
                  let put : record_of ≡ (true, insert id locked m) = ground arith in
                  let unlocked : row.pending_handoff_digest ≡ none = sym lock ∙ free in
                  let (written, updated, represents) =
                    update_row-Represents codec id (λ r. not (is_some r.pending_handoff_digest))
                      (with_lock (some digest)) rows m row locked h a (ground arith) c
                      (relocked row s (some digest) d) in
                  subst (Agrees live) (sym put) (written, ground arith, represents)
              | inr (held, e) ↦
                  let row_held : row.pending_handoff_digest ≡ some held = sym lock ∙ e in
                  elim (Bool-cases (held == digest)) [
                    | inl mine ↦
                        let put : record_of ≡ (true, insert id locked m) = ground arith in
                        let value : some digest ≡ s.pending_handoff_digest =
                          ap some (sym ((eq_iff held digest).0 mine)) ∙ sym e in
                        let same : insert id locked m ≡ m =
                          ap (λ x. insert id (record s { pending_handoff_digest = x }) m) value
                          ∙ insert-lookup id s m b in
                        let answered : live ≡ some (true, rows) =
                          ground (arith, same_text_iff row.pending_handoff_digest (some digest)) in
                        subst (Agrees live) (sym put)
                          (rows, answered, subst (Represents codec rows) (sym same) h)
                    | inr other ↦
                        let refused : record_of ≡ (false, m) = ground arith in
                        let kept =
                          update_row-kept codec id (λ r. not (is_some r.pending_handoff_digest))
                            (with_lock (some digest)) rows row a (ground arith) in
                        let again = get_live-lookup rows m id h in
                        subst (Agrees live) (sym refused) (rows, ground arith, h)
                  ]
            ]
      ]

  pub release_live-Agrees :
      (rows : List (Row T)) (m : Map ReviewSession) (id : String) (digest : Option String)
      → Represents codec rows m
      → Agrees
          (release_live codec id digest rows)
          (or_free (lock_free (lookup id m)) (release_handoff_lock id digest m))
  unfolding release_live release_handoff_lock
  release_live-Agrees rows m id digest h =
      let live = release_live codec id digest rows in
      let record_of = or_free (lock_free (lookup id m)) (release_handoff_lock id digest m) in
      let again = get_live-lookup rows m id h in
      elim (select_row-lookup codec rows m id h) [
        | inl (a, b) ↦
            let refused : record_of ≡ (false, m) = ground arith in
            let kept =
              update_row-missing codec id (releases codec digest) (with_lock none) rows a in
            subst (Agrees live) (sym refused) (rows, ground arith, h)
        | inr (row, s, a, b, c, d) ↦
            let lock = lock_of_row row s d in
            let unlocked = record s { pending_handoff_digest = none } in
            elim (Option-cases s.pending_handoff_digest) [
              | inl free ↦
                  let kept =
                    update_row-kept codec id (releases codec digest) (with_lock none) rows row a
                      (ground arith) in
                  let answered : record_of ≡ (true, m) = ground arith in
                  subst (Agrees live) (sym answered) (rows, ground arith, h)
              | inr (held, e) ↦
                  elim (Bool-cases (not (is_some digest) || same_text (some held) digest)) [
                    | inl mine ↦
                        let put : record_of ≡ (true, insert id unlocked m) = ground arith in
                        let (written, updated, represents) =
                          update_row-Represents codec id (releases codec digest) (with_lock none)
                            rows m row unlocked h a (ground arith) c (relocked row s none d) in
                        subst (Agrees live) (sym put) (written, ground arith, represents)
                    | inr other ↦
                        let kept =
                          update_row-kept codec id (releases codec digest) (with_lock none) rows row
                            a (ground arith) in
                        let refused : record_of ≡ (false, m) = ground arith in
                        subst (Agrees live) (sym refused) (rows, ground arith, h)
                  ]
            ]
      ]
