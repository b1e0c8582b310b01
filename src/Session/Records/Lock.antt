-- ===== src/Session/Records/Lock.antt =====
-- Laws of the handoff lock of src/core/session/sessionRecordStore.ts.
use say_ur_intent.Prelude.{
  String, true, false, some, none, Map, lookup, insert, lookup-insert, ◌≡◌, refl, arith, eq_iff,
  ◌≢◌, Option-cases, inl, inr,
}
use say_ur_intent.Session.Types.{ReviewSession}
use say_ur_intent.Session.Records.{acquire_handoff_lock, release_handoff_lock}

acquired :
    (id digest : String) (m : Map ReviewSession)
    → (acquire_handoff_lock id digest m).0 ≡ true
    → (s : ReviewSession) × (lookup id m ≡ some s)
      × ((acquire_handoff_lock id digest m).1
          ≡ insert id (record s { pending_handoff_digest = some digest }) m)
unfolding acquire_handoff_lock
acquired id digest m e = elim (Option-cases (lookup id m)) [
  | inl n ↦ absurd (ground arith)
  | inr (s, found) ↦ (s, found, ground arith)
]

-- The session under `id` after the lock is taken.
pub acquire-lookup :
    (id digest : String) (m : Map ReviewSession)
    → (acquire_handoff_lock id digest m).0 ≡ true
    → (s : ReviewSession) × (lookup id m ≡ some s)
      × (lookup id (acquire_handoff_lock id digest m).1
          ≡ some (record s { pending_handoff_digest = some digest }))
acquire-lookup id digest m e =
    let (s, found, next) = acquired id digest m e in
    (
      s,
      found,
      rw next (
          ground (
            arith,
            lookup-insert id id (record s { pending_handoff_digest = some digest }) m,
            eq_iff id id,
          )),
    )

locked :
    (id digest other : String) (m : Map ReviewSession) (s : ReviewSession)
    → digest ≢ other
    → lookup id m ≡ some s
    → s.pending_handoff_digest ≡ some digest
    → (acquire_handoff_lock id other m ≡ (false, m))
      × ((acquire_handoff_lock id digest m).0 ≡ true)
      × (release_handoff_lock id (some other) m ≡ (false, m))
unfolding acquire_handoff_lock release_handoff_lock
locked id digest other m s ne found held = ground (arith, eq_iff digest other, eq_iff digest digest)

released :
    (id digest other : String) (m : Map ReviewSession) (s : ReviewSession)
    → lookup id m ≡ some s
    → s.pending_handoff_digest ≡ some digest
    → release_handoff_lock id (some digest) m
      ≡ (true, insert id (record s { pending_handoff_digest = none }) m)
unfolding release_handoff_lock
released id digest other m s found held = ground (arith, eq_iff digest digest)

free_acquires :
    (id other : String) (m : Map ReviewSession) (s : ReviewSession)
    → lookup id m ≡ some s
    → s.pending_handoff_digest ≡ none
    → (acquire_handoff_lock id other m).0 ≡ true
unfolding acquire_handoff_lock
free_acquires id other m s found free = ground arith

-- Once a digest holds the lock of a session, no other digest gets it and a release in the name of
-- another digest is refused, each without a change; the same digest may take it again; and after
-- a release in its own name any digest may take it.
pub acquire-excludes :
    (id digest other : String) (m : Map ReviewSession)
    → digest ≢ other
    → (acquire_handoff_lock id digest m).0 ≡ true
    → let m' = (acquire_handoff_lock id digest m).1 in
      let released = release_handoff_lock id (some digest) m' in
      (acquire_handoff_lock id other m' ≡ (false, m'))
      × ((acquire_handoff_lock id digest m').0 ≡ true)
      × (release_handoff_lock id (some other) m' ≡ (false, m'))
      × (released.0 ≡ true)
      × ((acquire_handoff_lock id other released.1).0 ≡ true)
acquire-excludes id digest other m ne e =
    let m' = (acquire_handoff_lock id digest m).1 in
    let (s, found, held) = acquire-lookup id digest m e in
    let t = record s { pending_handoff_digest = some digest } in
    let (refused, again, kept) = locked id digest other m' t ne held refl in
    let freed = released id digest other m' t held refl in
    (
      refused,
      again,
      kept,
      rw freed,
      rw freed (
          free_acquires id other (insert id (record s { pending_handoff_digest = none }) m')
            (record s { pending_handoff_digest = none })
            (ground (
              arith,
              lookup-insert id id (record s { pending_handoff_digest = none }) m',
              eq_iff id id,
            ))
            refl),
    )
