-- ===== src/Session/Store/Commit/Atomic.antt =====
-- A commit against the session as it stands after the awaited activity write.
use say_ur_intent.Prelude.{
  String, Bool, some, none, Map, lookup, insert, lookup-insert, ◌≡◌, ◌≢◌, refl, ap, ◌∙◌, arith, ◌⊎◌,
  inl, inr, Bool-cases, Option-cases, eq_iff,
}
use say_ur_intent.Session.Types.{ReviewSession}
use say_ur_intent.Session.Errors.{Thrown, Outcome, ok, err, Outcome-cases}
use say_ur_intent.Session.Records.{commit_record}
use say_ur_intent.Session.Records.Update.{commit_record-some, commit_record-fresh}
use say_ur_intent.Session.World.{World, Env, Op, ActivityWrite, ◌>>=◌, ◌>>◌}
use say_ur_intent.Session.Store.Commit.{
  LiveSideEffects, apply_live_side_effects, write_session, commit_with_live_session,
  commit_live_session_only, after_failure, commit_activity_only, commit_process,
}

-- The outcome of the side effects that follow the session: none, or an error that they throw.
abbrev AfterEffects : Op (Unit {0}) → Outcome (Unit {0}) → Type 0
AfterEffects effects r = (r ≡ ok tt) ⊎ ((v : World) × (r ≡ (effects v).0))

-- The activity write went well and left the expected session, which is replaced, and no other
-- session changes; or it failed or left another session or none there, and then no session
-- changes and the commit throws.
abbrev pub IsAtomic :
    ReviewSession
    → ReviewSession
    → Op (Unit {0})
    → Outcome (Unit {0}) × World
    → Outcome (Unit {0}) × World
    → Type 0
IsAtomic expected next effects before after =
    ((before.0 ≡ ok tt)
      × (lookup next.id before.1.sessions ≡ some expected)
      × (after.1.sessions ≡ insert next.id next before.1.sessions)
      × AfterEffects effects after.0)
    ⊎ (((before.0 ≢ ok tt) ⊎ (lookup next.id before.1.sessions ≢ some expected))
        × (after.1.sessions ≡ before.1.sessions)
        × (after.0 ≢ ok tt))

abbrev KeepsSessions : Op (Unit {0}) → Type 0
KeepsSessions m = (w : World) → (m w).1.sessions ≡ w.sessions

side_effects-sessions :
    (id : String) (fx : LiveSideEffects) (w : World)
    → (apply_live_side_effects id fx w).sessions ≡ w.sessions
unfolding apply_live_side_effects
side_effects-sessions id fx w = ground arith

refused_commit :
    (id : String) (expected next : ReviewSession) (m : Map ReviewSession)
    → commit_record id expected next m ≡ none
    → lookup id m ≢ some expected
refused_commit id expected next m e p =
    let done = commit_record-fresh id expected next m p in ground arith

live-IsAtomic :
    (expected next : ReviewSession) (effects : Op (Unit {0})) (fx : LiveSideEffects) (w : World)
    → IsAtomic expected next effects (ok tt, w) (commit_with_live_session (some expected) next fx w)
unfolding commit_with_live_session write_session
live-IsAtomic expected next effects fx w =
    elim (Option-cases (commit_record next.id expected next w.sessions)) [
      | inl n ↦
          inr (inr (refused_commit next.id expected next w.sessions n), ground arith, ground arith)
      | inr (m, p) ↦
          let (found, made) = commit_record-some next.id expected next w.sessions m p in
          inl (
            refl,
            found,
            ground (arith, side_effects-sessions next.id fx (record w { sessions = m })),
            inl (ground arith),
          )
    ]

-- A commit of the session alone replaces it, or throws.
abbrev IsAlone : ReviewSession → ReviewSession → World → Outcome (Unit {0}) × World → Type 0
IsAlone expected next before after =
    ((lookup next.id before.sessions ≡ some expected)
      × (after.1.sessions ≡ insert next.id next before.sessions)
      × (after.0 ≡ ok tt))
    ⊎ ((lookup next.id before.sessions ≢ some expected)
        × (after.1.sessions ≡ before.sessions)
        × (after.0 ≢ ok tt))

commit_live_session_only-IsAlone :
    (expected next : ReviewSession) (w : World)
    → IsAlone expected next w (commit_live_session_only (some expected) next w)
unfolding commit_live_session_only write_session
commit_live_session_only-IsAlone expected next w =
    elim (Option-cases (commit_record next.id expected next w.sessions)) [
      | inl n ↦ inr (refused_commit next.id expected next w.sessions n, ground arith, ground arith)
      | inr (m, p) ↦
          let facts = commit_record-some next.id expected next w.sessions m p in
          inl (ground (arith, facts), ground (arith, facts), ground arith)
    ]

module _ (expected next : ReviewSession) (activity effects : Op (Unit {0})) (on_failure : Bool)
    (keeps : KeepsSessions effects) where
  -- A failed step, after which the failure's side effects may run.
  failed_step :
      (before : Outcome (Unit {0}) × World) (e : Thrown) (w : World)
      → ((before.0 ≢ ok tt) ⊎ (lookup next.id before.1.sessions ≢ some expected))
      → w.sessions ≡ before.1.sessions
      → IsAtomic expected next effects before (after_failure on_failure effects (err e, w))
  unfolding after_failure
  failed_step before e w why kept = inr (why, ground (arith, keeps w), ground arith)

  -- The effects after the session leave the sessions alone, and so does the way on failure.
  then_effects :
      (before : World) (w : World)
      → lookup next.id before.sessions ≡ some expected
      → w.sessions ≡ insert next.id next before.sessions
      → IsAtomic expected next effects
          (ok tt, before)
          (after_failure on_failure effects (effects w))
  unfolding after_failure
  then_effects before w found made = elim (Outcome-cases (effects w).0) [
    | inl (v, p) ↦ inl (refl, found, ground (arith, keeps w), inl (ground arith))
    | inr (x, p) ↦
        inl (refl, found, ground (arith, keeps w, keeps (effects w).1), inr (w, ground arith))
  ]

  committed :
      (before : World) (r : Outcome (Unit {0})) (w : World)
      → IsAlone expected next before (r, w)
      → IsAtomic expected next effects
          (ok tt, before)
          (after_failure on_failure effects (elim r [ ok u ↦ effects w | err e ↦ (err e, w) ]))
  committed before (ok u) w (inl (found, made, fine)) = then_effects before w found made
  committed before (err e) w (inl (found, made, fine)) = absurd (ground arith)
  committed before (ok u) w (inr (other, kept, ne)) = absurd (ne refl)
  committed before (err e) w (inr (other, kept, ne)) =
      failed_step (ok tt, before) e w (inr other) kept

  activity_only-IsAtomic :
      (w : World)
      → IsAtomic expected next effects
          (activity w)
          (commit_activity_only (some expected) next activity effects on_failure w)
  unfolding commit_activity_only ◌>>=◌
  activity_only-IsAtomic w = after_activity (activity w).0 (activity w).1
    where
      after_activity :
          (r : Outcome (Unit {0})) (w' : World)
          → let first : Op (Unit {0}) = commit_live_session_only (some expected) next in
            let written : Outcome (Unit {0}) × World = elim r [
              | ok u ↦ elim (first w').0 [
                | ok v ↦ effects (first w').1
                | err e ↦ (err e, (first w').1)
              ]
              | err e ↦ (err e, w')
            ] in
            IsAtomic expected next effects (r, w') (after_failure on_failure effects written)
      after_activity (ok u) w' =
          committed w' (commit_live_session_only (some expected) next w').0
            (commit_live_session_only (some expected) next w').1
            (commit_live_session_only-IsAlone expected next w')
      after_activity (err e) w' = failed_step (err e, w') e w' (inl (ground arith)) refl

live_way-IsAtomic :
    (expected next : ReviewSession) (activity effects : Op (Unit {0})) (fx : LiveSideEffects)
    (w : World)
    → IsAtomic expected next effects
        (activity w)
        ((do activity; commit_with_live_session (some expected) next fx) w)
unfolding ◌>>=◌
live_way-IsAtomic expected next activity effects fx w = after_activity (activity w).0 (activity w).1
  where
    after_activity :
        (r : Outcome (Unit {0})) (w' : World)
        → let written : Outcome (Unit {0}) × World = elim r [
          | ok u ↦ commit_with_live_session (some expected) next fx w'
          | err e ↦ (err e, w')
        ] in
          IsAtomic expected next effects (r, w') written
    after_activity (ok u) w' = live-IsAtomic expected next effects fx w'
    after_activity (err e) w' = inr (inl (ground arith), refl, ground arith)

-- On both of its ways, a commit that expects a session replaces exactly that session, in the
-- state that the awaited activity write leaves, and throws after that only what the side effects
-- throw. Where the write fails, or another request has changed or removed the session meanwhile,
-- it changes no session and throws. The side effects are taken to leave the sessions alone.
pub commit_process-IsAtomic :
    (env : Env) (write : ActivityWrite) (expected next : ReviewSession) (fx : LiveSideEffects)
    (effects : Op (Unit {0})) (on_failure : Bool) (w : World)
    → ((v : World) → (effects v).1.sessions ≡ v.sessions)
    → IsAtomic expected next effects
        (env.activity_write write w)
        (commit_process env write (some expected) next fx effects on_failure w)
unfolding commit_process
commit_process-IsAtomic env write expected next fx effects on_failure w keeps =
    elim (Bool-cases env.live_mutations) [
      | inl live ↦ rw live (live_way-IsAtomic expected next (env.activity_write write) effects fx w)
      | inr not_live ↦ rw not_live (
          activity_only-IsAtomic expected next (env.activity_write write) effects on_failure keeps
            w)
    ]

-- Where it answers, the session is there.
pub commit_process-lookup :
    (env : Env) (write : ActivityWrite) (expected next : ReviewSession) (fx : LiveSideEffects)
    (effects : Op (Unit {0})) (on_failure : Bool) (w : World)
    → ((v : World) → (effects v).1.sessions ≡ v.sessions)
    → (commit_process env write (some expected) next fx effects on_failure w).0 ≡ ok tt
    → lookup next.id
        (commit_process env write (some expected) next fx effects on_failure w).1.sessions
      ≡ some next
commit_process-lookup env write expected next fx effects on_failure w keeps e =
    elim (commit_process-IsAtomic env write expected next fx effects on_failure w keeps) [
      | inl (fine, found, made, outcome) ↦
          ap (lookup next.id) made
          ∙ lookup-insert next.id next.id next (env.activity_write write w).1.sessions
          ∙ ground (arith, eq_iff next.id next.id)
      | inr (why, kept, ne) ↦ absurd (ne e)
    ]
