-- ===== src/Session/Sound/Commit.antt =====
-- Commits (src/core/session/sessionStore.ts) and the invariant, with other requests running
-- during the awaited write.
use say_ur_intent.Prelude.{
  String, Bool, true, false, Option, some, none, Map, insert, ◌≡◌, refl, arith, inl, inr,
  Option-cases, Bool-cases,
}
use say_ur_intent.Session.Types.{ReviewSession}
use say_ur_intent.Session.Errors.{Outcome, ok, err}
use say_ur_intent.Session.World.{World, Env, Op, ActivityWrite, ◌>>◌}
use say_ur_intent.Session.Records.{create_record, commit_record}
use say_ur_intent.Session.Store.Commit.{
  LiveSideEffects, delete_materials, apply_live_side_effects, write_session,
  commit_with_live_session, commit_live_session_only, after_failure, commit_process,
  activity_only_effects,
}
use say_ur_intent.Session.Sound.Predicate.{IsSound, AllSound, AllSound-insert}
use say_ur_intent.Session.Sound.Rules.{Holds, Ensures, Any, Ensures-bind, Ensures-aside}

-- The awaited writes, with what other requests do meanwhile, keep the sessions sound.
abbrev pub Respects : Env → Type 0
Respects env = (write : ActivityWrite) → Ensures (env.activity_write write) Any

Any-outcome : (r : Outcome (Unit {0})) → Holds Any r
Any-outcome (ok a) = tt
Any-outcome (err e) = tt

pub delete_materials-sessions :
    (env : Env) (id : String) (w : World) → (delete_materials env id w).sessions ≡ w.sessions
unfolding delete_materials
delete_materials-sessions env id w = refl

pub activity_only_effects-Ensures :
    (env : Env) (id : String) (fx : LiveSideEffects) → Ensures (activity_only_effects env id fx) Any
unfolding activity_only_effects
activity_only_effects-Ensures env id fx = Ensures-aside _ (λ w. ground arith) (λ w. tt)

live_side_effects-sessions :
    (id : String) (fx : LiveSideEffects) (w : World)
    → (apply_live_side_effects id fx w).sessions ≡ w.sessions
unfolding apply_live_side_effects
live_side_effects-sessions id fx w = ground arith

write_session_sound :
    (expected : Option ReviewSession) (next : ReviewSession) (m m' : Map ReviewSession)
    → IsSound next.id next
    → AllSound m
    → write_session expected next m ≡ some m'
    → AllSound m'
unfolding write_session create_record commit_record
write_session_sound none next m m' h all e =
    let p : m' ≡ insert next.id next m = ground arith in rw p (AllSound-insert next.id next m h all)
write_session_sound (some expected) next m m' h all e =
    let p : m' ≡ insert next.id next m = ground arith in rw p (AllSound-insert next.id next m h all)

module _ (expected : Option ReviewSession) (next : ReviewSession) (h : IsSound next.id next) where
  live-Ensures : (fx : LiveSideEffects) → Ensures (commit_with_live_session expected next fx) Any
  unfolding commit_with_live_session
  live-Ensures fx = record {
    apply = λ w s. elim (Option-cases (write_session expected next w.sessions)) [
      | inl e ↦ rw (e, commit_with_live_session) (s, tt)
      | inr (m, e) ↦
          rw (e, commit_with_live_session)
            (
              rw (live_side_effects-sessions next.id fx (record w { sessions = m }))
                  (write_session_sound expected next w.sessions m h s e),
              tt,
            )
    ];
  }

  only-Ensures : Ensures (commit_live_session_only expected next) Any
  unfolding commit_live_session_only
  only-Ensures = record {
    apply = λ w s. elim (Option-cases (write_session expected next w.sessions)) [
      | inl e ↦ rw (e, commit_live_session_only) (s, tt)
      | inr (m, e) ↦
          rw (e, commit_live_session_only)
            (write_session_sound expected next w.sessions m h s e, tt)
    ];
  }

after_failure_sound :
    (on_failure : Bool) (effects : Op (Unit {0})) (r : Outcome (Unit {0})) (w : World)
    → Ensures effects Any
    → AllSound w.sessions
    → AllSound (after_failure on_failure effects (r, w)).1.sessions
unfolding after_failure
after_failure_sound on_failure effects (ok u) w h s = s
after_failure_sound true effects (err e) w h s = (h.apply w s).0
after_failure_sound false effects (err e) w h s = s

pub commit_process-Ensures :
    (env : Env) (write : ActivityWrite) (expected : Option ReviewSession) (next : ReviewSession)
    (fx : LiveSideEffects) (effects : Op (Unit {0})) (on_failure : Bool)
    → Respects env
    → IsSound next.id next
    → Ensures effects Any
    → Ensures (commit_process env write expected next fx effects on_failure) Any
unfolding commit_process
commit_process-Ensures env write expected next fx effects on_failure respects h he = record {
  apply = λ w s. elim (Bool-cases env.live_mutations) [
    | inl e ↦ rw (e, commit_process) (live.apply w s)
    | inr e ↦
        rw (e, commit_process)
          (after_failure_sound on_failure effects _ _ he (only.apply w s).0, Any-outcome _)
  ];
}
  where
    live : Ensures (do env.activity_write write; commit_with_live_session expected next fx) Any
    live = Ensures-bind (respects write) (λ u q. live-Ensures expected next h fx)

    only :
        Ensures (do env.activity_write write; commit_live_session_only expected next; effects) Any
    only =
        Ensures-bind (respects write)
          (λ u q. Ensures-bind (only-Ensures expected next h) (λ v r. he))
