-- ===== src/Session/Examples/Parts.antt =====
-- Requests, commits and records at the data of `Fixtures`.
use say_ur_intent.Prelude.{
  ℕ, String, true, false, some, none, List, [], ◌∷◌, lookup, insert, ◌≡◌, ◌≢◌, refl, arith, eq_iff,
  Map, if◌then◌else◌, ◌==◌,
}
use say_ur_intent.Session.Types.{ReviewSession, SessionStatus}
use say_ur_intent.Session.Errors.{ok}
use say_ur_intent.Session.Records.{acquire_handoff_lock, release_handoff_lock, commit_record}
use say_ur_intent.Session.Records.Lock.{acquire-excludes}
use say_ur_intent.Session.Records.Update.{commit_record-fresh, commit_record-no_lost_update}
use say_ur_intent.Session.World.{ActivityWrite, TransitionEvent}
use say_ur_intent.Session.Store.Commit.{commit_process, no_side_effects}
use say_ur_intent.Session.Store.Commit.Atomic.{IsAtomic, commit_process-IsAtomic}
use say_ur_intent.Session.Sound.Predicate.{AllSound}
use say_ur_intent.Session.Sound.Commit.{Respects}
use say_ur_intent.Session.Sound.Requests.{Request, run, empty_world, run-AllSound}
use say_ur_intent.Session.Fixtures.{
  stamp, some_env, some_plan, ready_session, pending_session, world_of,
}

abbrev requests : List (ℕ × Request)
requests =
    (0, Request.create "session" "token" (some_plan ∷ []))
    ∷ (1, Request.open_page "session")
    ∷ (2, Request.connect "session" "0xa")
    ∷ []

some_env-Respects : Respects some_env
some_env-Respects write = record { apply = λ w s. (s, tt) }

run-AllSound_example : AllSound (run some_env requests empty_world).sessions
run-AllSound_example = run-AllSound some_env requests some_env-Respects

abbrev opened_write : ActivityWrite
opened_write =
    ActivityWrite.review_transition "session" TransitionEvent.opened
      SessionStatus.ready_for_wallet_review SessionStatus.ready_for_wallet_review none none
      (stamp 4)

commit_process-IsAtomic_example :
    IsAtomic ready_session pending_session
      (λ w. (ok tt, w))
      (ok tt, world_of ready_session)
      (commit_process some_env opened_write
        (some ready_session)
        pending_session
        no_side_effects
        (λ w. (ok tt, w))
        false
        (world_of ready_session))
commit_process-IsAtomic_example =
    commit_process-IsAtomic some_env opened_write ready_session pending_session no_side_effects
      (λ w. (ok tt, w)) false (world_of ready_session) (λ v. refl)

abbrev sessions : Map ReviewSession
sessions = ("session", ready_session) ∷ []

pending_differs : pending_session ≢ ready_session
pending_differs e = ground arith

found_example : lookup "session" sessions ≡ some ready_session
unfolding lookup
found_example = refl

commit_record-no_lost_update_example :
    (commit_record "session" ready_session ready_session (insert "session" pending_session sessions)
      ≡ none)
    × ((k : String)
        → lookup k (insert "session" pending_session sessions)
          ≡ (if "session" == k then some pending_session else lookup k sessions))
commit_record-no_lost_update_example =
    commit_record-no_lost_update "session" ready_session pending_session ready_session sessions
      (insert "session" pending_session sessions) pending_differs
      (commit_record-fresh "session" ready_session pending_session sessions found_example)

acquired_example : (acquire_handoff_lock "session" "digest" sessions).0 ≡ true
unfolding acquire_handoff_lock lookup
acquired_example = refl

other_digest : ◌≢◌ {A = String} "digest" "other"
other_digest e = ground (arith, eq_iff "digest" "other")

acquire-excludes_example :
    let m = (acquire_handoff_lock "session" "digest" sessions).1 in
    let released = release_handoff_lock "session" (some "digest") m in
    (acquire_handoff_lock "session" "other" m ≡ (false, m))
    × ((acquire_handoff_lock "session" "digest" m).0 ≡ true)
    × (release_handoff_lock "session" (some "other") m ≡ (false, m))
    × (released.0 ≡ true)
    × ((acquire_handoff_lock "session" "other" released.1).0 ≡ true)
acquire-excludes_example =
    acquire-excludes "session" "digest" "other" sessions other_digest acquired_example
