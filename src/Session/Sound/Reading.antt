-- ===== src/Session/Sound/Reading.antt =====
-- The invariant of the stored review sessions and the operations of Session/Store/Reading.
use say_ur_intent.Prelude.{
  ℕ, String, Bool, true, false, Option, some, none, ◌≡◌, refl, arith, List, [], ◌∷◌, keys,
}
use say_ur_intent.Session.Types.{
  SessionStatus, ReviewSession, ReviewState, ExecutionResult, same_status,
}
use say_ur_intent.Session.Errors.{Outcome, ok, err}
use say_ur_intent.Session.Artifacts.{PrivateReviewArtifacts}
use say_ur_intent.Session.Status.{transition_status, transition}
use say_ur_intent.Session.World.{World, Env, ActivityWrite, EventLogRecord, append_event_log}
use say_ur_intent.Session.Store.Commit.{LiveSideEffects}
use say_ur_intent.Session.Store.Private.{get_artifacts, parse_private_artifacts}
use say_ur_intent.Session.Store.Reading.{
  log, touch, record_transition, expire_review_session, refresh_state, with_refresh_state,
  sanitize_with, sanitize_state, list_ids, mark_refresh_required, sanitize, get_review_session,
  list_review_sessions, require_mutable_session,
}
use say_ur_intent.Session.Sound.Predicate.{IsSound, AllSound, result_fits}
use say_ur_intent.Session.Sound.Rules.{
  Holds, Ensures, Any, Ensures-bind, Ensures-lift, Ensures-return, Ensures-aside, Ensures-modify,
  Ensures-branch, Ensures-with_session,
}
use say_ur_intent.Session.Sound.Commit.{
  Respects, commit_process-Ensures, activity_only_effects-Ensures,
}

abbrev pub takes_result : SessionStatus → Bool
takes_result SessionStatus.signed_pending_result = true
takes_result SessionStatus.success = true
takes_result SessionStatus.failure = true
takes_result _ = false

-- A transition to a status without a result of its own keeps the result fitting.
pub transition-fits :
    (a next : SessionStatus) (r : Option ExecutionResult) {b : SessionStatus}
    → takes_result next ≡ false
    → result_fits a r ≡ true
    → transition_status a next ≡ ok b
    → result_fits b r ≡ true
unfolding transition_status
transition-fits a next r h f e = ground arith

-- What `transition` writes.
abbrev pub Moved : ReviewSession → SessionStatus → ReviewSession → Type 0
Moved s next t = (t ≡ record s { status = next }) × (transition_status s.status next ≡ ok next)

pub transition_lem :
    (s : ReviewSession) (next : SessionStatus) → Holds (Moved s next) (transition s next)
unfolding transition same_status
transition_lem s next = ground arith

pub record_transition-Ensures :
    (env : Env) (write : ActivityWrite) (expected next : ReviewSession) (fx : LiveSideEffects)
    (on_failure : Bool)
    → Respects env
    → IsSound next.id next
    → Ensures (record_transition env write expected next fx on_failure) Any
unfolding record_transition
record_transition-Ensures env write expected next fx on_failure respects h =
    commit_process-Ensures env write (some expected) next fx _ on_failure respects h
      (activity_only_effects-Ensures env expected.id fx)

pub log-Ensures : (env : Env) (r : EventLogRecord) → Ensures (log env r) Any
unfolding log append_event_log
log-Ensures env r = Ensures-modify _ (λ w. ground arith)

-- Under its own name a session is sound under any name that it has.
pub IsSound-named : (id : String) (s : ReviewSession) → IsSound id s → IsSound s.id s
IsSound-named id s h = record {
  named = refl;
  planned = h.planned;
  result = h.result;
  state = h.state;
  reviewed = h.reviewed;
}

pub Moved-IsSound :
    (id : String) (s t : ReviewSession) (next : SessionStatus)
    → takes_result next ≡ false
    → IsSound id s
    → Moved s next t
    → IsSound id t
Moved-IsSound id s t next f h (e, allowed) = rw e (record {
  named = h.named;
  planned = h.planned;
  result = transition-fits s.status next s.execution_result f h.result allowed;
  state = h.state;
  reviewed = h.reviewed;
})

module _ (env : Env) (respects : Respects env) (id : String) (now : ℕ) where
  pub expire-Ensures :
      (s : ReviewSession) → IsSound id s → Ensures (expire_review_session env id s now) (IsSound id)
  unfolding expire_review_session
  expire-Ensures s h =
      Ensures-bind
        (Ensures-lift (transition s SessionStatus.expired) (transition_lem s SessionStatus.expired))
        λ t m.
          let sound = Moved-IsSound id s t SessionStatus.expired refl h m in
          Ensures-bind
            (record_transition-Ensures env _ s t _ true respects (IsSound-named id t sound))
            λ u q. Ensures-return t sound

  refreshed-IsSound :
      (s t : ReviewSession) (at : String)
      → IsSound id s
      → Moved s SessionStatus.refresh_required t
      → IsSound id (touch (record t { review_state = with_refresh_state id at s.review_state }) at)
  unfolding refresh_state
  refreshed-IsSound s t at h m =
      let sound = Moved-IsSound id s t SessionStatus.refresh_required refl h m in
      ground (arith, sound, h, m)

  mark-Ensures :
      (s : ReviewSession) → IsSound id s → Ensures (mark_refresh_required env id s now) (IsSound id)
  unfolding mark_refresh_required
  mark-Ensures s h =
      Ensures-bind
        (Ensures-lift (transition s SessionStatus.refresh_required)
          (transition_lem s SessionStatus.refresh_required))
        λ t m.
          let sound = refreshed-IsSound s t (env.host.to_iso now) h m in
          Ensures-bind
            (record_transition-Ensures env _ s _ _ false respects (IsSound-named id _ sound))
            λ u q. Ensures-bind (log-Ensures env _) λ v r. Ensures-return _ sound

-- Verification touches the material records only.
pub parse_private-sessions :
    (env : Env) (id : String) (state : ReviewState) (a : PrivateReviewArtifacts) (now : ℕ)
    (w : World)
    → (parse_private_artifacts env id state a now w).1.sessions ≡ w.sessions
unfolding parse_private_artifacts
parse_private-sessions env id state a now w = ground arith

pub get_artifacts-Ensures : (env : Env) (id : String) → Ensures (get_artifacts env id) Any
unfolding get_artifacts
get_artifacts-Ensures env id = Ensures-aside _ (λ w. ground arith) (λ w. ground arith)

-- The sound session under an optional answer.
abbrev pub FoundSound : String → Option ReviewSession → Type 0
FoundSound id none = Unit {0}
FoundSound id (some s) = IsSound id s

module _ (env : Env) (respects : Respects env) (id : String) (now : ℕ) where
  sanitize_with-Ensures :
      (s : ReviewSession) (state : ReviewState) (found : Option PrivateReviewArtifacts)
      → IsSound id s
      → Ensures (sanitize_with env id s state now found) (IsSound id)
  unfolding sanitize_with
  sanitize_with-Ensures s state none h = mark-Ensures env respects id now s h
  sanitize_with-Ensures s state (some a) h = record {
    apply = λ w sound.
        go (parse_private_artifacts env id state a now w).0
          (parse_private_artifacts env id state a now w).1
          (rw (parse_private-sessions env id state a now w) sound);
  }
    where
      go :
          (r : Outcome PrivateReviewArtifacts) (v : World)
          → AllSound v.sessions
          → let next : Outcome ReviewSession × World = elim r [
            | ok a ↦ (ok s, v)
            | err e ↦ mark_refresh_required env id s now v
          ] in
            AllSound next.1.sessions × Holds (IsSound id) next.0
      go (ok a) v sound = (sound, h)
      go (err e) v sound = (mark-Ensures env respects id now s h).apply v sound

  sanitize_state-Ensures :
      (s : ReviewSession) (state : Option ReviewState)
      → IsSound id s
      → Ensures (sanitize_state env id s now state) (IsSound id)
  unfolding sanitize_state
  sanitize_state-Ensures s none h = Ensures-return s h
  sanitize_state-Ensures s (some st) h =
      Ensures-bind (get_artifacts-Ensures env id) λ found q. sanitize_with-Ensures s st found h

  pub sanitize-Ensures :
      (s : ReviewSession) → IsSound id s → Ensures (sanitize env id s now) (IsSound id)
  unfolding sanitize
  sanitize-Ensures s h =
      Ensures-branch _ (λ e. Ensures-return s h)
        λ e.
          Ensures-branch _ (λ e'. Ensures-return s h)
            λ e'. sanitize_state-Ensures s s.review_state h

  pub get_review_session-Ensures : Ensures (get_review_session env id now) (FoundSound id)
  unfolding get_review_session
  get_review_session-Ensures = Ensures-with_session (FoundSound id) id (ok none) _ tt λ s h.
      Ensures-branch _
        (λ e.
          Ensures-bind (expire-Ensures env respects id now s h) λ t q. Ensures-return (some t) q)
        (λ e. Ensures-bind (sanitize-Ensures s h) λ t q. Ensures-return (some t) q)

  pub require_mutable-Ensures : Ensures (require_mutable_session env id now) (IsSound id)
  unfolding require_mutable_session
  require_mutable-Ensures = Ensures-with_session (IsSound id) id _ _ tt λ s h.
      Ensures-branch _
        (λ e. Ensures-bind (expire-Ensures env respects id now s h) λ t q. Ensures-lift _ tt)
        (λ e. Ensures-branch _ (λ e'. Ensures-lift _ tt) (λ e'. Ensures-return s h))

module _ (env : Env) (respects : Respects env) (now : ℕ) where
  list_ids-Ensures : (ids : List String) → Ensures (list_ids env ids now) Any
  unfolding list_ids
  list_ids-Ensures [] = Ensures-return [] tt
  list_ids-Ensures (id ∷ ids) =
      Ensures-bind (get_review_session-Ensures env respects id now)
        λ found q. Ensures-bind (list_ids-Ensures ids) λ others r. Ensures-return _ tt

  pub list-Ensures : Ensures (list_review_sessions env now) Any
  unfolding list_review_sessions
  list-Ensures = record { apply = λ w s. (list_ids-Ensures (keys w.sessions)).apply w s }
