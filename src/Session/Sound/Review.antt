-- ===== src/Session/Sound/Review.antt =====
-- The invariant of the stored review sessions and the operations of Session/Store/Review.
use say_ur_intent.Prelude.{
  ℕ, String, Bool, true, false, Option, some, none, ◌≡◌, refl, arith, List, [], ◌∷◌, ◌==◌, eq_iff,
  not, if◌then◌else◌,
}
use say_ur_intent.Session.Types.{
  ReviewSession, ReviewState, ActionPlan, same_status, review_status, ReviewStatus,
}
use say_ur_intent.Session.Errors.{ErrorCode, Outcome, ok, err, fail}
use say_ur_intent.Session.Artifacts.{PrivateReviewArtifacts}
use say_ur_intent.Session.Status.{transition_status, transition}
use say_ur_intent.Session.World.{World, Env, create_local_session_base}
use say_ur_intent.Session.Store.Private.{assert_private_artifacts, replace_private_artifacts}
use say_ur_intent.Session.Store.Reading.{touch}
use say_ur_intent.Session.Store.Review.{
  new_review_session, create_review_session, opened_session, open_page, record_review_page_opened,
  connected_session, bind_account, record_wallet_connected, get_active_account,
  assert_bound_account, drop_after_error, write_review_state, record_review_state, is_other_account,
}
use say_ur_intent.Session.Sound.Predicate.{IsSound, state_fits, result_fits}
use say_ur_intent.Session.Sound.Rules.{
  Holds, Ensures, Any, anything, Ensures-quiet, Ensures-bind, Ensures-lift, Ensures-return,
  Ensures-aside, Ensures-branch, Ensures-with_session, Ensures-catching,
}
use say_ur_intent.Session.Sound.Commit.{Respects, commit_process-Ensures, delete_materials-sessions}
use say_ur_intent.Session.Sound.Reading.{
  takes_result, Moved, transition_lem, Moved-IsSound, IsSound-named, record_transition-Ensures,
  log-Ensures, expire-Ensures, require_mutable-Ensures, parse_private-sessions,
}

new-IsSound :
    (env : Env) (id token : String) (plan : ActionPlan) (now : ℕ)
    → IsSound id (new_review_session env id token plan now)
unfolding new_review_session create_local_session_base
new-IsSound env id token plan now = record {
  named = refl;
  planned = refl;
  result = refl;
  state = refl;
  reviewed = refl;
}

-- Bookkeeping fields do not enter the invariant.
pub touched-IsSound : (id at : String) (s : ReviewSession) → IsSound id s → IsSound id (touch s at)
touched-IsSound id at s h = record {
  named = h.named;
  planned = h.planned;
  result = h.result;
  state = h.state;
  reviewed = h.reviewed;
}

opened-IsSound :
    (id : String) (s : ReviewSession) → IsSound id s → Holds (IsSound id) (opened_session s)
unfolding same_status transition transition_status
opened-IsSound id s h = ground arith

connected-fits :
    (id : String) (s : ReviewSession)
    → IsSound id s
    → Holds
        (λ t.
          (t ≡ record s { status = t.status }) × (result_fits t.status s.execution_result ≡ true))
        (connected_session s)
unfolding connected_session transition
connected-fits id s h = ground arith

-- A bound account that is not another one is the same one, or there is no review state yet.
state_fits-bind :
    (bound : Option String) (account : String) (state : Option ReviewState)
    → is_other_account bound account ≡ false
    → state_fits bound state ≡ true
    → state_fits (some account) state ≡ true
state_fits-bind bound account none n f = refl
state_fits-bind none account (some st) n f = ground arith
state_fits-bind (some b) account (some st) n f =
    ground (arith, eq_iff b account, eq_iff b st.account)

bound-IsSound :
    (id account at : String) (s t : ReviewSession)
    → is_other_account s.account account ≡ false
    → IsSound id s
    → t ≡ record s { status = t.status }
    → result_fits t.status s.execution_result ≡ true
    → IsSound id (touch (record t { account = some account }) at)
bound-IsSound id account at s t n h e f =
    ground (arith, h, state_fits-bind s.account account s.review_state n h.state)

bind_account-IsSound :
    (active : Option String) (id account at : String) (s : ReviewSession)
    → IsSound id s
    → Holds (IsSound id) (bind_account active s account at)
unfolding bind_account
bind_account-IsSound none id account at s h = tt
bind_account-IsSound (some a) id account at s h =
    go (a == account) (is_other_account s.account account) refl (connected_session s)
      (connected-fits id s h)
  where
    go :
        (same other : Bool)
        → is_other_account s.account account ≡ other
        → (r : Outcome ReviewSession)
        → Holds
            (λ t.
              (t ≡ record s { status = t.status })
              × (result_fits t.status s.execution_result ≡ true))
            r
        → Holds (IsSound id) (
            if not same
            then fail ErrorCode.invalid_session_transition
            else if other
            then fail ErrorCode.invalid_session_transition
            else elim r [
              | err e ↦ err e
              | ok moved ↦ ok (touch (record moved { account = some account }) at)
            ])
    go false other e r q = tt
    go true true e r q = tt
    go true false e (err x) q = tt
    go true false e (ok t) q = bound-IsSound id account at s t e h q.0 q.1

module _ (env : Env) (respects : Respects env) (id : String) (now : ℕ) where
  pub create-Ensures :
      (token : String) (plans : List ActionPlan)
      → Ensures (create_review_session env id token plans now) (λ p. IsSound id p.0)
  unfolding create_review_session
  create-Ensures token [] = Ensures-lift _ tt
  create-Ensures token (p ∷ []) =
      let sound = new-IsSound env id token p now in
      Ensures-bind
        (commit_process-Ensures env _ none _ _ _ false respects (IsSound-named id _ sound)
          (Ensures-return tt tt))
        λ u q. Ensures-bind (log-Ensures env _) λ v r. Ensures-return _ sound
  create-Ensures token (p ∷ q ∷ ps) = Ensures-lift _ tt

  open_page-Ensures :
      (s : ReviewSession) → IsSound id s → Ensures (open_page env id s now) (IsSound id)
  unfolding open_page
  open_page-Ensures s h = Ensures-bind (Ensures-lift _ (opened-IsSound id s h)) λ t q.
      let sound = touched-IsSound id (env.host.to_iso now) t q in
      Ensures-bind (record_transition-Ensures env _ s _ _ false respects (IsSound-named id _ sound))
        λ u r. Ensures-bind (log-Ensures env _) λ v r'. Ensures-return _ sound

  pub page_opened-Ensures : Ensures (record_review_page_opened env id now) (IsSound id)
  unfolding record_review_page_opened
  page_opened-Ensures = Ensures-with_session (IsSound id) id _ _ tt λ s h.
      Ensures-branch _ (λ e. expire-Ensures env respects id now s h)
        λ e. Ensures-branch _ (λ e'. Ensures-return s h) (λ e'. open_page-Ensures s h)

  pub wallet_connected-Ensures :
      (account : String) → Ensures (record_wallet_connected env id account now) (IsSound id)
  unfolding record_wallet_connected get_active_account
  wallet_connected-Ensures account =
      Ensures-bind (require_mutable-Ensures env respects id now) λ s h.
        Ensures-bind (Ensures-lift {Q = Any} _ (anything _)) λ normalized q.
          Ensures-bind (Ensures-aside {Q = Any} get_active_account (λ w. refl) (λ w. tt))
            λ active r.
              Ensures-bind (Ensures-lift _ (bind_account-IsSound active id normalized _ s h))
                λ t sound.
                  Ensures-bind
                    (record_transition-Ensures env _ s t _ false respects
                      (IsSound-named id t sound))
                    λ u r'. Ensures-bind (log-Ensures env _) λ v r''. Ensures-return t sound

assert_bound-fits :
    (s : ReviewSession) (state : ReviewState)
    → Holds (λ u. state_fits s.account (some state) ≡ true) (assert_bound_account s state.account)
unfolding assert_bound_account
assert_bound-fits s state = ground arith

review_status-takes_result : (r : ReviewStatus) → takes_result (review_status r) ≡ false
review_status-takes_result ReviewStatus.ready_for_wallet_review = refl
review_status-takes_result ReviewStatus.refresh_required = refl
review_status-takes_result ReviewStatus.blocked = refl

reviewed-IsSound :
    (id at : String) (s t : ReviewSession) (state : ReviewState)
    → IsSound id s
    → state_fits s.account (some state) ≡ true
    → Moved s (review_status state.status) t
    → IsSound id (touch (record t { review_state = some state }) at)
reviewed-IsSound id at s t state h f m =
    let sound = Moved-IsSound id s t _ (review_status-takes_result state.status) h m in
    record {
      named = sound.named;
      planned = sound.planned;
      result = sound.result;
      state = ground (arith, m);
      reviewed = refl;
    }

assert_artifacts-Ensures :
    (env : Env) (id : String) (state : ReviewState) (a : Option PrivateReviewArtifacts) (now : ℕ)
    → Ensures (assert_private_artifacts env id state a now) Any
unfolding assert_private_artifacts
assert_artifacts-Ensures env id state none now = Ensures-quiet _ (λ w. ground arith)
assert_artifacts-Ensures env id state (some a) now =
    Ensures-quiet _ (λ w. ground (arith, parse_private-sessions env id state a now w))

replace_artifacts-Ensures :
    (env : Env) (id : String) (a : Option PrivateReviewArtifacts)
    → Ensures (replace_private_artifacts env id a) Any
unfolding replace_private_artifacts
replace_artifacts-Ensures env id none = Ensures-aside _ (λ w. refl) (λ w. tt)
replace_artifacts-Ensures env id (some a) = Ensures-quiet _ (λ w. ground arith)

module _ (env : Env) (respects : Respects env) (id : String) (now : ℕ) where
  write_state-Ensures :
      (s next : ReviewSession) (state : ReviewState) (a : Option PrivateReviewArtifacts)
      → IsSound id next
      → Ensures (write_review_state env id s next state a now) (IsSound id)
  unfolding write_review_state
  write_state-Ensures s next state a h =
      Ensures-bind (Ensures-lift {Q = Any} _ (anything _)) λ fx q.
        Ensures-bind
          (commit_process-Ensures env _ (some s) next _ _ false respects (IsSound-named id next h)
            (replace_artifacts-Ensures env id a))
          λ u r. Ensures-bind (log-Ensures env _) λ v r'. Ensures-return next h

  drop_after_error-sessions :
      (a : Option PrivateReviewArtifacts) (r : Outcome ReviewSession) (w : World)
      → (drop_after_error env id a (r, w)).1.sessions ≡ w.sessions
  unfolding drop_after_error
  drop_after_error-sessions a (ok s) w = refl
  drop_after_error-sessions a (err e) w = ground (arith, delete_materials-sessions env id w)

  drop_after_error-answer :
      (a : Option PrivateReviewArtifacts) (r : Outcome ReviewSession) (w : World)
      → Holds (IsSound id) r
      → Holds (IsSound id) (drop_after_error env id a (r, w)).0
  unfolding drop_after_error
  drop_after_error-answer a (ok s) w q = q
  drop_after_error-answer a (err e) w q = tt

  pub review_state-Ensures :
      (state : ReviewState) (a : Option PrivateReviewArtifacts)
      → Ensures (record_review_state env id state a now) (IsSound id)
  unfolding record_review_state
  review_state-Ensures state a = Ensures-bind (require_mutable-Ensures env respects id now) λ s h.
      Ensures-bind (Ensures-lift {Q = Any} _ (anything _)) λ u q.
        Ensures-bind (Ensures-lift {Q = Any} _ (anything _)) λ u' q'.
          Ensures-bind (Ensures-lift {Q = Any} _ (anything _)) λ parsed q''.
            Ensures-bind (Ensures-lift _ (assert_bound-fits s parsed)) λ v fits.
              Ensures-bind (assert_artifacts-Ensures env id parsed a now) λ v' r.
                Ensures-bind (Ensures-lift _ (transition_lem s (review_status parsed.status)))
                  λ t m.
                    Ensures-catching _ _ (drop_after_error-sessions a) (drop_after_error-answer a)
                      (write_state-Ensures s _ parsed a (reviewed-IsSound id _ s t parsed h fits m))
