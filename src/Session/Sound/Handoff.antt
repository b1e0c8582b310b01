-- ===== src/Session/Sound/Handoff.antt =====
-- The invariant of the stored review sessions and the operations of Session/Store/Pending and Session/Store/Handoff.
use say_ur_intent.Prelude.{
  ℕ, String, false, Option, some, none, Map, lookup, ◌≡◌, refl, arith, [], Option-cases, inl, inr,
}
use say_ur_intent.Session.Types.{ReviewSession, ReviewState}
use say_ur_intent.Session.Errors.{Outcome}
use say_ur_intent.Session.Artifacts.{PrivateReviewArtifacts}
use say_ur_intent.Session.Material.Data.{MaterialHandle, DigestCommitment}
use say_ur_intent.Session.Records.{acquire_handoff_lock, release_handoff_lock}
use say_ur_intent.Session.World.{World, Env, modify, append_event_log}
use say_ur_intent.Session.Store.Pending.{
  read_private, private_of, get_private_artifacts, read_material, available_of,
  pending_handoff_material_available, clear_pending_handoff, stored_session, cancel_wallet_handoff,
  release_for_recompute, record_review_state_with_artifacts,
}
use say_ur_intent.Session.Store.Handoff.{
  WalletHandoffMaterial, verify_for_handoff, lock_handoff, release_bytes, hand_over, release_held,
  gate_wallet_handoff, log_refusal, prepare_wallet_handoff, invalidate_all_local_sessions,
}
use say_ur_intent.Session.Sound.Predicate.{IsSound, AllSound, AllSound-insert, AllSound-nil}
use say_ur_intent.Session.Sound.Rules.{
  Holds, Ensures, Any, anything, Ensures-quiet, Ensures-bind, Ensures-lift, Ensures-return,
  Ensures-branch, Ensures-aside, Ensures-with_session, Ensures-catching,
}
use say_ur_intent.Session.Sound.Commit.{Respects, delete_materials-sessions}
use say_ur_intent.Session.Sound.Reading.{
  get_review_session-Ensures, require_mutable-Ensures, get_artifacts-Ensures,
  parse_private-sessions, log-Ensures,
}
use say_ur_intent.Session.Sound.Review.{review_state-Ensures}
use say_ur_intent.Session.Sound.Execution.{deleting-Ensures}

locked-IsSound :
    (id : String) (lock : Option String) (s : ReviewSession)
    → IsSound id s
    → IsSound id (record s { pending_handoff_digest = lock })
locked-IsSound id lock s h = record {
  named = h.named;
  planned = h.planned;
  result = h.result;
  state = h.state;
  reviewed = h.reviewed;
}

acquire_sound :
    (id digest : String) (m : Map ReviewSession)
    → AllSound m
    → AllSound (acquire_handoff_lock id digest m).1
unfolding acquire_handoff_lock
acquire_sound id digest m all = elim (Option-cases (lookup id m)) [
  | inl e ↦ rw (e, acquire_handoff_lock) all
  | inr (s, e) ↦
      let next = AllSound-insert id _ m (locked-IsSound id (some digest) s (all id s e)) all in
      ground (arith, next)
]

release_sound :
    (id : String) (expected : Option String) (m : Map ReviewSession)
    → AllSound m
    → AllSound (release_handoff_lock id expected m).1
unfolding release_handoff_lock
release_sound id expected m all = elim (Option-cases (lookup id m)) [
  | inl e ↦ rw (e, release_handoff_lock) all
  | inr (s, e) ↦
      let next = AllSound-insert id _ m (locked-IsSound id none s (all id s e)) all in
      ground (arith, next)
]

clear_sound :
    (env : Env) (id reason : String) (now : ℕ) (w : World)
    → AllSound w.sessions
    → AllSound (clear_pending_handoff env id reason now w).sessions
unfolding clear_pending_handoff append_event_log
clear_sound env id reason now w all = elim (Option-cases (lookup id w.sessions)) [
  | inl e ↦ rw (e, clear_pending_handoff) all
  | inr (s, e) ↦
      let next = release_sound id s.pending_handoff_digest w.sessions all in ground (arith, next)
]

clear-Ensures :
    (env : Env) (id reason : String) (now : ℕ)
    → Ensures (modify (clear_pending_handoff env id reason now)) Any
unfolding modify
clear-Ensures env id reason now = record {
  apply = λ w all. (clear_sound env id reason now w all, tt);
}

stored-Ensures : (id : String) → Ensures (stored_session id) Any
unfolding stored_session
stored-Ensures id = Ensures-aside _ (λ w. refl) (λ w. tt)

read_material-Ensures :
    (env : Env) (h : MaterialHandle) (now : ℕ) → Ensures (read_material env h now) Any
unfolding read_material
read_material-Ensures env h now = Ensures-quiet _ (λ w. refl)

verify-Ensures :
    (env : Env) (h : MaterialHandle) (d : DigestCommitment) (now : ℕ)
    → Ensures (verify_for_handoff env h d now) Any
unfolding verify_for_handoff
verify-Ensures env h d now = Ensures-quiet _ (λ w. refl)

lock-Ensures : (id digest : String) → Ensures (lock_handoff id digest) Any
unfolding lock_handoff
lock-Ensures id digest = record {
  apply = λ w all. (acquire_sound id digest w.sessions all, anything (lock_handoff id digest w).0);
}

log_refusal-sessions :
    (env : Env) (id plan_id : String) (now : ℕ) (r : Outcome WalletHandoffMaterial) (w : World)
    → (log_refusal env id plan_id now (r, w)).1.sessions ≡ w.sessions
unfolding log_refusal append_event_log
log_refusal-sessions env id plan_id now r w = ground arith

log_refusal-answer :
    (env : Env) (id plan_id : String) (now : ℕ) (r : Outcome WalletHandoffMaterial) (w : World)
    → Holds Any r
    → Holds Any (log_refusal env id plan_id now (r, w)).0
log_refusal-answer env id plan_id now r w q = anything _

module _ (env : Env) (respects : Respects env) (id : String) (now : ℕ) where
  read_private-Ensures :
      (state : Option ReviewState) (a : Option PrivateReviewArtifacts)
      → Ensures (read_private env id state a now) Any
  unfolding read_private
  read_private-Ensures state none = Ensures-quiet _ (λ w. ground arith)
  read_private-Ensures none (some a) = Ensures-quiet _ (λ w. delete_materials-sessions env id w)
  read_private-Ensures (some st) (some a) =
      Ensures-quiet _ (λ w. ground (arith, parse_private-sessions env id st a now w))

  private_of-Ensures : (found : Option ReviewSession) → Ensures (private_of env id now found) Any
  unfolding private_of
  private_of-Ensures none = Ensures-return none tt
  private_of-Ensures (some s) =
      Ensures-branch _
        (λ e. Ensures-bind (deleting-Ensures env respects id) λ u q. Ensures-return none tt)
        λ e.
          Ensures-bind (get_artifacts-Ensures env id)
            λ found q. read_private-Ensures s.review_state found

  pub private_artifacts-Ensures : Ensures (get_private_artifacts env id now) Any
  unfolding get_private_artifacts
  private_artifacts-Ensures =
      Ensures-bind (get_review_session-Ensures env respects id now)
        λ found q. private_of-Ensures found

  available_of-Ensures : (h : Option MaterialHandle) → Ensures (available_of env now h) Any
  unfolding available_of
  available_of-Ensures none = Ensures-return false tt
  available_of-Ensures (some h) =
      Ensures-bind (read_material-Ensures env h now) λ found q. Ensures-return _ tt

  available-Ensures : Ensures (pending_handoff_material_available env id now) Any
  unfolding pending_handoff_material_available
  available-Ensures =
      Ensures-branch _ (λ e. Ensures-bind private_artifacts-Ensures λ a q. available_of-Ensures _)
        (λ e. Ensures-return false tt)

  pub cancel-Ensures : Ensures (cancel_wallet_handoff env id now) Any
  unfolding cancel_wallet_handoff
  cancel-Ensures =
      Ensures-with_session Any id _ _ tt
        λ s h. Ensures-bind (clear-Ensures env id _ now) λ u q. stored-Ensures id

  pub state_with_artifacts-Ensures :
      (state : ReviewState) (a : Option PrivateReviewArtifacts)
      → Ensures (record_review_state_with_artifacts env id state a now) (IsSound id)
  unfolding record_review_state_with_artifacts release_for_recompute
  state_with_artifacts-Ensures state a = Ensures-bind (stored-Ensures id) λ pending q.
      Ensures-bind
        (Ensures-branch {Q = Any} _
          (λ e. Ensures-bind available-Ensures λ available r.
            Ensures-branch _ (λ e'. Ensures-lift _ tt) (λ e'. clear-Ensures env id _ now))
          (λ e. Ensures-return tt tt))
        λ u r. review_state-Ensures env respects id now state a

  release_bytes-Ensures :
      (plan_id commitment account : String) (h : MaterialHandle) (d : DigestCommitment)
      → Ensures (release_bytes env id plan_id commitment account h d now) Any
  unfolding release_bytes hand_over
  release_bytes-Ensures plan_id commitment account h d =
      Ensures-bind (verify-Ensures env h d now) λ u q.
        Ensures-bind (Ensures-lift {Q = Any} _ (anything _)) λ u' q'.
          Ensures-bind (read_material-Ensures env h now) λ found r.
            Ensures-bind (Ensures-lift {Q = Any} _ (anything _)) λ material r'.
              Ensures-bind (lock-Ensures id commitment)
                λ v s. Ensures-bind (log-Ensures env _) λ v' s'. Ensures-return _ tt

  release_held-Ensures :
      (plan_id commitment account : String) (h : Option MaterialHandle)
      (d : Option DigestCommitment)
      → Ensures (release_held env id plan_id commitment account now h d) Any
  unfolding release_held
  release_held-Ensures plan_id commitment account none d = Ensures-lift _ tt
  release_held-Ensures plan_id commitment account (some h) none = Ensures-lift _ tt
  release_held-Ensures plan_id commitment account (some h) (some d) =
      Ensures-branch _ (λ e. release_bytes-Ensures plan_id commitment account h d)
        (λ e. Ensures-lift _ tt)

  pub prepare-Ensures :
      (plan_id account : String) → Ensures (prepare_wallet_handoff env id plan_id account now) Any
  unfolding prepare_wallet_handoff gate_wallet_handoff
  prepare-Ensures plan_id account =
      Ensures-bind (require_mutable-Ensures env respects id now) λ s h.
        Ensures-bind (Ensures-lift {Q = Any} _ (anything _)) λ u q.
          Ensures-catching _ _ (log_refusal-sessions env id plan_id now)
            (log_refusal-answer env id plan_id now)
            (Ensures-bind (Ensures-lift {Q = Any} _ (anything _)) λ checked q'.
              Ensures-bind private_artifacts-Ensures λ a r. release_held-Ensures plan_id _ _ _ _)

pub invalidate_sound :
    (env : Env) (reason : String) (now : ℕ) (w : World)
    → AllSound (invalidate_all_local_sessions env reason now w).sessions
unfolding invalidate_all_local_sessions append_event_log
invalidate_sound env reason now w = let next : AllSound [] = AllSound-nil in ground (arith, next)
