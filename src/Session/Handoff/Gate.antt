-- ===== src/Session/Handoff/Gate.antt =====
-- A handoff that is prepared, back to the session that was read and the review it stands on.
use say_ur_intent.Prelude.{
  ℕ, String, true, false, Option, some, none, lookup, ◌≡◌, arith, eq_iff, Option-cases, inl, inr,
  ◌≢◌, same_text_iff, ap, sym, ◌∙◌, Bool-cases,
}
use say_ur_intent.Host.{parse_sui_address}
use say_ur_intent.Session.Types.{
  ReviewSession, ReviewState, ReviewStatus, SessionStatus, same_status, same_status_iff,
}
use say_ur_intent.Session.Errors.{ErrorCode, Thrown, ok, err, fail, Outcome-cases}
use say_ur_intent.Session.Material.Data.{MaterialHandle, DigestCommitment}
use say_ur_intent.Session.World.{
  World, Env, Op, ◌>>=◌, return, lift, branch, with_session, catching,
}
use say_ur_intent.Session.Store.Reading.{require_mutable_session, has_lapsed, expire_review_session}
use say_ur_intent.Session.Store.Review.{assert_plan_in_session}
use say_ur_intent.Session.Store.Execution.{reviewed_commitment}
use say_ur_intent.Session.Store.Pending.{get_private_artifacts, handle_of, digest_of}
use say_ur_intent.Session.Store.Handoff.{
  WalletHandoffMaterial, check_handoff_state, release_bytes, release_held, gate_wallet_handoff,
  log_refusal, prepare_wallet_handoff,
}
use say_ur_intent.Session.Inversion.{bind-ok, lift-ok, branch-ok, no_lift}
use say_ur_intent.Session.Handoff.Release.{Released, released}

-- The state that a handoff of the plan to the account stands on.
pub record IsReviewed (env : Env) (session : ReviewSession)
    (plan_id account commitment bound : String) : Type 0 where
  pub state : ReviewState
  pub held : session.review_state ≡ some state
  pub ready : state.status ≡ ReviewStatus.ready_for_wallet_review
  pub plan : state.plan_id ≡ plan_id
  pub same_account : parse_sui_address env.host account ≡ some bound
  pub bound_to : state.account ≡ bound
  pub commits : reviewed_commitment session.review_state ≡ some commitment

reviewed :
    (env : Env) (s : ReviewSession) (plan_id account : String) (c : String × String)
    → check_handoff_state env s plan_id account ≡ ok c
    → IsReviewed env s plan_id account c.0 c.1
unfolding check_handoff_state
reviewed env s plan_id account c e = elim (Option-cases s.review_state) [
  | inl n ↦ absurd (ground arith)
  | inr (state, p) ↦ elim (Option-cases state.wallet_review_adapter_contract) [
    | inl n ↦ absurd (
        ground (
          arith,
          eq_iff state.plan_id plan_id,
          same_text_iff (parse_sui_address env.host account) (some state.account),
        ))
    | inr (contract, q) ↦ record {
      state = state;
      held = p;
      ready = ground arith;
      plan = ground (arith, eq_iff state.plan_id plan_id);
      same_account = ground (
        arith,
        eq_iff state.plan_id plan_id,
        same_text_iff (parse_sui_address env.host account) (some state.account),
      );
      bound_to = ground arith;
      commits = ground arith;
    }
  ]
]

-- A session that may be written is the stored one, and reading it changes nothing.
pub mutable_stored :
    (env : Env) (id : String) (now : ℕ) (w : World) (s : ReviewSession)
    → (require_mutable_session env id now w).0 ≡ ok s
    → (lookup id w.sessions ≡ some s)
      × (has_lapsed env s now ≡ false)
      × (s.status ≢ SessionStatus.expired)
      × ((require_mutable_session env id now w).1 ≡ w)
unfolding require_mutable_session with_session branch ◌>>=◌ lift return
mutable_stored env id now w s e = elim (Option-cases (lookup id w.sessions)) [
  | inl n ↦ absurd (ground arith)
  | inr (t, p) ↦ elim (Bool-cases (has_lapsed env t now)) [
    | inl l ↦ absurd (lapsed t p l)
    | inr f ↦ elim (Bool-cases (same_status t.status SessionStatus.expired)) [
      | inl x ↦ absurd (ground arith)
      | inr x ↦ (
        ground arith,
        ground arith,
        ground (arith, same_status_iff t.status SessionStatus.expired),
        ground arith,
      )
    ]
  ]
]
  where
    lapsed : (t : ReviewSession) → lookup id w.sessions ≡ some t → has_lapsed env t now ≡ true → ⊥
    lapsed t p l = elim (Outcome-cases (expire_review_session env id t now w).0) [
      | inl (a, q) ↦ ground arith
      | inr (x, q) ↦ ground arith
    ]

held_released :
    (env : Env) (id plan_id commitment account : String) (now : ℕ) (a : Option MaterialHandle)
    (d : Option DigestCommitment) (w : World) (h : WalletHandoffMaterial)
    → (release_held env id plan_id commitment account now a d w).0 ≡ ok h
    → Released env id plan_id commitment account h
        (release_held env id plan_id commitment account now a d w).1
unfolding release_held
held_released env id plan_id commitment account now (some a) (some d) w h e =
    let (store, same) =
      branch-ok env.has_material_store (release_bytes env id plan_id commitment account a d now)
        (fail ErrorCode.handoff_unavailable) w h e (ground arith) in
    rw same (released env id plan_id commitment account a d now w h (ap (λ x. x.0) (sym same) ∙ e))
held_released env id plan_id commitment account now (some a) none w h e =
    absurd (no_lift ErrorCode.handoff_unavailable h w e)
held_released env id plan_id commitment account now none d w h e =
    absurd (no_lift ErrorCode.handoff_unavailable h w e)

-- A refusal stays a refusal, and what goes well is not logged.
caught :
    (env : Env) (id plan_id : String) (now : ℕ) (m : Op WalletHandoffMaterial) (w : World)
    (h : WalletHandoffMaterial)
    → (catching (log_refusal env id plan_id now) m w).0 ≡ ok h
    → ((m w).0 ≡ ok h) × (catching (log_refusal env id plan_id now) m w ≡ m w)
unfolding catching log_refusal
caught env id plan_id now m w h e = elim (Outcome-cases (m w).0) [
  | inl (a, p) ↦ (ground arith, ground arith)
  | inr (x, p) ↦ absurd (thrown x p)
]
  where
    thrown : (x : Thrown) → (m w).0 ≡ err x → ⊥
    thrown (Thrown.session_error c g) p = ground arith
    thrown Thrown.material_error p = ground arith
    thrown Thrown.other_error p = ground arith

gated :
    (env : Env) (id : String) (s : ReviewSession) (plan_id account : String) (now : ℕ) (w : World)
    (h : WalletHandoffMaterial)
    → (gate_wallet_handoff env id s plan_id account now w).0 ≡ ok h
    → (c : String × String) × IsReviewed env s plan_id account c.0 c.1
      × Released env id plan_id c.0 c.1 h (gate_wallet_handoff env id s plan_id account now w).1
unfolding gate_wallet_handoff
gated env id s plan_id account now w h e =
    let (c, e1, rest1, w1) = lift-ok (check_handoff_state env s plan_id account) _ w h e in
    let (a, e2, rest2, w2) = bind-ok (get_private_artifacts env id now) _ w h rest1 in
    (
      c,
      reviewed env s plan_id account c e1,
      rw (w1 ∙ w2) (
          held_released env id plan_id c.0 c.1 now (handle_of a) (digest_of a)
            (get_private_artifacts env id now w).1 h rest2),
    )

-- The bytes that a prepared handoff gives out belong to the reviewed transaction: the stored
-- session has not lapsed and is not expired, its review state is ready for the wallet, of this
-- plan and bound to this account, the digest of the bytes is the commitment that the state was
-- reviewed with, and the session is locked for that commitment afterwards.
pub prepare-Released :
    (env : Env) (id plan_id account : String) (now : ℕ) (w : World) (h : WalletHandoffMaterial)
    → (prepare_wallet_handoff env id plan_id account now w).0 ≡ ok h
    → (s : ReviewSession) × (lookup id w.sessions ≡ some s)
      × (has_lapsed env s now ≡ false)
      × (s.status ≢ SessionStatus.expired)
      × (c : String × String) × IsReviewed env s plan_id account c.0 c.1
      × Released env id plan_id c.0 c.1 h (prepare_wallet_handoff env id plan_id account now w).1
unfolding prepare_wallet_handoff
prepare-Released env id plan_id account now w h e =
    let (s, e1, rest1, w1) = bind-ok (require_mutable_session env id now) _ w h e in
    let (found, live, open_still, same) = mutable_stored env id now w s e1 in
    let w' = (require_mutable_session env id now w).1 in
    let (a, e2, rest2, w2) = lift-ok (assert_plan_in_session s plan_id) _ w' h rest1 in
    let (gone_well, w3) =
      caught env id plan_id now (gate_wallet_handoff env id s plan_id account now) w' h rest2 in
    let (c, review, release) = gated env id s plan_id account now w' h gone_well in
    (s, found, live, open_still, c, review, rw (w1 ∙ w2 ∙ ap (λ x. x.1) w3) release)
