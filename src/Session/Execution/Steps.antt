-- ===== src/Session/Execution/Steps.antt =====
-- `recordExecutionResultInternal`: the session that a result continues, and what it becomes.
use mathlib.Core.Path.{subst}
use say_ur_intent.Prelude.{
  ℕ, String, true, false, some, lookup, ◌≡◌, refl, sym, ap, ◌∙◌, arith, ◌⊎◌, inl, inr, Option-cases,
  same_text_iff, eq_iff, none, Option,
}
use say_ur_intent.Session.Types.{
  ReviewSession, ExecutionResult, ChainReceipt, result_digest, result_status, SessionStatus,
  same_status_iff,
}
use say_ur_intent.Receipt.Evidence.{valid_receipt}
use say_ur_intent.Session.Errors.{ErrorCode, ok, fail, Outcome-cases}
use say_ur_intent.Session.Status.{transition}
use say_ur_intent.Session.World.{
  World, Env, EventLogRecord, ActivityWrite, ◌>>=◌, ◌>>◌, lift, modify, catching, append_event_log,
}
use say_ur_intent.Session.Store.Commit.{
  LiveSideEffects, deleting, delete_materials, activity_only_effects,
}
use say_ur_intent.Session.Store.Commit.Atomic.{commit_process-lookup}
use say_ur_intent.Session.Store.Reading.{record_transition, log}
use say_ur_intent.Session.Store.Review.{assert_plan_in_session, assert_same_session_id}
use say_ur_intent.Session.Store.Execution.{
  Decision, refuse, refuse_dropping, repeat, write, is_final_result, is_pending_result,
  pending_digest, parse_execution_result, settle, decide_result, carry_out, write_result,
  drop_on_error, record_result_internal,
}
use say_ur_intent.Session.Inversion.{bind-ok, lift-ok, returned, no_lift}

-- The result may follow: the session has no final one, and keeps the digest of a pending one.
pub record MayFollow (s : ReviewSession) (r : ExecutionResult) : Type 0 where
  pub unfinished : is_final_result s.execution_result ≡ false
  pub digest_kept :
      is_pending_result s.execution_result ≡ true
      → result_digest r ≡ pending_digest s.execution_result

-- The session has taken the result, and with it its status.
abbrev pub Takes : ReviewSession → ReviewSession → ExecutionResult → Type 0
Takes s s' r = (s'.id ≡ s.id) × (s'.execution_result ≡ some r) × (s'.status ≡ result_status r)

-- The session goes on with the new result, and is stored with it under its id; or it is as it was,
-- and so are all sessions, where the same pending result comes again.
abbrev pub Continues : ReviewSession → ReviewSession → ExecutionResult → World → World → Type 0
Continues s s' r before after =
    ((s' ≡ s) × (is_pending_result (some r) ≡ true) × (after.sessions ≡ before.sessions))
    ⊎ (Takes s s' r × (lookup s'.id after.sessions ≡ some s'))

-- The same for an equal result, between equal worlds.
pub Continues-same :
    (s s' : ReviewSession) {p r : ExecutionResult} {v w x y : World}
    → p ≡ r
    → v ≡ w
    → y ≡ x
    → Continues s s' p v x
    → Continues s s' r w y
Continues-same s s' {p} {r} {v} {w} {x} {y} same before after h = rw (sym same, sym before, after) h

pub parsed_same : (env : Env) (r p : ExecutionResult) → parse_execution_result env r ≡ ok p → p ≡ r
unfolding parse_execution_result
parsed_same env (ExecutionResult.signed_pending_result b d) p e = ground arith
parsed_same env (ExecutionResult.success b d c) p e = ground arith
parsed_same env (ExecutionResult.failure b d f c) p e = ground arith

abbrev pub result_receipt : ExecutionResult → Option ChainReceipt
result_receipt (ExecutionResult.signed_pending_result b d) = none
result_receipt (ExecutionResult.success b d c) = some c
result_receipt (ExecutionResult.failure b d f c) = c

-- A receipt, where there is one, is accepted by its schema and is about the digest.
abbrev pub ReceiptFits : Env → Option String → Option ChainReceipt → Type 0
ReceiptFits env digest none = Unit {0}
ReceiptFits env digest (some c) =
    (valid_receipt env.host env.library c ≡ true) × (digest ≡ some c.tx_digest)

pub parsed_receipt :
    (env : Env) (r p : ExecutionResult)
    → parse_execution_result env r ≡ ok p
    → ReceiptFits env (result_digest r) (result_receipt r)
unfolding parse_execution_result
parsed_receipt env (ExecutionResult.signed_pending_result b d) p e = tt
parsed_receipt env (ExecutionResult.success b d c) p e =
    (ground arith, ground (arith, eq_iff d c.tx_digest))
parsed_receipt env (ExecutionResult.failure b d f none) p e = tt
parsed_receipt env (ExecutionResult.failure b none f (some c)) p e = absurd (ground arith)
parsed_receipt env (ExecutionResult.failure b (some d) f (some c)) p e =
    (ground arith, ground (arith, eq_iff d c.tx_digest))

moved_to :
    (s m : ReviewSession) (next : SessionStatus)
    → transition s next ≡ ok m
    → (m.id ≡ s.id) × (m.status ≡ next)
unfolding transition
moved_to s m next e = ground (arith, same_status_iff s.status next)

settled :
    (s : ReviewSession) (r : ExecutionResult) (at : String) (next : ReviewSession)
    (account : String)
    → settle s r at ≡ write next account
    → Takes s next r
unfolding settle
settled s r at next account e = elim (Outcome-cases (transition s (result_status r))) [
  | inr (x, p) ↦ absurd (ground arith)
  | inl (m, p) ↦ elim (Option-cases s.account) [
    | inl n ↦ absurd (ground arith)
    | inr (a, q) ↦
        let (named, status) = moved_to s m (result_status r) p in
        (ground (arith, named), ground arith, ground (arith, status))
  ]
]

-- What is written may follow, and so may a repeated result.
decided_write :
    (s : ReviewSession) (r : ExecutionResult) (at : String) (next : ReviewSession)
    (account : String)
    → decide_result s r at ≡ write next account
    → MayFollow s r × Takes s next r
unfolding decide_result
decided_write s r at next account e = (
  record {
    unfinished = ground arith;
    digest_kept =
        λ q. ground (arith, same_text_iff (pending_digest s.execution_result) (result_digest r));
  },
  settled s r at next account (ground arith),
)

settled_afresh :
    (s : ReviewSession) (r : ExecutionResult) (at : String) → settle s r at ≡ repeat → ⊥
unfolding settle
settled_afresh s r at e = elim (Outcome-cases (transition s (result_status r))) [
  | inr (x, p) ↦ ground arith
  | inl (m, p) ↦ elim (Option-cases s.account) [ inl n ↦ ground arith | inr (a, q) ↦ ground arith ]
]

decided_repeat :
    (s : ReviewSession) (r : ExecutionResult) (at : String)
    → decide_result s r at ≡ repeat
    → MayFollow s r × (is_pending_result (some r) ≡ true)
unfolding decide_result
decided_repeat s r at e =
    let afresh = settled_afresh s r at in
    (
      record {
        unfinished = ground arith;
        digest_kept = λ q.
            ground (arith, same_text_iff (pending_digest s.execution_result) (result_digest r));
      },
      ground arith,
    )

effects-sessions :
    (env : Env) (id : String) (fx : LiveSideEffects) (w : World)
    → (activity_only_effects env id fx w).1.sessions ≡ w.sessions
unfolding activity_only_effects delete_materials
effects-sessions env id fx w = ground arith

log-sessions :
    (env : Env) (event : EventLogRecord) (w : World) → (log env event w).1.sessions ≡ w.sessions
unfolding log modify append_event_log
log-sessions env event w = ground arith

transition-lookup :
    (env : Env) (activity : ActivityWrite) (s next : ReviewSession) (w : World)
    → (record_transition env activity s next deleting false w).0 ≡ ok tt
    → lookup next.id (record_transition env activity s next deleting false w).1.sessions ≡ some next
unfolding record_transition
transition-lookup env activity s next w e =
    commit_process-lookup env activity s next deleting (activity_only_effects env s.id deleting)
      false w (effects-sessions env s.id deleting) e

answered :
    (env : Env) (id : String) (s next t : ReviewSession) (r : ExecutionResult) (account at : String)
    (w : World)
    → (write_result env id s next r account at w).0 ≡ ok t
    → (t ≡ next)
      × (lookup next.id (write_result env id s next r account at w).1.sessions ≡ some next)
unfolding write_result
answered env id s next t r account at w p =
    let (a, e1, rest1, w1) = bind-ok (record_transition env _ s next _ false) _ w t p in
    let (b, e2, rest2, w2) = bind-ok (log env _) _ _ t rest1 in
    let (same, w3) = returned next t _ rest2 in
    let stored = transition-lookup env _ s next w e1 in
    let logged = log-sessions env _ (record_transition env _ s next deleting false w).1 in
    (
      same,
      ap (λ (x : World). lookup next.id x.sessions) (w1 ∙ w2 ∙ w3)
          ∙ ap (lookup next.id) logged
          ∙ stored,
    )

written :
    (env : Env) (id : String) (s next s' : ReviewSession) (r : ExecutionResult)
    (account at : String) (w : World)
    → (catching (drop_on_error env id) (write_result env id s next r account at) w).0 ≡ ok s'
    → (s' ≡ next)
      × (lookup next.id
            (catching (drop_on_error env id) (write_result env id s next r account at) w).1.sessions
          ≡ some next)
unfolding catching drop_on_error
written env id s next s' r account at w e =
    elim (Outcome-cases (write_result env id s next r account at w).0) [
      | inr (x, p) ↦ absurd (ground arith)
      | inl (t, p) ↦
          let (same, stored) = answered env id s next t r account at w p in
          (ground arith, ground (arith, stored))
    ]

refused :
    {A : Type 0} (env : Env) (id : String) (code : ErrorCode) (w : World) (a : A)
    → ((do modify (delete_materials env id); lift (fail code)) w).0 ≡ ok a
    → ⊥
unfolding ◌>>=◌ modify lift
refused env id code w a e = ground arith

dropped-sessions :
    (env : Env) (id : String) (w : World)
    → (modify (delete_materials env id) w).1.sessions ≡ w.sessions
unfolding modify delete_materials
dropped-sessions env id w = refl

carried :
    (env : Env) (id : String) (s s' : ReviewSession) (r : ExecutionResult) (at : String) (w : World)
    (d : Decision)
    → decide_result s r at ≡ d
    → (carry_out env id s r at d w).0 ≡ ok s'
    → MayFollow s r × Continues s s' r w (carry_out env id s r at d w).1
unfolding carry_out
carried env id s s' r at w (refuse code) q e = absurd (no_lift code s' w e)
carried env id s s' r at w (refuse_dropping code) q e = absurd (refused env id code w s' e)
carried env id s s' r at w repeat q e =
    let (a, e1, rest1, w1) = bind-ok (modify (delete_materials env id)) _ w s' e in
    let (same, kept) = returned s s' _ rest1 in
    let (follows, pending) = decided_repeat s r at q in
    (
      follows,
      inl (same, pending, ap (λ (x : World). x.sessions) (w1 ∙ kept) ∙ dropped-sessions env id w),
    )
carried env id s s' r at w (write next account) q e =
    let (same, stored) = written env id s next s' r account at w e in
    let (follows, (named, result, status)) = decided_write s r at next account q in
    let after = (carry_out env id s r at (write next account) w).1 in
    (
      follows,
      inr (
        (
          ap (λ (x : ReviewSession). x.id) same ∙ named,
          ap (λ (x : ReviewSession). x.execution_result) same ∙ result,
          ap (λ (x : ReviewSession). x.status) same ∙ status,
        ),
        ap (λ (x : ReviewSession). lookup x.id after.sessions) same ∙ stored ∙ ap some (sym same),
      ),
    )

pub continued :
    (env : Env) (id : String) (s s' : ReviewSession) (r : ExecutionResult) (now : ℕ) (w : World)
    → (record_result_internal env id s r now w).0 ≡ ok s'
    → MayFollow s r × Continues s s' r w (record_result_internal env id s r now w).1
unfolding record_result_internal
continued env id s s' r now w e =
    let (a, e1, rest1, w1) = lift-ok (assert_same_session_id id _) _ w s' e in
    let (b, e2, rest2, w2) = lift-ok (assert_plan_in_session s _) _ w s' rest1 in
    let (follows, on) =
      carried env id s s' r (env.host.to_iso now) w (decide_result s r (env.host.to_iso now)) refl
        rest2 in
    (follows, subst (λ (x : World). Continues s s' r w x) (sym (w1 ∙ w2)) on)
