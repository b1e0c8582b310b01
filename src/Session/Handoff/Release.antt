-- ===== src/Session/Handoff/Release.antt =====
-- The last steps of `gateWalletHandoff`: what the bytes that leave the store are.
use say_ur_intent.Prelude.{
  ℕ, String, Option, some, lookup, ◌≡◌, refl, arith, eq_iff, ap, sym, ◌∙◌, Option-cases, inl, inr,
}
use say_ur_intent.Session.Types.{ReviewSession}
use say_ur_intent.Session.Errors.{Thrown, ok, err, Outcome-cases}
use say_ur_intent.Session.Material.Data.{MaterialHandle, DigestCommitment, MaterialRecord}
use say_ur_intent.Session.Material.Verify.{verify_artifacts}
use say_ur_intent.Session.Material.Trust.{verify_artifacts-ok, get_material-some}
use say_ur_intent.Session.Records.Lock.{acquire-lookup}
use say_ur_intent.Session.World.{World, Env, modify, append_event_log, EventLogRecord}
use say_ur_intent.Session.Store.Reading.{log}
use say_ur_intent.Session.Store.Pending.{read_material}
use say_ur_intent.Session.Store.Handoff.{
  WalletHandoffMaterial, verify_for_handoff, assert_commitment, require_material, hand_over,
  lock_handoff, release_bytes,
}
use say_ur_intent.Session.Inversion.{bind-ok, lift-ok, returned}

-- The bytes that leave the store: their digest is the reviewed commitment, they go to the account
-- asked for, and the session is locked for the commitment afterwards.
pub record Released (env : Env) (id plan_id commitment account : String) (h : WalletHandoffMaterial)
    (after : World) : Type 0 where
  pub material : MaterialRecord
  pub digest : env.host.transaction_digest material.transaction_bytes ≡ some commitment
  pub bytes : h.transaction_bytes_base64 ≡ env.host.base64 material.transaction_bytes
  pub named : h.transaction_material_commitment ≡ commitment
  pub plan : h.plan_id ≡ plan_id
  pub to_account : h.account ≡ account
  pub session : ReviewSession
  pub stored : lookup id after.sessions ≡ some session
  pub locked : session.pending_handoff_digest ≡ some commitment

verified :
    (env : Env) (handle : MaterialHandle) (d : DigestCommitment) (now : ℕ) (w : World)
    → (verify_for_handoff env handle d now w).0 ≡ ok tt
    → (r : MaterialRecord) × (lookup handle.material_id w.materials ≡ some r)
      × (env.host.transaction_digest r.transaction_bytes ≡ some d.transaction_digest)
      × ((verify_for_handoff env handle d now w).1 ≡ w)
unfolding verify_for_handoff
verified env handle d now w e =
    elim (Outcome-cases (verify_artifacts env.host handle d now w.materials).0) [
      | inl (p, ep) ↦
          let (r, found, own, digest, same, time, b, c, kept) =
            verify_artifacts-ok env.host handle d now w.materials p ep in
          (r, found, digest, ground (arith, kept))
      | inr (x, ep) ↦ absurd (refused x ep)
    ]
  where
    refused : (x : Thrown) → (verify_artifacts env.host handle d now w.materials).0 ≡ err x → ⊥
    refused (Thrown.session_error c m) ep = ground arith
    refused Thrown.material_error ep = ground arith
    refused Thrown.other_error ep = ground arith

material_read :
    (env : Env) (handle : MaterialHandle) (now : ℕ) (w : World) (found : Option MaterialRecord)
    (m : MaterialRecord)
    → (read_material env handle now w).0 ≡ ok found
    → require_material found ≡ ok m
    → lookup handle.material_id w.materials ≡ some m
unfolding read_material
material_read env handle now w found m e q = elim (Option-cases found) [
  | inl n ↦ absurd (ground arith)
  | inr (r, p) ↦
      let facts = get_material-some env.host handle now w.materials r (ground arith) in
      ground (arith, facts)
]

locked_for :
    (id digest : String) (w : World)
    → (lock_handoff id digest w).0 ≡ ok tt
    → (s : ReviewSession) × (lookup id (lock_handoff id digest w).1.sessions ≡ some s)
      × (s.pending_handoff_digest ≡ some digest)
unfolding lock_handoff
locked_for id digest w e =
    let (s, found, held) = acquire-lookup id digest w.sessions (ground arith) in
    (record s { pending_handoff_digest = some digest }, held, refl)

logged : (env : Env) (r : EventLogRecord) (w : World) → (log env r w).1.sessions ≡ w.sessions
unfolding log modify append_event_log
logged env r w = ground arith

handed_over :
    (env : Env) (id plan_id commitment account : String) (m : MaterialRecord) (now : ℕ) (w : World)
    (h : WalletHandoffMaterial)
    → (hand_over env id plan_id commitment account m now w).0 ≡ ok h
    → env.host.transaction_digest m.transaction_bytes ≡ some commitment
    → Released env id plan_id commitment account h
        (hand_over env id plan_id commitment account m now w).1
unfolding hand_over
handed_over env id plan_id commitment account m now w h e digest =
    let (c, e1, rest1, w1) = bind-ok (lock_handoff id commitment) _ w h e in
    let (s, stored, held) = locked_for id commitment w e1 in
    let (l, e2, rest2, w2) = bind-ok (log env _) _ (lock_handoff id commitment w).1 h rest1 in
    let (same, kept) = returned _ h _ rest2 in
    record {
      material = m;
      digest = digest;
      bytes = ap (λ x. x.transaction_bytes_base64) same;
      named = ap (λ x. x.transaction_material_commitment) same;
      plan = ap (λ x. x.plan_id) same;
      to_account = ap (λ x. x.account) same;
      session = s;
      stored =
          ap (λ x. lookup id x.sessions) w1
          ∙ ap (λ x. lookup id x.sessions) w2
          ∙ ap (λ x. lookup id x.sessions) kept
          ∙ ap (lookup id) (logged env _ (lock_handoff id commitment w).1)
          ∙ stored;
      locked = held;
    }

committed :
    (digest commitment : String) → assert_commitment digest commitment ≡ ok tt → digest ≡ commitment
unfolding assert_commitment
committed digest commitment e = ground (arith, eq_iff digest commitment)

pub released :
    (env : Env) (id plan_id commitment account : String) (handle : MaterialHandle)
    (d : DigestCommitment) (now : ℕ) (w : World) (h : WalletHandoffMaterial)
    → (release_bytes env id plan_id commitment account handle d now w).0 ≡ ok h
    → Released env id plan_id commitment account h
        (release_bytes env id plan_id commitment account handle d now w).1
unfolding release_bytes
released env id plan_id commitment account handle d now w h e =
    let (a, e1, rest1, w1) = bind-ok (verify_for_handoff env handle d now) _ w h e in
    let (r, found, digest, kept) = verified env handle d now w e1 in
    let after = (verify_for_handoff env handle d now w).1 in
    let (b, e2, rest2, w2) =
      lift-ok (assert_commitment d.transaction_digest commitment) _ after h rest1 in
    let (f, e3, rest3, w3) = bind-ok (read_material env handle now) _ after h rest2 in
    let read = (read_material env handle now after).1 in
    let (m, e4, rest4, w4) = lift-ok (require_material f) _ read h rest3 in
    let same : r ≡ m = same_record found (
      ap (λ x. lookup handle.material_id x.materials) (sym kept)
      ∙ material_read env handle now after f m e3 e4) in
    rw (w1 ∙ w2 ∙ w3 ∙ w4) (
      handed_over env id plan_id commitment account m now read h rest4 (
        ap (λ x. env.host.transaction_digest x.transaction_bytes) (sym same)
        ∙ digest
        ∙ ap some (committed d.transaction_digest commitment e2)))
  where
    same_record :
        {o : Option MaterialRecord} {r m : MaterialRecord} → o ≡ some r → o ≡ some m → r ≡ m
    same_record {o} {r} {m} p q = ground arith
