-- ===== src/Session/Material/Trust.antt =====
-- What a successful verification of material artifacts says of the stored bytes.
use say_ur_intent.Prelude.{
  ℕ, true, false, some, Map, lookup, ◌≡◌, arith, eq_iff, Option-cases, inl, inr, time_le, time_lt,
}
use say_ur_intent.Host.{Host}
use say_ur_intent.Session.Errors.{ok, Outcome-cases}
use say_ur_intent.Session.Material.Data.{
  MaterialHandle, DigestCommitment, MaterialRecord, parse_handle, parse_digest,
}
use say_ur_intent.Session.Material.Store.{get_material}
use say_ur_intent.Session.Material.Verify.{
  MaterialArtifacts, same_identity, check_artifacts, parse_artifacts, check_bytes, verify_artifacts,
}
use say_ur_intent.Session.Material.Lifetime.{same_handle-eq}

-- The schemas change the account alone.
abbrev SameButAccount : MaterialHandle → MaterialHandle → Type 0
SameButAccount h h' = h' ≡ record h { account = h'.account }

abbrev SameDigestButAccount : DigestCommitment → DigestCommitment → Type 0
SameDigestButAccount d d' = d' ≡ record d { account = d'.account }

parse_handle-same :
    (host : Host) (h h' : MaterialHandle) → parse_handle host h ≡ ok h' → SameButAccount h h'
unfolding parse_handle
parse_handle-same host h h' e = ground arith

parse_digest-same :
    (host : Host) (d d' : DigestCommitment)
    → parse_digest host d ≡ ok d'
    → SameDigestButAccount d d'
unfolding parse_digest
parse_digest-same host d d' e = ground arith

-- The times of verified artifacts are in order, and now is within the material's life.
pub record InTime (host : Host) (m : MaterialHandle) (d : DigestCommitment) (now : ℕ) : Type 0 where
  pub not_early : time_lt (some now) (host.parse_date m.created_at) ≡ false
  pub not_late : time_le (host.parse_date m.expires_at) (some now) ≡ false
  pub digest_after : time_lt (host.parse_date d.computed_at) (host.parse_date m.created_at) ≡ false
  pub digest_past : time_lt (some now) (host.parse_date d.computed_at) ≡ false
  pub digest_before_expiry :
      time_le (host.parse_date m.expires_at) (host.parse_date d.computed_at) ≡ false

check_artifacts-ok :
    (host : Host) (m : MaterialHandle) (d : DigestCommitment) (now : ℕ) (p : MaterialArtifacts)
    → check_artifacts host m d now ≡ ok p
    → (p.transaction_material ≡ m)
      × (p.transaction_material_digest ≡ d)
      × (same_identity d m ≡ true)
      × InTime host m d now
unfolding check_artifacts
check_artifacts-ok host m d now p e = ground arith

parse_artifacts-ok :
    (host : Host) (h : MaterialHandle) (d : DigestCommitment) (now : ℕ) (p : MaterialArtifacts)
    → parse_artifacts host h d now ≡ ok p
    → SameButAccount h p.transaction_material
      × SameDigestButAccount d p.transaction_material_digest
      × (same_identity p.transaction_material_digest p.transaction_material ≡ true)
      × InTime host p.transaction_material p.transaction_material_digest now
unfolding parse_artifacts
parse_artifacts-ok host h d now p e = elim (Outcome-cases (parse_handle host h)) [
  | inr (x, eh) ↦ absurd (ground arith)
  | inl (h', eh) ↦ elim (Outcome-cases (parse_digest host d)) [
    | inr (x, ed) ↦ absurd (ground arith)
    | inl (d', ed) ↦
        let facts = check_artifacts-ok host h' d' now p (ground arith) in
        let sh = parse_handle-same host h h' eh in
        let sd = parse_digest-same host d d' ed in
        (
          rw facts.0 sh,
          rw facts.1 sd,
          rw (facts.0, facts.1) (facts.2),
          rw (facts.0, facts.1) (facts.3),
        )
  ]
]

check_bytes-ok :
    (host : Host) (p q : MaterialArtifacts) (r : MaterialRecord)
    → check_bytes host p r ≡ ok q
    → (q ≡ p)
      × (host.transaction_digest r.transaction_bytes
          ≡ some p.transaction_material_digest.transaction_digest)
unfolding check_bytes
check_bytes-ok host p q r e = elim (Option-cases (host.transaction_digest r.transaction_bytes)) [
  | inl n ↦ absurd (ground arith)
  | inr (digest, s) ↦ ground (arith, eq_iff digest p.transaction_material_digest.transaction_digest)
]

-- A record that the store hands out is the stored one, and the handle's own.
pub get_material-some :
    (host : Host) (h : MaterialHandle) (now : ℕ) (m : Map MaterialRecord) (r : MaterialRecord)
    → (get_material host h now m).0 ≡ some r
    → ((get_material host h now m).1 ≡ m)
      × (lookup h.material_id m ≡ some r)
      × (r.handle ≡ h)
      × (time_le (host.parse_date r.handle.expires_at) (some now) ≡ false)
unfolding get_material
get_material-some host h now m r e = elim (Option-cases (lookup h.material_id m)) [
  | inl n ↦ absurd (ground arith)
  | inr (s, found) ↦ ground (arith, same_handle-eq s.handle h)
]

-- Verification succeeds only where the store holds, unexpired, the record of the handle, whose
-- bytes have the committed transaction digest; handle and commitment name the same material,
-- session, plan, account, kind, source and expiry, and the times are in order. It hands back what
-- it was given, but for normalized accounts, and leaves the store as it is.
pub verify_artifacts-ok :
    (host : Host) (h : MaterialHandle) (d : DigestCommitment) (now : ℕ) (m : Map MaterialRecord)
    (p : MaterialArtifacts)
    → (verify_artifacts host h d now m).0 ≡ ok p
    → (r : MaterialRecord) × (lookup h.material_id m ≡ some r)
      × (r.handle ≡ p.transaction_material)
      × (host.transaction_digest r.transaction_bytes ≡ some d.transaction_digest)
      × (same_identity p.transaction_material_digest p.transaction_material ≡ true)
      × InTime host p.transaction_material p.transaction_material_digest now
      × SameButAccount h p.transaction_material
      × SameDigestButAccount d p.transaction_material_digest
      × ((verify_artifacts host h d now m).1 ≡ m)
unfolding verify_artifacts
verify_artifacts-ok host h d now m p e = elim (Outcome-cases (parse_artifacts host h d now)) [
  | inr (x, ep) ↦ absurd (ground arith)
  | inl (p', ep) ↦
      let facts = parse_artifacts-ok host h d now p' ep in
      elim (Option-cases (get_material host p'.transaction_material now m).0) [
        | inl n ↦ absurd (ground arith)
        | inr (r, g) ↦
            let (kept, found, own, fresh) =
              get_material-some host p'.transaction_material now m r g in
            let (same, digest) = check_bytes-ok host p' p r (ground arith) in
            (
              r,
              ground (arith, facts),
              ground arith,
              ground (arith, facts),
              rw same facts.2,
              rw same facts.3,
              rw same facts.0,
              rw same facts.1,
              ground arith,
            )
      ]
]
