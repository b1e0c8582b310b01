-- ===== src/Session/Material/Verify.antt =====
-- `parseLocalTransactionMaterialArtifacts` and `verifyLocalTransactionMaterialArtifacts`.
use say_ur_intent.Prelude.{
  ℕ, Bool, some, none, ◌&&◌, ◌||◌, not, ◌==◌, if◌then◌else◌, time_lt, time_le, Map,
}
use say_ur_intent.Host.{Host}
use say_ur_intent.Session.Errors.{Outcome, ok, err, material_error}
use say_ur_intent.Session.Material.Data.{
  MaterialHandle, DigestCommitment, MaterialRecord, parse_handle, parse_digest, same_kind,
  same_source,
}
use say_ur_intent.Session.Material.Store.{get_material}

pub record MaterialArtifacts : Type 0 where
  pub transaction_material : MaterialHandle
  pub transaction_material_digest : DigestCommitment

unfoldable pub same_identity : DigestCommitment → MaterialHandle → Bool
same_identity d m =
    d.material_id == m.material_id
    && d.review_session_id == m.review_session_id
    && d.plan_id == m.plan_id
    && d.account == m.account
    && same_kind d.kind m.kind
    && same_source d.source m.source
    && d.expires_at == m.expires_at

-- The checks on the two parsed artifacts; `now` is a valid `Date`.
unfoldable pub check_artifacts :
    Host → MaterialHandle → DigestCommitment → ℕ → Outcome MaterialArtifacts
check_artifacts host m d now =
    let created = host.parse_date m.created_at in
    let expires = host.parse_date m.expires_at in
    let computed = host.parse_date d.computed_at in
    if time_lt (some now) created
    then err material_error
    else if time_le expires (some now)
    then err material_error
    else if time_lt computed created || time_lt (some now) computed
    then err material_error
    else if time_le expires computed
    then err material_error
    else if not (same_identity d m)
    then err material_error
    else ok (record { transaction_material = m; transaction_material_digest = d })

unfoldable pub parse_artifacts :
    Host → MaterialHandle → DigestCommitment → ℕ → Outcome MaterialArtifacts
parse_artifacts host m d now = elim (parse_handle host m) [
  | err e ↦ err e
  | ok m' ↦ elim (parse_digest host d) [ err e ↦ err e | ok d' ↦ check_artifacts host m' d' now ]
]

-- The digest of the stored bytes against the commitment.
unfoldable pub check_bytes : Host → MaterialArtifacts → MaterialRecord → Outcome MaterialArtifacts
check_bytes host parsed material = elim (host.transaction_digest material.transaction_bytes) [
  | none ↦ err material_error
  | some digest ↦
      if not (host.is_valid_transaction_digest digest)
      then err material_error
      else if not (digest == parsed.transaction_material_digest.transaction_digest)
      then err material_error
      else ok parsed
]

unfoldable pub verify_artifacts :
    Host
    → MaterialHandle
    → DigestCommitment
    → ℕ
    → Map MaterialRecord
    → Outcome MaterialArtifacts × Map MaterialRecord
verify_artifacts host m d now records = elim (parse_artifacts host m d now) [
  | err e ↦ (err e, records)
  | ok parsed ↦
      let (found, records') = get_material host parsed.transaction_material now records in
      elim found [
        | none ↦ (err material_error, records')
        | some material ↦ (check_bytes host parsed material, records')
      ]
]
