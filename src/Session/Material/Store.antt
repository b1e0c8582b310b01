-- ===== src/Session/Material/Store.antt =====
-- `InMemoryLocalTransactionMaterialStore`. Reading an expired record deletes it.
use say_ur_intent.Prelude.{
  ℕ, String, Bool, Option, some, none, true, false, [], ◌∷◌, ◌&&◌, ◌==◌, if◌then◌else◌, time_le,
  Map, lookup, insert, delete,
}
use say_ur_intent.Host.{Host, Bytes, parse_sui_address}
use say_ur_intent.Session.Types.{Document}
use say_ur_intent.Session.Errors.{Outcome, ok, err, material_error}
use say_ur_intent.Session.Material.Data.{
  Kind, Source, MaterialHandle, MaterialRecord, same_kind, same_source,
}

pub record MaterialInput : Type 0 where
  pub review_session_id : String
  pub plan_id : String
  pub account : String
  pub kind : Kind
  pub source : Source
  pub transaction_bytes : Bytes
  pub expires_at : ℕ
  pub redacted_diagnostics : Option Document

abbrev is_empty : Bytes → Bool
is_empty [] = true
is_empty (b ∷ bs) = false

-- `buildTransactionMaterialRecord`. The membership tests of `kind` and `source` hold for every
-- value of those types.
unfoldable pub build_record : Host → String → MaterialInput → ℕ → Outcome MaterialRecord
build_record host uuid input now = elim (parse_sui_address host input.account) [
  | none ↦ err material_error
  | some account ↦
      if input.review_session_id == ""
      then err material_error
      else if input.plan_id == ""
      then err material_error
      else if is_empty input.transaction_bytes
      then err material_error
      else let created_at = host.to_iso now in
        let expires_at = host.to_iso input.expires_at in
        if time_le (host.parse_date expires_at) (host.parse_date created_at)
        then err material_error
        else ok (record {
          handle = record {
            material_id = uuid;
            review_session_id = input.review_session_id;
            plan_id = input.plan_id;
            account = account;
            kind = input.kind;
            source = input.source;
            created_at = created_at;
            expires_at = expires_at;
          };
          transaction_bytes = input.transaction_bytes;
          redacted_diagnostics = input.redacted_diagnostics;
        })
]

-- `recordTransactionMaterial`.
unfoldable pub record_material :
    Host
    → String
    → MaterialInput
    → ℕ
    → Map MaterialRecord
    → Outcome MaterialHandle × Map MaterialRecord
record_material host uuid input now records = elim (build_record host uuid input now) [
  | err e ↦ (err e, records)
  | ok r ↦ (ok r.handle, insert r.handle.material_id r records)
]

-- `sameHandle`.
unfoldable pub same_handle : MaterialHandle → MaterialHandle → Bool
same_handle r h =
    r.material_id == h.material_id
    && r.review_session_id == h.review_session_id
    && r.plan_id == h.plan_id
    && r.account == h.account
    && same_kind r.kind h.kind
    && same_source r.source h.source
    && r.created_at == h.created_at
    && r.expires_at == h.expires_at

-- `getTransactionMaterial`.
unfoldable pub get_material :
    Host → MaterialHandle → ℕ → Map MaterialRecord → Option MaterialRecord × Map MaterialRecord
get_material host h now records = elim (lookup h.material_id records) [
  | none ↦ (none, records)
  | some r ↦
      if time_le (host.parse_date r.handle.expires_at) (some now)
      then (none, delete h.material_id records)
      else (if same_handle r.handle h then some r else none, records)
]

-- `deleteReviewSessionTransactionMaterials`.
unfoldable pub delete_session_materials : String → Map MaterialRecord → Map MaterialRecord
delete_session_materials session_id [] = []
delete_session_materials session_id ((k, r) ∷ records) =
    if r.handle.review_session_id == session_id
    then delete_session_materials session_id records
    else (k, r) ∷ delete_session_materials session_id records
