-- ===== src/Session/Material/Data.antt =====
-- Handles, digest commitments and records of transaction material, with their schemas.
use say_ur_intent.Prelude.{
  String, Bool, Option, some, none, true, false, ◌&&◌, not, ◌==◌, if◌then◌else◌, time_lt, ite, ◌≡◌,
  ◌↔◌, arith,
}
use say_ur_intent.Host.{Host, Bytes, parse_sui_address, is_iso_utc}
use say_ur_intent.Session.Types.{Document}
use say_ur_intent.Session.Errors.{Outcome, ok, err, other_error}

pub data Kind : Type 0 where
  deepbook_swap_transaction_data flowx_swap_transaction_data : Kind

pub data Source : Type 0 where
  say_ur_intent_built say_ur_intent_verified : Source

pub Kind-discrete : Discrete Kind
Kind-discrete = hlevel

pub Source-discrete : Discrete Source
Source-discrete = hlevel

unfoldable pub same_kind : Kind → Kind → Bool
unfolding Kind-discrete
same_kind a b = ite (Kind-discrete a b) true false

unfoldable pub same_source : Source → Source → Bool
unfolding Source-discrete
same_source a b = ite (Source-discrete a b) true false

pub same_kind_iff : (a b : Kind) → (same_kind a b ≡ true) ↔ (a ≡ b)
unfolding same_kind
same_kind_iff a b = ground arith

pub same_source_iff : (a b : Source) → (same_source a b ≡ true) ↔ (a ≡ b)
unfolding same_source
same_source_iff a b = ground arith

pub record MaterialHandle : Type 0 where
  pub material_id : String
  pub review_session_id : String
  pub plan_id : String
  pub account : String
  pub kind : Kind
  pub source : Source
  pub created_at : String
  pub expires_at : String

-- The only `digestKind` is "sui_transaction_digest".
pub record DigestCommitment : Type 0 where
  pub material_id : String
  pub review_session_id : String
  pub plan_id : String
  pub account : String
  pub kind : Kind
  pub source : Source
  pub transaction_digest : String
  pub computed_at : String
  pub expires_at : String

pub record MaterialRecord : Type 0 where
  pub handle : MaterialHandle
  pub transaction_bytes : Bytes
  pub redacted_diagnostics : Option Document

-- `z.string().min(1)`.
abbrev pub non_empty : String → Bool
non_empty s = not (s == "")

-- `localTransactionMaterialHandleSchema.parse`, which normalizes the account.
unfoldable pub parse_handle : Host → MaterialHandle → Outcome MaterialHandle
parse_handle host value = elim (parse_sui_address host value.account) [
  | none ↦ err other_error
  | some account ↦
      if non_empty value.material_id
        && non_empty value.review_session_id
        && non_empty value.plan_id
        && is_iso_utc host value.created_at
        && is_iso_utc host value.expires_at
        && time_lt (host.parse_date value.created_at) (host.parse_date value.expires_at)
      then ok (record value { account = account })
      else err other_error
]

-- `localTransactionMaterialDigestCommitmentSchema.parse`.
unfoldable pub parse_digest : Host → DigestCommitment → Outcome DigestCommitment
parse_digest host value = elim (parse_sui_address host value.account) [
  | none ↦ err other_error
  | some account ↦
      if non_empty value.material_id
        && non_empty value.review_session_id
        && non_empty value.plan_id
        && host.is_valid_transaction_digest value.transaction_digest
        && is_iso_utc host value.computed_at
        && is_iso_utc host value.expires_at
      then ok (record value { account = account })
      else err other_error
]

-- `toMaterialHandle`.
abbrev pub to_material_handle : MaterialRecord → MaterialHandle
to_material_handle r = r.handle
