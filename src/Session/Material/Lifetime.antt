-- ===== src/Session/Material/Lifetime.antt =====
-- How long transaction material lives in the store, and who gets it.
use say_ur_intent.Prelude.{
  ℕ, ◌<◌, ◌≤◌, String, Bool, true, false, Option, some, none, Map, lookup, insert, delete, ◌≡◌,
  refl, arith, ◌==◌, eq_iff, lookup-insert, lookup-delete, [], ◌∷◌, inl, inr, if◌then◌else◌,
}
use say_ur_intent.Host.{Host, ReadsBack}
use say_ur_intent.Session.Errors.{ok, Outcome-cases}
use say_ur_intent.Session.Material.Data.{
  MaterialHandle, MaterialRecord, same_kind_iff, same_source_iff,
}
use say_ur_intent.Session.Material.Store.{
  MaterialInput, build_record, record_material, same_handle, get_material, delete_session_materials,
}

pub same_handle-eq : (a b : MaterialHandle) → same_handle a b ≡ true → a ≡ b
unfolding same_handle
same_handle-eq a b h = ground (
  arith,
  eq_iff a.material_id b.material_id,
  eq_iff a.review_session_id b.review_session_id,
  eq_iff a.plan_id b.plan_id,
  eq_iff a.account b.account,
  same_kind_iff a.kind b.kind,
  same_source_iff a.source b.source,
  eq_iff a.created_at b.created_at,
  eq_iff a.expires_at b.expires_at,
)

pub same_handle_refl : (a : MaterialHandle) → same_handle a a ≡ true
unfolding same_handle
same_handle_refl a = ground (
  arith,
  eq_iff a.material_id a.material_id,
  eq_iff a.review_session_id a.review_session_id,
  eq_iff a.plan_id a.plan_id,
  eq_iff a.account a.account,
  same_kind_iff a.kind a.kind,
  same_source_iff a.source a.source,
  eq_iff a.created_at a.created_at,
  eq_iff a.expires_at a.expires_at,
)

built :
    (host : Host) (uuid : String) (input : MaterialInput) (now : ℕ) (r : MaterialRecord)
    → build_record host uuid input now ≡ ok r
    → (r.handle.review_session_id ≡ input.review_session_id)
      × (r.transaction_bytes ≡ input.transaction_bytes)
      × (r.handle.expires_at ≡ host.to_iso input.expires_at)
unfolding build_record
built host uuid input now r e = ground arith

-- What `recordTransactionMaterial` stores.
pub record_stores :
    (host : Host) (uuid : String) (input : MaterialInput) (now : ℕ) (m : Map MaterialRecord)
    (h : MaterialHandle)
    → (record_material host uuid input now m).0 ≡ ok h
    → (r : MaterialRecord) × ((record_material host uuid input now m).1 ≡ insert h.material_id r m)
      × (r.handle ≡ h)
      × (r.transaction_bytes ≡ input.transaction_bytes)
      × (h.expires_at ≡ host.to_iso input.expires_at)
unfolding record_material
record_stores host uuid input now m h e = elim (Outcome-cases (build_record host uuid input now)) [
  | inl (r, p) ↦
      let facts = built host uuid input now r p in
      (
        r,
        ground (arith, facts),
        ground (arith, facts),
        ground (arith, facts),
        ground (arith, facts),
      )
  | inr (x, p) ↦ absurd (ground arith)
]

-- A record that is there is handed out to its own handle alone, unchanged, until it expires.
get_live :
    (host : Host) (h : MaterialHandle) (now t : ℕ) (m : Map MaterialRecord) (r : MaterialRecord)
    → lookup h.material_id m ≡ some r
    → host.parse_date r.handle.expires_at ≡ some t
    → now < t
    → get_material host h now m ≡ (if same_handle r.handle h then some r else none, m)
unfolding get_material
get_live host h now t m r e p l = ground arith

get_expired :
    (host : Host) (h : MaterialHandle) (now t : ℕ) (m : Map MaterialRecord) (r : MaterialRecord)
    → lookup h.material_id m ≡ some r
    → host.parse_date r.handle.expires_at ≡ some t
    → t ≤ now
    → get_material host h now m ≡ (none, delete h.material_id m)
unfolding get_material
get_expired host h now t m r e p l = ground arith

-- Recorded material is handed out to the handle that recording returned, with the recorded bytes
-- and without a change of the store, until its expiry; from then on it is not handed out, and
-- reading it removes it.
pub get-record_material :
    (host : Host) (uuid : String) (input : MaterialInput) (at now : ℕ) (m : Map MaterialRecord)
    (h : MaterialHandle)
    → ReadsBack host
    → (record_material host uuid input at m).0 ≡ ok h
    → let m' = (record_material host uuid input at m).1 in
      (now < input.expires_at
        → (r : MaterialRecord) × (get_material host h now m' ≡ (some r, m'))
          × (r.transaction_bytes ≡ input.transaction_bytes))
      × (input.expires_at ≤ now
          → ((get_material host h now m').0 ≡ none)
            × (lookup h.material_id (get_material host h now m').1 ≡ none))
get-record_material host uuid input at now m h back e =
    let (r, stored, named, bytes, until) = record_stores host uuid input at m h e in
    let found : lookup h.material_id (insert h.material_id r m) ≡ some r =
      ground (
        arith,
        lookup-insert h.material_id h.material_id r m,
        eq_iff h.material_id h.material_id,
      ) in
    let dated : host.parse_date r.handle.expires_at ≡ some input.expires_at =
      ground (arith, back input.expires_at) in
    rw stored (
      λ live. (
        r,
        ground (
          arith,
          get_live host h now input.expires_at (insert h.material_id r m) r found dated live,
          same_handle_refl h,
        ),
        bytes,
      ),
      λ over.
          let gone =
            get_expired host h now input.expires_at (insert h.material_id r m) r found dated over in
          (
            ground (arith, gone),
            rw gone (
                ground (
                  arith,
                  lookup-delete h.material_id h.material_id (insert h.material_id r m),
                  eq_iff h.material_id h.material_id,
                )),
          ),
    )

-- A key occurs once.
abbrev pub IsUnique : Map MaterialRecord → Type 0
IsUnique [] = Unit {0}
IsUnique ((k, r) ∷ m) = (lookup k m ≡ none) × IsUnique m

abbrev pub belongs : String → Option MaterialRecord → Bool
belongs id none = false
belongs id (some r) = r.handle.review_session_id == id

-- Dropping the material of a session removes all of it, and nothing else.
pub lookup-delete_session_materials :
    (id k : String) (m : Map MaterialRecord)
    → IsUnique m
    → lookup k (delete_session_materials id m)
      ≡ (if belongs id (lookup k m) then none else lookup k m)
unfolding lookup delete_session_materials
lookup-delete_session_materials id k [] u = refl
lookup-delete_session_materials id k ((j, r) ∷ m) u = ground (
  arith,
  eq_iff j k,
  eq_iff r.handle.review_session_id id,
  lookup-delete_session_materials id k m u.1,
  lookup-delete_session_materials id j m u.1,
)
