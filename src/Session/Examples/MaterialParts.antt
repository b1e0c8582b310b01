-- ===== src/Session/Examples/MaterialParts.antt =====
-- Transaction material: properties at the data of `Fixtures`.
use say_ur_intent.Prelude.{
  ◌<◌, ◌≤◌, true, some, none, [], ◌∷◌, lookup, ◌≡◌, refl, Map, if◌then◌else◌,
}
use say_ur_intent.Host.{Host}
use say_ur_intent.Session.Errors.{ok}
use say_ur_intent.Session.Material.Data.{MaterialHandle, MaterialRecord, Kind, Source}
use say_ur_intent.Session.Material.Store.{
  MaterialInput, record_material, get_material, delete_session_materials,
}
use say_ur_intent.Session.Material.Verify.{MaterialArtifacts, verify_artifacts, same_identity}
use say_ur_intent.Session.Material.Trust.{InTime, verify_artifacts-ok}
use say_ur_intent.Session.Material.Lifetime.{
  get-record_material, IsUnique, belongs, lookup-delete_session_materials,
}
use say_ur_intent.Session.Fixtures.{
  stamp, some_host, some_host-ReadsBack, some_handle, some_digest, some_material,
}

abbrev artifacts : MaterialArtifacts
artifacts = record { transaction_material = some_handle; transaction_material_digest = some_digest }

abbrev materials : Map MaterialRecord
materials = ("material", some_material) ∷ []

verified_example : (verify_artifacts some_host some_handle some_digest 3 materials).0 ≡ ok artifacts
unfolding verify_artifacts say_ur_intent.Session.Material.Verify.parse_artifacts
    say_ur_intent.Session.Material.Data.parse_handle
    say_ur_intent.Session.Material.Data.parse_digest
    say_ur_intent.Session.Material.Verify.check_artifacts
    say_ur_intent.Session.Material.Verify.check_bytes get_material lookup
    say_ur_intent.Session.Material.Store.same_handle same_identity
    say_ur_intent.Session.Material.Data.same_kind say_ur_intent.Session.Material.Data.same_source
    say_ur_intent.Host.parse_sui_address say_ur_intent.Host.is_iso_utc stamp
verified_example = refl

verify_artifacts-ok_example :
    (r : MaterialRecord) × (lookup "material" materials ≡ some r)
    × (r.handle ≡ some_handle)
    × (some_host.transaction_digest r.transaction_bytes ≡ some "digest")
    × (same_identity some_digest some_handle ≡ true)
    × InTime some_host some_handle some_digest 3
    × (some_handle ≡ some_handle)
    × (some_digest ≡ some_digest)
    × ((verify_artifacts some_host some_handle some_digest 3 materials).1 ≡ materials)
verify_artifacts-ok_example =
    verify_artifacts-ok some_host some_handle some_digest 3 materials artifacts verified_example

abbrev material_input : MaterialInput
material_input = record {
  review_session_id = "session";
  plan_id = "plan";
  account = "0xa";
  kind = Kind.deepbook_swap_transaction_data;
  source = Source.say_ur_intent_built;
  transaction_bytes = 7 ∷ [];
  expires_at = 9;
  redacted_diagnostics = none;
}

recorded_example : (record_material some_host "material" material_input 1 []).0 ≡ ok some_handle
unfolding record_material say_ur_intent.Session.Material.Store.build_record
    say_ur_intent.Host.parse_sui_address stamp
recorded_example = refl

get-record_material_example :
    let m = (record_material some_host "material" material_input 1 []).1 in
    (5 < 9
      → (r : MaterialRecord) × (get_material some_host some_handle 5 m ≡ (some r, m))
        × (r.transaction_bytes ≡ (7 ∷ [])))
    × (9 ≤ 5
        → ((get_material some_host some_handle 5 m).0 ≡ none)
          × (lookup "material" (get_material some_host some_handle 5 m).1 ≡ none))
get-record_material_example =
    get-record_material some_host "material" material_input 1 5 [] some_handle some_host-ReadsBack
      recorded_example

materials-IsUnique : IsUnique materials
unfolding lookup
materials-IsUnique = (refl, tt)

lookup-delete_session_materials_example :
    lookup "material" (delete_session_materials "session" materials) ≡ (
      if belongs "session" (lookup "material" materials) then none else lookup "material" materials)
lookup-delete_session_materials_example =
    lookup-delete_session_materials "session" "material" materials materials-IsUnique
