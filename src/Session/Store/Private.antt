-- ===== src/Session/Store/Private.antt =====
-- Verification of private review artifacts against a review state: `parseReviewSessionPrivate-
-- Artifacts`, `assertPrivateDerivedReviewStateProjections` and what reads and writes them.
use say_ur_intent.Prelude.{
  ℕ, String, Bool, true, false, Option, some, none, lookup, insert, if◌then◌else◌, ◌&&◌, ◌||◌, not,
  is_some, ◌==◌,
}
use say_ur_intent.Session.Types.{Document, ReviewState}
use say_ur_intent.Session.Errors.{ErrorCode, other_error, Outcome, ok, err, fail}
use say_ur_intent.Session.Material.Data.{MaterialHandle}
use say_ur_intent.Session.Material.Verify.{MaterialArtifacts, verify_artifacts}
use say_ur_intent.Session.Artifacts.{PrivateReviewArtifacts, Evidence, traverse, clone_artifacts}
use say_ur_intent.Session.World.{Env, Op}
use say_ur_intent.Session.Store.Commit.{delete_materials, ArtifactWrite, clear, put}

-- One binding of `PRIVATE_DERIVED_REVIEW_FIELD_BINDINGS`: both absent, or the public value is
-- the projection of the private one.
unfoldable pub projection_matches : (Document → Document) → Option Document → Option Document → Bool
projection_matches project none none = true
projection_matches project (some value) (some evidence) = value == project evidence
projection_matches project _ _ = false

unfoldable pub projections_match : Evidence → ReviewState → PrivateReviewArtifacts → Bool
unfolding projection_matches
projections_match ev state a =
    projection_matches ev.project_human_review state.human_readable_review a.human_readable_review
    && projection_matches ev.project_simulation state.simulation a.review_time_simulation

unfoldable pub material_identity_matches : String → ReviewState → MaterialHandle → Bool
material_identity_matches id state m =
    m.review_session_id == id && m.plan_id == state.plan_id && m.account == state.account

abbrev from_option : {A : Type 0} → Option A → Outcome A
from_option none = err other_error
from_option (some a) = ok a

infixl 5 ◌and_then◌
abbrev ◌and_then◌ : {A B : Type 0} → Outcome A → (A → Outcome B) → Outcome B
ok a and_then f = f a
err e and_then f = err e

-- The evidence that accompanies verified material: each part that is there must verify, in the
-- order ownership, quote policy, human-readable review, simulation; then the projections.
unfoldable pub verify_evidence :
    Env
    → String
    → ReviewState
    → PrivateReviewArtifacts
    → ℕ
    → MaterialArtifacts
    → Outcome PrivateReviewArtifacts
unfolding material_identity_matches traverse projections_match
verify_evidence env id state a now m =
    if not (material_identity_matches id state m.transaction_material)
    then err other_error
    else from_option (traverse (λ e. ev.verify_ownership m e now) a.transaction_object_ownership)
      and_then λ own.
          from_option (traverse (λ e. ev.verify_quote_policy m e now) a.swap_quote_policy)
          and_then λ quote.
              from_option
                (traverse (λ e. ev.verify_human_review m quote own e now) a.human_readable_review)
              and_then λ human.
                  from_option
                    (traverse (λ e. ev.verify_simulation m e now) a.review_time_simulation)
                  and_then λ simulation.
                      let verified : PrivateReviewArtifacts = record {
                        transaction_material = some m.transaction_material;
                        transaction_material_digest = some m.transaction_material_digest;
                        swap_quote_policy = quote;
                        transaction_object_ownership = own;
                        human_readable_review = human;
                        review_time_simulation = simulation;
                      } in
                      if projections_match ev state verified then ok verified else err other_error
  where
    open env use {evidence as ev}

-- `parseReviewSessionPrivateArtifacts`.
unfoldable pub parse_private_artifacts :
    Env → String → ReviewState → PrivateReviewArtifacts → ℕ → Op PrivateReviewArtifacts
unfolding verify_evidence
parse_private_artifacts env id state a now w = elim a.transaction_material [
  | none ↦ (err other_error, w)
  | some handle ↦ elim a.transaction_material_digest [
    | none ↦ (err other_error, w)
    | some digest ↦
        if env.has_material_store
        then (let (verified, records) = verify_artifacts env.host handle digest now w.materials in
            (
              verified and_then verify_evidence env id state a now,
              record w { materials = records },
            ))
        else (err other_error, w)
  ]
]

-- `privateReviewArtifacts.get`, which copies, and may throw on a document.
unfoldable pub get_artifacts : Env → String → Op (Option PrivateReviewArtifacts)
get_artifacts env id w = elim (lookup id w.artifacts) [
  | none ↦ (ok none, w)
  | some a ↦ elim (clone_artifacts env.evidence a) [
    | none ↦ (err other_error, w)
    | some b ↦ (ok (some b), w)
  ]
]

-- `assertReviewSessionPrivateArtifacts`.
unfoldable pub assert_private_artifacts :
    Env → String → ReviewState → Option PrivateReviewArtifacts → ℕ → Op (Unit {0})
unfolding delete_materials parse_private_artifacts
assert_private_artifacts env id state none now w =
    if is_some state.human_readable_review || is_some state.simulation
    then (fail ErrorCode.session_mismatch, delete_materials env id w)
    else (ok tt, w)
assert_private_artifacts env id state (some a) now w =
    let (parsed, w') = parse_private_artifacts env id state a now w in
    elim parsed [
      | ok verified ↦ (ok tt, w')
      | err e ↦ (fail ErrorCode.session_mismatch, delete_materials env id w')
    ]

-- Whether artifacts hold material and digest; if not they are dropped.
abbrev holds_material : PrivateReviewArtifacts → Bool
holds_material a = is_some a.transaction_material && is_some a.transaction_material_digest

-- `privateArtifactsJsonForLiveMutation`: what a live mutation does to the artifacts.
unfoldable pub artifacts_for_live_mutation :
    Env → Option PrivateReviewArtifacts → Outcome ArtifactWrite
artifacts_for_live_mutation env none = ok clear
artifacts_for_live_mutation env (some a) =
    if holds_material a
    then (from_option (clone_artifacts env.evidence a) and_then λ b. ok (put b))
    else ok clear

-- `replaceReviewSessionPrivateArtifacts`.
unfoldable pub replace_private_artifacts :
    Env → String → Option PrivateReviewArtifacts → Op (Unit {0})
unfolding delete_materials
replace_private_artifacts env id none w = (ok tt, delete_materials env id w)
replace_private_artifacts env id (some a) w =
    if holds_material a
    then elim (clone_artifacts env.evidence a) [
      | none ↦ (err other_error, w)
      | some b ↦ (ok tt, record w { artifacts = insert id b w.artifacts })
    ]
    else (ok tt, delete_materials env id w)
