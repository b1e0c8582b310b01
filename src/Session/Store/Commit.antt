-- ===== src/Session/Store/Commit.antt =====
-- `commitLiveReviewSessionProcess` on both of its ways: with a live write of the activity store
-- (`runLiveReviewSessionMutation` of src/core/activity/sqliteActivityStore.ts), where activity,
-- session and side effects are one transaction, and without, where they follow one another.
pub mod Atomic
use say_ur_intent.Prelude.{
  String, Bool, true, false, Option, some, none, Map, lookup, insert, delete, if◌then◌else◌,
}
use say_ur_intent.Session.Types.{ReviewSession, SessionStatus}
use say_ur_intent.Session.Errors.{
  ErrorCode, Message, Thrown, session_error, other_error, Outcome, ok, err,
}
use say_ur_intent.Session.Artifacts.{PrivateReviewArtifacts}
use say_ur_intent.Session.Records.{create_record, commit_record}
use say_ur_intent.Session.Material.Store.{delete_session_materials}
use say_ur_intent.Session.World.{World, Env, Op, ActivityWrite, ◌>>=◌, ◌>>◌}

-- `privateArtifactsJson`: left out, `null`, or a text.
pub data ArtifactWrite : Type 0 where
  keep clear : ArtifactWrite
  put : PrivateReviewArtifacts → ArtifactWrite

pub record LiveSideEffects : Type 0 where
  pub delete_transaction_materials : Bool
  pub private_artifacts : ArtifactWrite

abbrev pub no_side_effects : LiveSideEffects
no_side_effects = record { delete_transaction_materials = false; private_artifacts = keep }

abbrev pub deleting : LiveSideEffects
deleting = record { delete_transaction_materials = true; private_artifacts = keep }

-- `deleteReviewSessionTransactionMaterials` of the session store.
unfoldable pub delete_materials : Env → String → World → World
delete_materials env id w = record w {
  materials =
      if env.has_material_store then delete_session_materials id w.materials else w.materials;
  artifacts = delete id w.artifacts;
}

write_artifacts : String → ArtifactWrite → World → World
write_artifacts id keep w = w
write_artifacts id clear w = record w { artifacts = delete id w.artifacts }
write_artifacts id (put a) w = record w { artifacts = insert id a w.artifacts }

-- `applyLiveReviewSessionSideEffects`, which deletes rows of the database whatever the options.
unfoldable pub apply_live_side_effects : String → LiveSideEffects → World → World
unfolding write_artifacts
apply_live_side_effects id fx w = write_artifacts id fx.private_artifacts (
    if fx.delete_transaction_materials
    then record w {
      materials = delete_session_materials id w.materials;
      artifacts = delete id w.artifacts;
    }
    else w)

-- The conditional write of the session itself: a new record, or one that is as expected.
unfoldable pub write_session :
    Option ReviewSession → ReviewSession → Map ReviewSession → Option (Map ReviewSession)
write_session none next m = create_record next.id next m
write_session (some expected) next m = commit_record next.id expected next m

-- `throwStaleReviewSession`; a creation names its own message.
abbrev pub stale_error : Option ReviewSession → Thrown
stale_error none = session_error ErrorCode.invalid_session_transition Message.other_message
stale_error (some expected) =
    session_error ErrorCode.invalid_session_transition Message.changed_before_commit

-- What an in-memory store throws where the session cannot be written.
abbrev pub refused_error : Option ReviewSession → Thrown
refused_error none = other_error
refused_error (some expected) = stale_error (some expected)

-- `applyLiveReviewSessionMutation`, and the error of a mutation that did not apply.
unfoldable pub commit_with_live_session :
    Option ReviewSession → ReviewSession → LiveSideEffects → Op (Unit {0})
unfolding write_session
commit_with_live_session expected next fx w = elim (write_session expected next w.sessions) [
  | none ↦ (err (stale_error expected), w)
  | some m ↦ (ok tt, apply_live_side_effects next.id fx (record w { sessions = m }))
]

-- `commitLiveSessionOnly`.
unfoldable pub commit_live_session_only : Option ReviewSession → ReviewSession → Op (Unit {0})
unfolding write_session
commit_live_session_only expected next w = elim (write_session expected next w.sessions) [
  | none ↦ (err (refused_error expected), w)
  | some m ↦ (ok tt, record w { sessions = m })
]

-- The `catch` of the activity-only way.
unfoldable pub after_failure :
    Bool → Op (Unit {0}) → Outcome (Unit {0}) × World → Outcome (Unit {0}) × World
after_failure on_failure effects (ok u, w) = (ok u, w)
after_failure on_failure effects (err e, w) = (err e, if on_failure then (effects w).1 else w)

unfoldable pub commit_activity_only :
    Option ReviewSession → ReviewSession → Op (Unit {0}) → Op (Unit {0}) → Bool → Op (Unit {0})
unfolding commit_live_session_only after_failure
commit_activity_only expected next activity effects on_failure w =
    after_failure on_failure effects
      ((do activity; commit_live_session_only expected next; effects) w)

-- The whole process. `effects` is `applyActivityOnlySideEffects`.
unfoldable pub commit_process :
    Env
    → ActivityWrite
    → Option ReviewSession
    → ReviewSession
    → LiveSideEffects
    → Op (Unit {0})
    → Bool
    → Op (Unit {0})
unfolding commit_activity_only commit_with_live_session
commit_process env write expected next fx effects on_failure w =
    if env.live_mutations
    then (do env.activity_write write; commit_with_live_session expected next fx) w
    else commit_activity_only expected next (env.activity_write write) effects on_failure w

-- `applyActivityOnlyLiveSessionSideEffects`.
unfoldable pub activity_only_effects : Env → String → LiveSideEffects → Op (Unit {0})
unfolding delete_materials
activity_only_effects env id fx w =
    (ok tt, if fx.delete_transaction_materials then delete_materials env id w else w)
