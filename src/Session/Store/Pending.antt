-- ===== src/Session/Store/Pending.antt =====
-- While a handoff is pending: the reads of private artifacts, `cancelWalletHandoff`, and
-- `recordReviewStateWithArtifacts`, which respects the pending handoff.
use say_ur_intent.Prelude.{
  ℕ, String, Bool, false, Option, some, none, lookup, if◌then◌else◌, not, is_some, truthy,
}
use say_ur_intent.Session.Types.{ReviewSession, ReviewState}
use say_ur_intent.Session.Errors.{ErrorCode, ok, err, fail}
use say_ur_intent.Session.Artifacts.{PrivateReviewArtifacts}
use say_ur_intent.Session.Status.{can_retain_private_review_artifacts}
use say_ur_intent.Session.Material.Data.{MaterialHandle, DigestCommitment, MaterialRecord}
use say_ur_intent.Session.Material.Store.{get_material}
use say_ur_intent.Session.Records.{release_handoff_lock}
use say_ur_intent.Session.World.{
  World, Env, Op, ◌>>=◌, ◌>>◌, return, lift, modify, branch, with_session, EventType, plain_event,
  append_event_log,
}
use say_ur_intent.Session.Store.Commit.{delete_materials}
use say_ur_intent.Session.Store.Private.{get_artifacts, parse_private_artifacts}
use say_ur_intent.Session.Store.Reading.{get_review_session}
use say_ur_intent.Session.Store.Review.{record_review_state}

-- The artifacts against the state: dropped where they do not verify.
unfoldable pub read_private :
    Env
    → String
    → Option ReviewState
    → Option PrivateReviewArtifacts
    → ℕ
    → Op (Option PrivateReviewArtifacts)
unfolding delete_materials parse_private_artifacts
read_private env id state none now w = (ok none, w)
read_private env id none (some a) now w = (ok none, delete_materials env id w)
read_private env id (some state) (some a) now w =
    let (parsed, w') = parse_private_artifacts env id state a now w in
    elim parsed [
      | ok verified ↦ (ok (some verified), w')
      | err e ↦ (ok none, delete_materials env id w')
    ]

unfoldable pub private_of :
    Env → String → ℕ → Option ReviewSession → Op (Option PrivateReviewArtifacts)
private_of env id now none = return none
private_of env id now (some session) =
    branch (not (can_retain_private_review_artifacts session.status))
      (do modify (delete_materials env id); return none)
      (do found ← get_artifacts env id; read_private env id session.review_state found now)

-- `getReviewSessionPrivateArtifacts`.
unfoldable pub get_private_artifacts : Env → String → ℕ → Op (Option PrivateReviewArtifacts)
get_private_artifacts env id now = do
  found ← get_review_session env id now
  private_of env id now found

abbrev pub handle_of : Option PrivateReviewArtifacts → Option MaterialHandle
handle_of none = none
handle_of (some a) = a.transaction_material

abbrev pub digest_of : Option PrivateReviewArtifacts → Option DigestCommitment
digest_of none = none
digest_of (some a) = a.transaction_material_digest

-- `transactionMaterialStore.getTransactionMaterial`.
unfoldable pub read_material : Env → MaterialHandle → ℕ → Op (Option MaterialRecord)
read_material env handle now w =
    let (found, records) = get_material env.host handle now w.materials in
    (ok found, record w { materials = records })

unfoldable pub available_of : Env → ℕ → Option MaterialHandle → Op Bool
available_of env now none = return false
available_of env now (some handle) = do found ← read_material env handle now; return (is_some found)

-- `pendingHandoffMaterialAvailable`.
unfoldable pub pending_handoff_material_available : Env → String → ℕ → Op Bool
pending_handoff_material_available env id now =
    branch env.has_material_store
      (do artifacts ← get_private_artifacts env id now; available_of env now (handle_of artifacts))
      (return false)

-- `clearPendingHandoff`.
unfoldable pub clear_pending_handoff : Env → String → String → ℕ → World → World
clear_pending_handoff env id reason now w = elim (lookup id w.sessions) [
  | none ↦ w
  | some session ↦
      if not (is_some session.pending_handoff_digest)
      then w
      else append_event_log env
          (record (plain_event EventType.handoff_cancelled id (env.host.to_iso now)) {
            reason = some reason;
          })
          (record w {
            sessions = (release_handoff_lock id session.pending_handoff_digest w.sessions).1;
          })
]

-- `sessions.get`.
unfoldable pub stored_session : String → Op (Option ReviewSession)
stored_session id w = (ok (lookup id w.sessions), w)

-- `cancelWalletHandoff`.
unfoldable pub cancel_wallet_handoff : Env → String → ℕ → Op (Option ReviewSession)
cancel_wallet_handoff env id now =
    with_session id (fail ErrorCode.session_not_found)
      λ session. do modify (clear_pending_handoff env id "user_cancelled" now); stored_session id

abbrev pub holds_lock : Option ReviewSession → Bool
holds_lock none = false
holds_lock (some s) = truthy s.pending_handoff_digest

-- A pending handoff refuses the recomputation, unless its material is gone.
unfoldable pub release_for_recompute : Env → String → ℕ → Bool → Op (Unit {0})
release_for_recompute env id now available =
    branch available (lift (fail ErrorCode.invalid_session_transition))
      (modify (clear_pending_handoff env id "material_expired" now))

-- `recordReviewStateWithArtifacts`.
unfoldable pub record_review_state_with_artifacts :
    Env → String → ReviewState → Option PrivateReviewArtifacts → ℕ → Op ReviewSession
record_review_state_with_artifacts env id state artifacts now = do
  pending ← stored_session id
  branch (holds_lock pending)
      (do
        available ← pending_handoff_material_available env id now
        release_for_recompute env id now available)
      (return tt)
  record_review_state env id state artifacts now
