-- ===== src/Session/Sqlite.antt =====
-- Live review sessions in SQLite: src/core/session/sqliteSessionStore.ts. A table is the list of
-- its rows; the id is its primary key (src/core/activity/sqliteActivityStoreSchema.ts), so one row
-- at most has an id. `Codec` stands for `JSON.stringify` and `JSON.parse`, which may throw, with `T` the JSON texts.
pub mod Represents
pub mod Refinement
pub mod Histories
use say_ur_intent.Prelude.{
  ℕ, suc, ◌+◌, String, Bool, true, false, ◌&&◌, ◌||◌, not, ◌==◌, eqb, is_some, same_text,
  if◌then◌else◌, List, [], ◌∷◌, ◌++◌, Option, some, none,
}
use say_ur_intent.Prelude.Fallible.{◌>>=◌}
use say_ur_intent.Session.Types.{
  SessionStatus, ReviewSession, ReviewState, ActionPlan, ExecutionResult, LocalSessionBase,
  same_session,
}

pub record Codec (T : Type 0) : Type 0 where
  pub plans_text : List ActionPlan → T
  pub parse_plans : T → Option (List ActionPlan)
  pub state_text : ReviewState → T
  pub parse_state : T → Option ReviewState
  pub result_text : ExecutionResult → T
  pub parse_result : T → Option ExecutionResult

-- `LiveReviewSessionRow`.
pub record Row (T : Type 0) : Type 0 where
  pub id : String
  pub token_hash : String
  pub status : SessionStatus
  pub account : Option String
  pub pending_handoff_digest : Option String
  pub plans_json : T
  pub review_state_json : Option T
  pub execution_result_json : Option T
  pub created_at : String
  pub expires_at : String
  pub last_activity_at : String
  pub revision : ℕ
  pub write_contract_version : String

abbrev pub live_review_session_write_contract_version : String
live_review_session_write_contract_version = "shared_sqlite_review_session_v1"

abbrev optional {ℓ κ} : {A : Type ℓ} {B : Type κ} → (A → B) → Option A → Option B
optional f none = none
optional f (some a) = some (f a)

abbrev parse_optional {ℓ κ} :
    {A : Type ℓ} {B : Type κ} → (A → Option B) → Option A → Option (Option B)
parse_optional f none = some none
parse_optional f (some a) = elim (f a) [ none ↦ none | some b ↦ some (some b) ]

module _ {T : Type 0} (codec : Codec T) where
  -- `serializeSessionForLiveReviewSessionRow`, at a revision.
  unfoldable pub row_of : ReviewSession → ℕ → Row T
  row_of s revision = record {
    id = s.id;
    token_hash = s.token_hash;
    status = s.status;
    account = s.account;
    pending_handoff_digest = s.pending_handoff_digest;
    plans_json = codec.plans_text s.plans;
    review_state_json = optional codec.state_text s.review_state;
    execution_result_json = optional codec.result_text s.execution_result;
    created_at = s.created_at;
    expires_at = s.expires_at;
    last_activity_at = s.last_activity_at;
    revision = revision;
    write_contract_version = live_review_session_write_contract_version;
  }

  -- `sessionFromLiveReviewSessionRow`; `none` where a text does not parse.
  unfoldable pub session_from_row : Row T → Option ReviewSession
  session_from_row row = do
    plans ← codec.parse_plans row.plans_json
    review_state ← parse_optional codec.parse_state row.review_state_json
    execution_result ← parse_optional codec.parse_result row.execution_result_json
    some (record {
      base = record {
        id = row.id;
        token_hash = row.token_hash;
        created_at = row.created_at;
        expires_at = row.expires_at;
        last_activity_at = row.last_activity_at;
      };
      pending_handoff_digest = row.pending_handoff_digest;
      status = row.status;
      plans = plans;
      account = row.account;
      review_state = review_state;
      execution_result = execution_result;
    })

-- `SELECT * … WHERE id = ?`.
unfoldable pub select_row : {T : Type 0} → String → List (Row T) → Option (Row T)
select_row id [] = none
select_row id (row ∷ rows) =
    let rest = select_row id rows in if row.id == id then some row else rest

-- `UPDATE … WHERE id = ? AND test`, with whether a row has changed.
unfoldable pub update_row :
    {T : Type 0} → String → (Row T → Bool) → (Row T → Row T) → List (Row T) → Bool × List (Row T)
update_row id test f [] = (false, [])
update_row id test f (row ∷ rows) =
    let rest = update_row id test f rows in
    if row.id == id
    then (if test row then (true, f row ∷ rows) else (false, row ∷ rows))
    else (rest.0, row ∷ rest.1)

-- The lock in a row, with the revision of the next write.
abbrev pub with_lock : {T : Type 0} → Option String → Row T → Row T
with_lock digest row = record row {
  pending_handoff_digest = digest;
  revision = row.revision + 1;
  write_contract_version = live_review_session_write_contract_version;
}

module _ {T : Type 0} (codec : Codec T) where
  -- `get`; the outer `none` is a throw.
  unfoldable pub get_live : String → List (Row T) → Option (Option ReviewSession)
  unfolding select_row session_from_row
  get_live id rows = elim (select_row id rows) [
    | none ↦ some none
    | some row ↦ elim (session_from_row codec row) [ none ↦ none | some s ↦ some (some s) ]
  ]

  -- `create`, with `insertLiveReviewSessionRow`; `none` where it throws.
  unfoldable pub create_live : String → ReviewSession → List (Row T) → Option (List (Row T))
  unfolding select_row row_of
  create_live id session rows =
      if is_some (select_row id rows) || is_some (select_row session.id rows)
      then none
      else some (rows ++ row_of codec session 0 ∷ [])

  -- `updateLiveReviewSessionRow`.
  unfoldable pub update_live : ℕ → ReviewSession → List (Row T) → Bool × List (Row T)
  unfolding update_row row_of
  update_live expected_revision session =
      update_row session.id (λ row. eqb row.revision expected_revision)
        (λ row. row_of codec session (row.revision + 1))

  -- `commitReviewSessionTransition`; `none` where it throws.
  unfoldable pub commit_live :
      String → ReviewSession → ReviewSession → List (Row T) → Option (Bool × List (Row T))
  unfolding select_row session_from_row update_live same_session
  commit_live id expected next rows = elim (select_row id rows) [
    | none ↦ some (false, rows)
    | some row ↦ elim (session_from_row codec row) [
      | none ↦ none
      | some current ↦
          if same_session current expected
          then some (update_live row.revision next rows)
          else some (false, rows)
    ]
  ]

  -- The session is read again after an update that changed nothing; `none` where that throws.
  abbrev answer_by : Option (Option ReviewSession) → (ReviewSession → Bool) → Option Bool
  answer_by none test = none
  answer_by (some none) test = some false
  answer_by (some (some s)) test = some (test s)

  abbrev acquired : String → String → Bool × List (Row T) → Option (Bool × List (Row T))
  acquired id digest (true, written) = some (true, written)
  acquired id digest (false, same) =
      elim (answer_by (get_live id same) (λ s. same_text s.pending_handoff_digest (some digest))) [
        | none ↦ none
        | some b ↦ some (b, same)
      ]

  -- `acquireHandoffLock`.
  unfoldable pub acquire_live : String → String → List (Row T) → Option (Bool × List (Row T))
  unfolding select_row update_row get_live
  acquire_live id digest rows = elim (select_row id rows) [
    | none ↦ some (false, rows)
    | some row ↦
        if same_text row.pending_handoff_digest (some digest)
        then some (true, rows)
        else acquired id digest (
            update_row id (λ r. not (is_some r.pending_handoff_digest)) (with_lock (some digest))
              rows)
  ]

  -- `releaseHandoffLock`.
  abbrev releases : Option String → Row T → Bool
  releases expected_digest row =
      is_some row.pending_handoff_digest
      && (not (is_some expected_digest) || same_text row.pending_handoff_digest expected_digest)

  abbrev released : String → Bool × List (Row T) → Option (Bool × List (Row T))
  released id (true, written) = some (true, written)
  released id (false, same) =
      elim (answer_by (get_live id same) (λ s. not (is_some s.pending_handoff_digest))) [
        | none ↦ none
        | some b ↦ some (b, same)
      ]

  unfoldable pub release_live : String → Option String → List (Row T) → Option (Bool × List (Row T))
  unfolding update_row get_live
  release_live id expected_digest rows =
      released id (update_row id (releases expected_digest) (with_lock none) rows)
