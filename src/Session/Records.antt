-- ===== src/Session/Records.antt =====
-- Live review-session records: src/core/session/sessionRecordStore.ts (the in-memory store), and
-- the conditional write of src/core/activity/sqliteActivityStore.ts.
pub mod Lock
pub mod Update
use say_ur_intent.Prelude.{
  String, Bool, true, false, Option, some, none, Map, lookup, insert, if◌then◌else◌, ◌==◌, ◌&&◌,
  not, is_some, same_text,
}
use say_ur_intent.Session.Types.{ReviewSession, same_session}

-- `create`, which throws if the id is taken: `none`.
unfoldable pub create_record :
    String → ReviewSession → Map ReviewSession → Option (Map ReviewSession)
create_record id session m = elim (lookup id m) [
  | some old ↦ none
  | none ↦ some (insert id session m)
]

-- `commitReviewSessionTransition`: a write on the condition that the record is still the
-- expected one; `none` where the source returns `false`.
unfoldable pub commit_record :
    String → ReviewSession → ReviewSession → Map ReviewSession → Option (Map ReviewSession)
unfolding same_session
commit_record id expected next m = elim (lookup id m) [
  | none ↦ none
  | some current ↦ if same_session current expected then some (insert id next m) else none
]

-- Whether the lock is free or held for `digest`.
abbrev pub lock_open : Option String → String → Bool
lock_open none digest = true
lock_open (some held) digest = held == digest

unfoldable pub acquire_handoff_lock : String → String → Map ReviewSession → Bool × Map ReviewSession
acquire_handoff_lock id digest m = elim (lookup id m) [
  | none ↦ (false, m)
  | some s ↦
      if lock_open s.pending_handoff_digest digest
      then (true, insert id (record s { pending_handoff_digest = some digest }) m)
      else (false, m)
]

unfoldable pub release_handoff_lock :
    String → Option String → Map ReviewSession → Bool × Map ReviewSession
release_handoff_lock id expected_digest m = elim (lookup id m) [
  | none ↦ (false, m)
  | some s ↦
      if is_some expected_digest && not (same_text s.pending_handoff_digest expected_digest)
      then (false, m)
      else if not (is_some s.pending_handoff_digest)
      then (true, m)
      else (true, insert id (record s { pending_handoff_digest = none }) m)
]
