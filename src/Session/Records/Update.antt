-- ===== src/Session/Records/Update.antt =====
-- Laws of the conditional update of src/core/session/sessionRecordStore.ts.
use say_ur_intent.Prelude.{
  String, some, none, Map, lookup, insert, lookup-insert, ◌≡◌, arith, ◌==◌, eq_iff, ◌≢◌,
  Option-cases, inl, inr, if◌then◌else◌,
}
use say_ur_intent.Session.Types.{ReviewSession, same_session_iff}
use say_ur_intent.Session.Records.{commit_record}

pub commit_record-some :
    (id : String) (expected next : ReviewSession) (m m' : Map ReviewSession)
    → commit_record id expected next m ≡ some m'
    → (lookup id m ≡ some expected) × (m' ≡ insert id next m)
unfolding commit_record
commit_record-some id expected next m m' e = elim (Option-cases (lookup id m)) [
  | inl n ↦ absurd (ground arith)
  | inr (s, found) ↦ ground (arith, same_session_iff s expected)
]

pub commit_record-fresh :
    (id : String) (expected next : ReviewSession) (m : Map ReviewSession)
    → lookup id m ≡ some expected
    → commit_record id expected next m ≡ some (insert id next m)
unfolding commit_record
commit_record-fresh id expected next m found = ground (arith, same_session_iff expected expected)

commit_record-stale :
    (id : String) (expected next current : ReviewSession) (m : Map ReviewSession)
    → lookup id m ≡ some current
    → current ≢ expected
    → commit_record id expected next m ≡ none
unfolding commit_record
commit_record-stale id expected next current m found ne =
    ground (arith, same_session_iff current expected)

-- Of two requests that start from the same stored session, and of which the first changes it,
-- only the first commits; the second is refused whatever it would write. Between them the record
-- reads as the first left it, and every other record as before.
pub commit_record-no_lost_update :
    (id : String) (expected first second : ReviewSession) (m m' : Map ReviewSession)
    → first ≢ expected
    → commit_record id expected first m ≡ some m'
    → (commit_record id expected second m' ≡ none)
      × ((k : String) → lookup k m' ≡ (if id == k then some first else lookup k m))
commit_record-no_lost_update id expected first second m m' ne e =
    let (found, written) = commit_record-some id expected first m m' e in
    rw written (
      commit_record-stale id expected second first (insert id first m)
          (ground (arith, lookup-insert id id first m, eq_iff id id)) ne,
      λ k. lookup-insert k id first m,
    )
