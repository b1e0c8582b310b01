-- ===== src/Session/World.antt =====
-- The state that the session layer reads and writes, and what it awaits.
use say_ur_intent.Prelude.{
  ◌≡◌, refl, arith, ℕ, ◌+◌, String, Bool, true, false, List, [], ◌∷◌, Option, some, none, Map,
  lookup, if◌then◌else◌, ◌&&◌, time_le, eqb,
}
use Prim.Native.String.{◌++◌}
use say_ur_intent.Host.{Host, Bytes}
use say_ur_intent.Session.Types.{
  SessionStatus, ReviewSession, ReviewState, ActionPlan, ExecutionResult, LocalSessionBase,
}
use say_ur_intent.Receipt.Chain.{Library}
use say_ur_intent.Session.Errors.{Outcome, ok, err}
use say_ur_intent.Session.Material.Data.{MaterialRecord}
use say_ur_intent.Session.Artifacts.{PrivateReviewArtifacts, Evidence}
use say_ur_intent.Session.Wallet.Data.{WalletIdentitySession, WalletIdentityStatus}

-- src/core/eventlog/sink.ts. The status is that of a review or of a wallet identity session.
pub data EventType : Type 0 where
  session_created review_opened wallet_connected : EventType
  wallet_identity_created wallet_identity_opened wallet_identity_connecting : EventType
  wallet_identity_connected wallet_identity_rejected wallet_identity_failed : EventType
  wallet_identity_expired settings_session_created local_sessions_invalidated : EventType
  state_computed handoff_prepared handoff_refused handoff_cancelled : EventType
  sign_requested result_recorded : EventType

pub data EventStatus : Type 0 where
  no_status : EventStatus
  review_status_is : SessionStatus → EventStatus
  wallet_status_is : WalletIdentityStatus → EventStatus

pub record EventLogRecord : Type 0 where
  pub event_type : EventType
  pub session_id : String
  pub plan_id : Option String
  pub wallet_address_hash : Option String
  pub tx_digest : Option String
  pub status : EventStatus
  pub reason : Option String
  pub at : String

-- src/core/session/settingsSession.ts; the `type` field is constant.
pub record SettingsSession : Type 0 where
  pub base : LocalSessionBase
  pub open base use *

pub data TransitionEvent : Type 0 where
  created opened wallet_connected state_computed result_recorded expired : TransitionEvent

-- The inputs of the activity store's four writes: src/core/activity/activityStore.ts.
pub data ActivityWrite : Type 0 where
  review_session : String → ActionPlan → SessionStatus → String → ActivityWrite
  review_transition :
      String
      → TransitionEvent
      → SessionStatus
      → SessionStatus
      → Option String
      → Option String
      → String
      → ActivityWrite
  review_state_snapshot : String → SessionStatus → ReviewState → String → ActivityWrite
  review_execution : String → SessionStatus → ExecutionResult → String → ActivityWrite

-- The maps of the stores, the active account of the activity store, and the event log, newest
-- first.
pub record World : Type 0 where
  pub sessions : Map ReviewSession
  pub artifacts : Map PrivateReviewArtifacts
  pub materials : Map MaterialRecord
  pub wallet_sessions : Map WalletIdentitySession
  pub settings_sessions : Map SettingsSession
  pub active_account : Option String
  pub events : List EventLogRecord

-- The options of the store, and its surroundings.
pub record Env : Type 0 where
  pub host : Host
  -- The library functions that the schema of chain receipts calls.
  pub library : Library
  pub evidence : Evidence
  pub ttl_ms : ℕ
  -- A material store was given.
  pub has_material_store : Bool
  -- `usesActivityStoreLiveSessionMutations`, with an activity store that offers the live writes.
  pub live_mutations : Bool
  -- Whether the event log takes a record. The code logs a failure and goes on.
  pub log_accepts : EventLogRecord → Bool
  -- An awaited activity write: its outcome, and the state when the caller goes on. Other requests
  -- may have run meanwhile.
  pub activity_write : ActivityWrite → World → Outcome (Unit {0}) × World

-- An operation on the state that may throw. What was written before the throw stays.
abbrev pub Op : Type 0 → Type 0
Op A = World → Outcome A × World

infixl 5 ◌>>=◌ ◌>>◌
unfoldable pub ◌>>=◌ : {A B : Type 0} → Op A → (A → Op B) → Op B
◌>>=◌ m f w = elim (m w).0 [ ok a ↦ f a (m w).1 | err e ↦ (err e, (m w).1) ]

abbrev pub ◌>>◌ : {A B : Type 0} → Op A → Op B → Op B
m >> k = m >>= λ _. k

unfoldable pub return : {A : Type 0} → A → Op A
return a w = (ok a, w)

-- A step that the state does not enter.
unfoldable pub lift : {A : Type 0} → Outcome A → Op A
lift r w = (r, w)

-- A write.
unfoldable pub modify : (World → World) → Op (Unit {0})
modify f w = (ok tt, f w)

-- `if`, between operations.
unfoldable pub branch : {A : Type 0} → Bool → Op A → Op A → Op A
branch true m n w = m w
branch false m n w = n w

-- `sessions.get(id)`, with an answer for a missing session.
unfoldable pub with_session : {A : Type 0} → String → Outcome A → (ReviewSession → Op A) → Op A
with_session id missing f w = elim (lookup id w.sessions) [ none ↦ (missing, w) | some s ↦ f s w ]

-- `try` with a `catch` that may write, and may throw again.
unfoldable pub catching : {A : Type 0} → (Outcome A × World → Outcome A × World) → Op A → Op A
catching handler m w = handler (m w)

-- `appendEventLog`, as one step: what other requests do during the awaited append is left out.
unfoldable pub append_event_log : Env → EventLogRecord → World → World
append_event_log env r w = if env.log_accepts r then record w { events = r ∷ w.events } else w

-- An event with the given type, session and time, and nothing else.
abbrev pub plain_event : EventType → String → String → EventLogRecord
plain_event t session_id at = record {
  event_type = t;
  session_id = session_id;
  plan_id = none;
  wallet_address_hash = none;
  tx_digest = none;
  status = no_status;
  reason = none;
  at = at;
}

-- `createLocalSessionBase`; `id` and `token` are the random texts.
unfoldable pub create_local_session_base : Host → String → String → ℕ → ℕ → LocalSessionBase
create_local_session_base host id token now ttl_ms =
    let created_at = host.to_iso now in
    record {
      id = id;
      token_hash = host.sha256_hex token;
      created_at = created_at;
      expires_at = host.to_iso (now + ttl_ms);
      last_activity_at = created_at;
    }

same_bytes : Bytes → Bytes → Bool
same_bytes [] [] = true
same_bytes (a ∷ xs) (b ∷ bs) = eqb a b && same_bytes xs bs
same_bytes _ _ = false

-- `tokenMatchesHash`.
unfoldable pub token_matches_hash : Host → String → String → Bool
unfolding same_bytes
token_matches_hash host token_hash token =
    same_bytes (host.hex_bytes token_hash) (host.hex_bytes (host.sha256_hex token))

same_bytes_refl : (bs : Bytes) → same_bytes bs bs ≡ true
unfolding same_bytes
same_bytes_refl [] = refl
same_bytes_refl (b ∷ bs) = ground (arith, same_bytes_refl bs)

-- A token matches its own hash.
pub token_matches_hash_refl :
    (host : Host) (token : String) → token_matches_hash host (host.sha256_hex token) token ≡ true
unfolding token_matches_hash
token_matches_hash_refl host token = same_bytes_refl (host.hex_bytes (host.sha256_hex token))

-- `isLocalSessionExpired`.
unfoldable pub is_local_session_expired : Host → LocalSessionBase → ℕ → Bool
is_local_session_expired host base now = time_le (host.parse_date base.expires_at) (some now)

-- `hashEventValue`.
unfoldable pub hash_event_value : Host → String → String
hash_event_value host value = "sha256:" ++ host.sha256_hex value
