-- ===== src/Session/Settings.antt =====
-- `SettingsSessionManager` of src/core/session/settingsSessions.ts, over its in-memory record
-- store. An expired session is deleted when it is read.
pub mod Lifetime
use say_ur_intent.Prelude.{
  ℕ, String, Bool, false, Option, some, none, lookup, insert, delete, if◌then◌else◌,
}
use say_ur_intent.Session.World.{
  World, Env, SettingsSession, EventType, plain_event, append_event_log, create_local_session_base,
  token_matches_hash, is_local_session_expired,
}

-- `create`; `id` and `token` are the random texts.
unfoldable pub create_settings_session :
    Env → String → String → ℕ → World → (SettingsSession × String) × World
create_settings_session env id token now w =
    let session : SettingsSession = record {
      base = create_local_session_base env.host id token now env.ttl_ms;
    } in
    (
      (session, token),
      append_event_log env (plain_event EventType.settings_session_created id (env.host.to_iso now))
          (record w { settings_sessions = insert id session w.settings_sessions }),
    )

-- `get`.
unfoldable pub get_settings_session : Env → String → ℕ → World → Option SettingsSession × World
get_settings_session env id now w = elim (lookup id w.settings_sessions) [
  | none ↦ (none, w)
  | some s ↦
      if is_local_session_expired env.host s.base now
      then (none, record w { settings_sessions = delete id w.settings_sessions })
      else (some s, w)
]

-- `validateToken`.
unfoldable pub validate_settings_token : Env → String → String → ℕ → World → Bool × World
unfolding get_settings_session
validate_settings_token env id token now w =
    let (found, w') = get_settings_session env id now w in
    elim found [
      | none ↦ (false, w')
      | some s ↦ (token_matches_hash env.host s.token_hash token, w')
    ]
