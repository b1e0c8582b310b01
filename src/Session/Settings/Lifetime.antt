-- ===== src/Session/Settings/Lifetime.antt =====
-- How long a settings session and its token are good.
use say_ur_intent.Prelude.{
  ℕ, ◌+◌, ◌<◌, ◌≤◌, String, true, false, some, none, lookup, lookup-insert, lookup-delete, delete,
  ◌≡◌, refl, ap, ◌∙◌, Map, arith, eq_iff,
}
use say_ur_intent.Host.{ReadsBack}
use say_ur_intent.Session.World.{
  World, Env, SettingsSession, append_event_log, create_local_session_base,
  is_local_session_expired, token_matches_hash_refl,
}
use say_ur_intent.Session.Settings.{
  create_settings_session, get_settings_session, validate_settings_token,
}

removed : (id : String) (m : Map SettingsSession) → lookup id (delete id m) ≡ none
removed id m = ground (arith, lookup-delete id id m, eq_iff id id)

created :
    (env : Env) (id token : String) (at : ℕ) (w : World)
    → (lookup id (create_settings_session env id token at w).1.settings_sessions
        ≡ some (create_settings_session env id token at w).0.0)
      × ((create_settings_session env id token at w).0.0.expires_at
          ≡ env.host.to_iso (at + env.ttl_ms))
      × ((create_settings_session env id token at w).0.0.token_hash ≡ env.host.sha256_hex token)
unfolding create_settings_session append_event_log create_local_session_base
created env id token at w =
    let base = create_local_session_base env.host id token at env.ttl_ms in
    (
      ground
          (arith, lookup-insert id id (record { base = base }) w.settings_sessions, eq_iff id id),
      refl,
      refl,
    )

-- A stored session with this expiry is read unchanged before it, and removed from then on.
validated :
    (env : Env) (id token : String) (now until : ℕ) (w : World) (s : SettingsSession)
    → ReadsBack env.host
    → lookup id w.settings_sessions ≡ some s
    → s.expires_at ≡ env.host.to_iso until
    → s.token_hash ≡ env.host.sha256_hex token
    → (now < until → validate_settings_token env id token now w ≡ (true, w))
      × (until ≤ now
          → validate_settings_token env id token now w
            ≡ (false, record w { settings_sessions = delete id w.settings_sessions }))
unfolding validate_settings_token get_settings_session is_local_session_expired
validated env id token now until w s back found dated own =
    let matches = token_matches_hash_refl env.host token in
    let date : env.host.parse_date s.expires_at ≡ some until = ground (arith, back until) in
    (λ live. ground arith, λ over. ground arith)

-- The token of a new settings session is good for the session's lifetime, and reading it does
-- not change the state; from the expiry on it is refused, and the session is removed.
pub validate-create_settings_session :
    (env : Env) (id token : String) (at now : ℕ) (w : World)
    → ReadsBack env.host
    → let w' = (create_settings_session env id token at w).1 in
      (now < at + env.ttl_ms → validate_settings_token env id token now w' ≡ (true, w'))
      × (at + env.ttl_ms ≤ now
          → ((validate_settings_token env id token now w').0 ≡ false)
            × (lookup id (validate_settings_token env id token now w').1.settings_sessions ≡ none))
validate-create_settings_session env id token at now w back =
    let w' = (create_settings_session env id token at w).1 in
    let s = (create_settings_session env id token at w).0.0 in
    let (found, dated, own) = created env id token at w in
    let (good, bad) = validated env id token now (at + env.ttl_ms) w' s back found dated own in
    (
      good,
      λ over. (
        ap (λ r. r.0) (bad over),
        ap (λ r. lookup id r.1.settings_sessions) (bad over) ∙ removed id w'.settings_sessions,
      ),
    )
