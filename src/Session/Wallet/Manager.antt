-- ===== src/Session/Wallet/Manager.antt =====
-- `WalletIdentitySessionManager` of src/core/session/walletIdentitySessions.ts, over its
-- in-memory record store (src/core/session/keyedRecordStore.ts).
use say_ur_intent.Prelude.{
  ℕ, String, Bool, true, false, Option, some, none, List, [], ◌∷◌, lookup, insert, keys, ◌&&◌, not,
  if◌then◌else◌,
}
use say_ur_intent.Session.Errors.{ErrorCode, Outcome, ok, err, fail}
use say_ur_intent.Session.Wallet.Data.{
  WalletIdentitySession, WalletIdentityStatus, WalletIdentityResult, same_wallet_status,
  is_terminal_wallet_identity_status, is_no_compatible_wallet, parse_wallet_result,
  parse_wallet_session,
}
use say_ur_intent.Session.World.{
  World, Env, Op, ◌>>=◌, ◌>>◌, return, lift, branch, EventType, EventLogRecord, wallet_status_is,
  plain_event, append_event_log, create_local_session_base, token_matches_hash, hash_event_value,
  is_local_session_expired,
}

-- `ALLOWED_WALLET_IDENTITY_TRANSITIONS`.
unfoldable pub wallet_transition_allowed : WalletIdentityStatus → WalletIdentityStatus → Bool
wallet_transition_allowed WalletIdentityStatus.pending WalletIdentityStatus.opened = true
wallet_transition_allowed WalletIdentityStatus.pending WalletIdentityStatus.expired = true
wallet_transition_allowed WalletIdentityStatus.opened WalletIdentityStatus.connecting = true
wallet_transition_allowed WalletIdentityStatus.opened WalletIdentityStatus.failed = true
wallet_transition_allowed WalletIdentityStatus.opened WalletIdentityStatus.expired = true
wallet_transition_allowed WalletIdentityStatus.connecting WalletIdentityStatus.connected = true
wallet_transition_allowed WalletIdentityStatus.connecting WalletIdentityStatus.rejected = true
wallet_transition_allowed WalletIdentityStatus.connecting WalletIdentityStatus.failed = true
wallet_transition_allowed WalletIdentityStatus.connecting WalletIdentityStatus.expired = true
wallet_transition_allowed _ _ = false

-- `transitionWalletIdentity`.
unfoldable pub transition_wallet_identity :
    WalletIdentitySession → WalletIdentityStatus → Outcome WalletIdentitySession
unfolding wallet_transition_allowed same_wallet_status
transition_wallet_identity session next =
    if same_wallet_status session.status next
    then ok session
    else if wallet_transition_allowed session.status next
    then ok (record session { status = next })
    else fail ErrorCode.invalid_session_transition

-- `this.sessions.set`.
abbrev store : String → WalletIdentitySession → World → World
store id s w = record w { wallet_sessions = insert id s w.wallet_sessions }

abbrev touch_wallet : WalletIdentitySession → String → WalletIdentitySession
touch_wallet s at = record s { base = record (s.base) { last_activity_at = at } }

abbrev wallet_event : EventType → String → WalletIdentityStatus → String → EventLogRecord
wallet_event t id status at = record (plain_event t id at) { status = wallet_status_is status }

-- `create`; `id` and `token` are the random texts.
unfoldable pub create_wallet_session :
    Env → String → String → ℕ → World → (WalletIdentitySession × String) × World
unfolding create_local_session_base
create_wallet_session env id token now w =
    let session : WalletIdentitySession = record {
      base = create_local_session_base env.host id token now env.ttl_ms;
      status = WalletIdentityStatus.pending;
      account = none;
      chain = none;
      wallet_name = none;
      wallet_id = none;
      failure_reason = none;
      failure_detail = none;
    } in
    (
      (session, token),
      append_event_log env
          (wallet_event EventType.wallet_identity_created id session.status (env.host.to_iso now))
          (store id session w),
    )

-- `expire`.
unfoldable pub expire_wallet_session :
    Env → String → WalletIdentitySession → ℕ → Op WalletIdentitySession
unfolding transition_wallet_identity
expire_wallet_session env id session now w =
    elim (transition_wallet_identity session WalletIdentityStatus.expired) [
      | err e ↦ (err e, w)
      | ok next ↦ (
        ok next,
        store id next (
            append_event_log env
              (wallet_event EventType.wallet_identity_expired id next.status (env.host.to_iso now))
              w),
      )
    ]

unfoldable pub wallet_has_lapsed : Env → WalletIdentitySession → ℕ → Bool
wallet_has_lapsed env session now =
    is_local_session_expired env.host session.base now
    && not (is_terminal_wallet_identity_status session.status)

-- `sessions.get(id)`, with an answer for a missing session.
unfoldable pub with_wallet :
    {A : Type 0} → String → Outcome A → (WalletIdentitySession → Op A) → Op A
with_wallet id missing f w = elim (lookup id w.wallet_sessions) [
  | none ↦ (missing, w)
  | some s ↦ f s w
]

-- `get`.
unfoldable pub get_wallet_session : Env → String → ℕ → Op (Option WalletIdentitySession)
get_wallet_session env id now = with_wallet id (ok none) λ session.
    branch (wallet_has_lapsed env session now)
      (do s ← expire_wallet_session env id session now; return (some s)) (return (some session))

unfoldable pub list_wallet_ids : Env → List String → ℕ → Op (List WalletIdentitySession)
list_wallet_ids env [] now = return []
list_wallet_ids env (id ∷ ids) now =
    let rest = list_wallet_ids env ids now in
    do
      found ← get_wallet_session env id now
      others ← rest
      return (elim found [ none ↦ others | some s ↦ s ∷ others ])

-- `list`.
unfoldable pub list_wallet_sessions : Env → ℕ → Op (List WalletIdentitySession)
list_wallet_sessions env now w = list_wallet_ids env (keys w.wallet_sessions) now w

-- `validateToken`.
unfoldable pub validate_wallet_token : Env → String → String → World → Bool
validate_wallet_token env id token w = elim (lookup id w.wallet_sessions) [
  | none ↦ false
  | some s ↦ token_matches_hash env.host s.token_hash token
]

abbrev pub opened_wallet : WalletIdentitySession → Outcome WalletIdentitySession
opened_wallet session =
    if same_wallet_status session.status WalletIdentityStatus.pending
    then transition_wallet_identity session WalletIdentityStatus.opened
    else ok session

-- The event and the write that end `recordOpened` and `recordConnecting`.
unfoldable pub save_touched :
    Env → EventType → String → ℕ → Outcome WalletIdentitySession → Op WalletIdentitySession
save_touched env t id now (err e) w = (err e, w)
save_touched env t id now (ok moved) w =
    let at = env.host.to_iso now in
    let next = touch_wallet moved at in
    (ok next, store id next (append_event_log env (wallet_event t id next.status at) w))

-- `recordOpened`.
unfoldable pub record_wallet_opened : Env → String → ℕ → Op WalletIdentitySession
record_wallet_opened env id now = with_wallet id (fail ErrorCode.session_not_found) λ session.
    branch (wallet_has_lapsed env session now) (expire_wallet_session env id session now) (
      branch (is_terminal_wallet_identity_status session.status) (return session)
        (save_touched env EventType.wallet_identity_opened id now (opened_wallet session)))

-- `requireMutable`.
unfoldable pub require_mutable_wallet : Env → String → ℕ → Op WalletIdentitySession
require_mutable_wallet env id now = with_wallet id (fail ErrorCode.session_not_found) λ session.
    branch (wallet_has_lapsed env session now)
      (do expire_wallet_session env id session now; lift (fail ErrorCode.session_expired))
      (branch (is_terminal_wallet_identity_status session.status)
        (lift (fail ErrorCode.invalid_session_transition)) (return session))

-- `recordConnecting`.
unfoldable pub record_wallet_connecting : Env → String → ℕ → Op WalletIdentitySession
record_wallet_connecting env id now = do
  session ← require_mutable_wallet env id now
  save_touched env EventType.wallet_identity_connecting id now (
      if not (same_wallet_status session.status WalletIdentityStatus.connecting)
      then transition_wallet_identity session WalletIdentityStatus.connecting
      else ok session)

-- `Object.assign(nextSession, parsed.data)`: the fields that came with the result are written.
abbrev assign : {A : Type 0} → Option A → Option A → Option A
assign none old = old
assign (some a) old = some a

-- The session that `recordResult` writes, with its checks, and the result as parsed.
unfoldable pub settle_wallet :
    Env
    → WalletIdentitySession
    → WalletIdentityResult
    → ℕ
    → Outcome (WalletIdentitySession × WalletIdentityResult)
unfolding transition_wallet_identity
settle_wallet env session result now = elim (parse_wallet_result env.host result) [
  | none ↦ fail ErrorCode.input_invalid
  | some parsed ↦
      if same_wallet_status session.status WalletIdentityStatus.opened
        && same_wallet_status parsed.status WalletIdentityStatus.failed
        && not (is_no_compatible_wallet parsed.failure_reason)
      then fail ErrorCode.invalid_session_transition
      else elim (transition_wallet_identity session parsed.status) [
        | err e ↦ err e
        | ok moved ↦
            let next =
              touch_wallet
                (record moved {
                  account = assign parsed.account moved.account;
                  chain = assign parsed.chain moved.chain;
                  wallet_name = assign parsed.wallet_name moved.wallet_name;
                  wallet_id = assign parsed.wallet_id moved.wallet_id;
                  failure_reason = assign parsed.failure_reason moved.failure_reason;
                  failure_detail = assign parsed.failure_detail moved.failure_detail;
                })
                (env.host.to_iso now) in
            if parse_wallet_session env.host next
            then ok (next, parsed)
            else fail ErrorCode.input_invalid
      ]
]

abbrev result_event : WalletIdentityStatus → EventType
result_event WalletIdentityStatus.connected = EventType.wallet_identity_connected
result_event WalletIdentityStatus.rejected = EventType.wallet_identity_rejected
result_event _ = EventType.wallet_identity_failed

abbrev hash_account : Env → Option String → Option String
hash_account env none = none
hash_account env (some a) = some (hash_event_value env.host a)

-- `setActiveAccount`, for a connected wallet.
activate : WalletIdentityResult → World → World
activate parsed w =
    if same_wallet_status parsed.status WalletIdentityStatus.connected
    then record w { active_account = parsed.account }
    else w

-- The writes that end `recordResult`.
unfoldable pub save_settled :
    Env → String → ℕ → WalletIdentitySession × WalletIdentityResult → Op WalletIdentitySession
unfolding activate
save_settled env id now (next, parsed) w = (
  ok next,
  append_event_log env
      (record (wallet_event (result_event parsed.status) id next.status (env.host.to_iso now)) {
        wallet_address_hash = hash_account env parsed.account;
      })
      (store id next (activate parsed w)),
)

-- `recordResult`. `setActiveAccount` of the activity store is taken to succeed.
unfoldable pub record_wallet_result :
    Env → String → WalletIdentityResult → ℕ → Op WalletIdentitySession
record_wallet_result env id result now = do
  session ← require_mutable_wallet env id now
  settled ← lift (settle_wallet env session result now)
  save_settled env id now settled
