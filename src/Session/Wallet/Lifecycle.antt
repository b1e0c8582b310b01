-- ===== src/Session/Wallet/Lifecycle.antt =====
-- Laws of `WalletIdentitySessionManager`: src/core/session/walletIdentitySessions.ts.
use say_ur_intent.Prelude.{ℕ, String, true, false, some, lookup, ◌≡◌, arith}
use say_ur_intent.Session.Errors.{ErrorCode, ok, fail}
use say_ur_intent.Session.World.{World, Env, ◌>>=◌, return, lift, branch}
use say_ur_intent.Session.Wallet.Data.{
  WalletIdentitySession, WalletIdentityResult, is_terminal_wallet_identity_status,
}
use say_ur_intent.Session.Wallet.Manager.{
  get_wallet_session, record_wallet_opened, record_wallet_connecting, record_wallet_result,
  with_wallet, wallet_has_lapsed, require_mutable_wallet,
}

over_never_lapses :
    (env : Env) (s : WalletIdentitySession) (now : ℕ)
    → is_terminal_wallet_identity_status s.status ≡ true
    → wallet_has_lapsed env s now ≡ false
unfolding wallet_has_lapsed
over_never_lapses env s now h = ground arith

-- A wallet identity session that is connected, rejected, failed or expired stays as it is: it is
-- read and opened without a change, also after its expiry time, and a connection or a result is
-- refused without a change.
pub terminal_stays :
    (env : Env) (id : String) (r : WalletIdentityResult) (now : ℕ) (w : World)
    (s : WalletIdentitySession)
    → lookup id w.wallet_sessions ≡ some s
    → is_terminal_wallet_identity_status s.status ≡ true
    → (get_wallet_session env id now w ≡ (ok (some s), w))
      × (record_wallet_opened env id now w ≡ (ok s, w))
      × (record_wallet_connecting env id now w ≡ (fail ErrorCode.invalid_session_transition, w))
      × (record_wallet_result env id r now w ≡ (fail ErrorCode.invalid_session_transition, w))
unfolding get_wallet_session record_wallet_opened record_wallet_connecting record_wallet_result
    require_mutable_wallet with_wallet branch ◌>>=◌ lift return
terminal_stays env id r now w s found over =
    let live = over_never_lapses env s now over in
    (ground arith, ground arith, ground arith, ground arith)
