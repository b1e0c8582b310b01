-- ===== src/Session/Sound/Apart.antt =====
-- The invariant of the stored review sessions and the operations on wallet identity and settings sessions.
use say_ur_intent.Prelude.{ℕ, String, Option, some, none, lookup, ◌≡◌, refl, arith, List, [], ◌∷◌}
use say_ur_intent.Session.Errors.{Outcome, ok, err}
use say_ur_intent.Session.Wallet.Data.{WalletIdentitySession, WalletIdentityResult}
use say_ur_intent.Session.Wallet.Manager.{
  create_wallet_session, expire_wallet_session, get_wallet_session, list_wallet_ids, with_wallet,
  record_wallet_opened, record_wallet_connecting, require_mutable_wallet, record_wallet_result,
  save_touched, save_settled,
}
use say_ur_intent.Session.Settings.{
  create_settings_session, get_settings_session, validate_settings_token,
}
use say_ur_intent.Session.World.{World, Env, Op, append_event_log, EventType}
use say_ur_intent.Session.Sound.Predicate.{AllSound}
use say_ur_intent.Session.Sound.Rules.{
  Holds, Ensures, Any, Ensures-bind, Ensures-lift, Ensures-return, Ensures-branch, Ensures-quiet,
  anything,
}

module _ (env : Env) (now : ℕ) where
  expire_wallet-Ensures :
      (id : String) (s : WalletIdentitySession) → Ensures (expire_wallet_session env id s now) Any
  unfolding expire_wallet_session append_event_log
  expire_wallet-Ensures id s = Ensures-quiet _ (λ w. ground arith)

  save_touched-Ensures :
      (id : String) (t : EventType) (r : Outcome WalletIdentitySession)
      → Ensures (save_touched env t id now r) Any
  unfolding save_touched append_event_log
  save_touched-Ensures id t (ok s) = Ensures-quiet _ (λ w. ground arith)
  save_touched-Ensures id t (err e) = Ensures-quiet _ (λ w. refl)

  save_settled-Ensures :
      (id : String) (p : WalletIdentitySession × WalletIdentityResult)
      → Ensures (save_settled env id now p) Any
  unfolding save_settled append_event_log
  save_settled-Ensures id (s, r) = Ensures-quiet _ (λ w. ground arith)

  with_wallet-Ensures :
      {A : Type 0} (id : String) (missing : Outcome A) (f : WalletIdentitySession → Op A)
      → ((s : WalletIdentitySession) → Ensures (f s) Any)
      → Ensures (with_wallet id missing f) Any
  unfolding with_wallet
  with_wallet-Ensures {A} id missing f h = record {
    apply = λ w sound. go w sound (lookup id w.wallet_sessions);
  }
    where
      go :
          (w : World)
          → AllSound w.sessions
          → (found : Option WalletIdentitySession)
          → let next : Outcome A × World = elim found [ none ↦ (missing, w) | some s ↦ f s w ] in
            AllSound next.1.sessions × Holds Any next.0
      go w sound none = (sound, anything missing)
      go w sound (some s) = (h s).apply w sound

  pub get_wallet-Ensures : (id : String) → Ensures (get_wallet_session env id now) Any
  unfolding get_wallet_session
  get_wallet-Ensures id = with_wallet-Ensures id _ _ λ s.
      Ensures-branch _ (λ e. Ensures-bind (expire_wallet-Ensures id s) λ t q. Ensures-return _ tt)
        (λ e. Ensures-return _ tt)

  pub list_wallet_ids-Ensures : (ids : List String) → Ensures (list_wallet_ids env ids now) Any
  unfolding list_wallet_ids
  list_wallet_ids-Ensures [] = Ensures-return [] tt
  list_wallet_ids-Ensures (id ∷ ids) =
      Ensures-bind (get_wallet-Ensures id)
        λ found q. Ensures-bind (list_wallet_ids-Ensures ids) λ others r. Ensures-return _ tt

  pub open_wallet-Ensures : (id : String) → Ensures (record_wallet_opened env id now) Any
  unfolding record_wallet_opened
  open_wallet-Ensures id = with_wallet-Ensures id _ _ λ s.
      Ensures-branch _ (λ e. expire_wallet-Ensures id s)
        λ e. Ensures-branch _ (λ e'. Ensures-return s tt) (λ e'. save_touched-Ensures id _ _)

  mutable_wallet-Ensures : (id : String) → Ensures (require_mutable_wallet env id now) Any
  unfolding require_mutable_wallet
  mutable_wallet-Ensures id = with_wallet-Ensures id _ _ λ s.
      Ensures-branch _ (λ e. Ensures-bind (expire_wallet-Ensures id s) λ t q. Ensures-lift _ tt)
        λ e. Ensures-branch _ (λ e'. Ensures-lift _ tt) (λ e'. Ensures-return s tt)

  pub connect_wallet-Ensures : (id : String) → Ensures (record_wallet_connecting env id now) Any
  unfolding record_wallet_connecting
  connect_wallet-Ensures id =
      Ensures-bind (mutable_wallet-Ensures id) λ s q. save_touched-Ensures id _ _

  pub settle_wallet-Ensures :
      (id : String) (r : WalletIdentityResult) → Ensures (record_wallet_result env id r now) Any
  unfolding record_wallet_result
  settle_wallet-Ensures id r =
      Ensures-bind (mutable_wallet-Ensures id) λ s q.
        Ensures-bind (Ensures-lift {Q = Any} _ (anything _)) λ p q'. save_settled-Ensures id p

pub create_wallet-sessions :
    (env : Env) (id token : String) (now : ℕ) (w : World)
    → (create_wallet_session env id token now w).1.sessions ≡ w.sessions
unfolding create_wallet_session append_event_log
create_wallet-sessions env id token now w = ground arith

pub create_settings-sessions :
    (env : Env) (id token : String) (now : ℕ) (w : World)
    → (create_settings_session env id token now w).1.sessions ≡ w.sessions
unfolding create_settings_session append_event_log
create_settings-sessions env id token now w = ground arith

pub validate_settings-sessions :
    (env : Env) (id token : String) (now : ℕ) (w : World)
    → (validate_settings_token env id token now w).1.sessions ≡ w.sessions
unfolding validate_settings_token get_settings_session
validate_settings-sessions env id token now w = ground arith
