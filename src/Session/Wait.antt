-- ===== src/Session/Wait.antt =====
-- Waiting for a session: src/core/session/wait.ts. `waitForWalletIdentitySession` and
-- `waitForExecutionResult` are one loop over what they read and where they stop.
pub mod Termination
use say_ur_intent.Prelude.{
  ℕ, zero, suc, ◌+◌, ◌-◌, ◌*◌, min, String, Bool, true, false, Option, some, none, if◌then◌else◌,
  ltb,
}
use say_ur_intent.Session.Types.{ReviewSession}
use say_ur_intent.Session.Errors.{ErrorCode, Thrown, Outcome, ok, err, fail, other_error}
use say_ur_intent.Session.Status.{
  PollingStatus, get_execution_polling_status, is_wait_stopping_execution_status,
}
use say_ur_intent.Session.Wallet.Data.{WalletIdentitySession, is_terminal_wallet_identity_status}
use say_ur_intent.Session.Wallet.Manager.{get_wallet_session}
use say_ur_intent.Session.Store.Reading.{get_review_session}
use say_ur_intent.Session.World.{World, Env, Op}

abbrev pub default_wait_timeout_ms : ℕ
default_wait_timeout_ms = 45000

pub data WaitOutcome : Type 0 where
  status_reached timed_out : WaitOutcome

-- What goes on around the waiting request, by rounds: whether its signal is aborted before the
-- sleep or during it, how much longer than asked the sleep takes, what other requests do
-- meanwhile, and the time that the read is given.
pub record Around : Type 0 where
  pub aborted : ℕ → Bool
  pub aborted_asleep : ℕ → Bool
  pub delay : ℕ → ℕ
  pub meanwhile : ℕ → World → World
  pub now : ℕ → ℕ

-- `getRequiredReviewSession` and `getRequiredWalletIdentitySession`.
unfoldable pub required : {S : Type 0} → Op (Option S) → Op S
required read w = elim (read w).0 [
  | err e ↦ (err e, (read w).1)
  | ok found ↦ elim found [
    | none ↦ (fail ErrorCode.session_not_found, (read w).1)
    | some s ↦ (ok s, (read w).1)
  ]
]

module _ {S : Type 0} (around : Around) (timeout_ms : ℕ) (interval_ms : ℕ) (stops : S → Bool)
    (read : ℕ → Op S) where
  -- The `while` loop: `elapsed` is `Date.now() - startedAt`. No fuel is `none`.
  unfoldable pub wait_loop : ℕ → ℕ → ℕ → S → World → Option (Outcome (WaitOutcome × S) × World)
  wait_loop zero round elapsed session w = none
  wait_loop (suc fuel) round elapsed session w =
      let next = around.meanwhile round w in
      let later = elapsed + min (timeout_ms - elapsed) interval_ms + around.delay round in
      let answer = read round next in
      let rest = λ (s : S). wait_loop fuel (round + 1) later s answer.1 in
      if ltb elapsed timeout_ms
      then (if around.aborted round
          then some (err other_error, w)
          else if around.aborted_asleep round
          then some (err other_error, next)
          else elim answer.0 [
            | err e ↦ some (err e, answer.1)
            | ok s ↦ if stops s then some (ok (status_reached, s), answer.1) else rest s
          ])
      else some (ok (timed_out, session), w)

  -- The first read, and the loop with fuel for every round: each takes a millisecond at least.
  unfoldable pub wait : Op S → World → Option (Outcome (WaitOutcome × S) × World)
  unfolding wait_loop
  wait first w = if around.aborted 0 then some (err other_error, w) else elim (first w).0 [
    | err e ↦ some (err e, (first w).1)
    | ok s ↦
        if stops s
        then some (ok (status_reached, s), (first w).1)
        else wait_loop (suc timeout_ms) 1 0 s (first w).1
  ]

-- `waitForExecutionResult`, polling every 3 seconds.
unfoldable pub wait_for_execution_result :
    Env → Around → ℕ → String → World → Option (Outcome (WaitOutcome × ReviewSession) × World)
unfolding wait
wait_for_execution_result env around timeout_ms id =
    wait around timeout_ms (3 * 1000)
      (λ s. is_wait_stopping_execution_status (get_execution_polling_status s))
      (λ round. required (get_review_session env id (around.now round)))
      (required (get_review_session env id (around.now 0)))

-- `waitForWalletIdentitySession`, polling every 5 seconds.
unfoldable pub wait_for_wallet_identity_session :
    Env
    → Around
    → ℕ
    → String
    → World
    → Option (Outcome (WaitOutcome × WalletIdentitySession) × World)
unfolding wait
wait_for_wallet_identity_session env around timeout_ms id =
    wait around timeout_ms (5 * 1000) (λ s. is_terminal_wallet_identity_status s.status)
      (λ round. required (get_wallet_session env id (around.now round)))
      (required (get_wallet_session env id (around.now 0)))
