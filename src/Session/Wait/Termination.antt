-- ===== src/Session/Wait/Termination.antt =====
-- The end of the polling loops of src/core/session/wait.ts.
use say_ur_intent.Prelude.{
  ℕ, zero, suc, ◌+◌, ◌-◌, ◌≤◌, ◌<◌, min, Bool, true, false, Option, some, ◌≡◌, arith, ltb,
  Bool-cases, inl, inr,
}
use say_ur_intent.Session.Errors.{Thrown, Outcome, ok, err, Outcome-cases}
use say_ur_intent.Session.World.{World, Op}
use say_ur_intent.Session.Wait.{Around, WaitOutcome, status_reached, timed_out, wait_loop, wait}

-- What an answer says of the session that comes with it.
abbrev pub Reports : {S : Type 0} → (S → Bool) → Outcome (WaitOutcome × S) → Type 0
Reports stops (ok (status_reached, s)) = stops s ≡ true
Reports stops (ok (timed_out, s)) = stops s ≡ false
Reports stops (err e) = Unit {0}

module _ {S : Type 0} (around : Around) (timeout_ms : ℕ) (interval_ms : ℕ) (stops : S → Bool)
    (read : ℕ → Op S) where
  abbrev Answers : Option (Outcome (WaitOutcome × S) × World) → Type 0
  Answers r = (a : Outcome (WaitOutcome × S) × World) × (r ≡ some a) × Reports stops a.0

  -- A round takes a millisecond at least while time is left, so the fuel outlasts the time.
  loop_ends :
      (fuel round elapsed : ℕ) (s : S) (w : World)
      → 0 < interval_ms
      → timeout_ms ≤ fuel + elapsed
      → stops s ≡ false
      → Answers (wait_loop around timeout_ms interval_ms stops read (suc fuel) round elapsed s w)
  unfolding wait_loop
  loop_ends zero round elapsed s w i f n = ((ok (timed_out, s), w), ground arith, n)
  loop_ends (suc fuel) round elapsed s w i f n = elim (Bool-cases (ltb elapsed timeout_ms)) [
    | inr late ↦ ((ok (timed_out, s), w), ground arith, n)
    | inl early ↦ elim (Bool-cases (around.aborted round)) [
      | inl gone ↦ ((err Thrown.other_error, w), ground arith, tt)
      | inr stays ↦ elim (Bool-cases (around.aborted_asleep round)) [
        | inl gone ↦ ((err Thrown.other_error, around.meanwhile round w), ground arith, tt)
        | inr awake ↦ elim (Outcome-cases answer.0) [
          | inr (x, p) ↦ ((err x, answer.1), ground arith, tt)
          | inl (t, p) ↦ elim (Bool-cases (stops t)) [
            | inl reached ↦ ((ok (status_reached, t), answer.1), ground arith, reached)
            | inr going ↦
                let (a, q, h) =
                  loop_ends fuel (round + 1)
                    (elapsed + min (timeout_ms - elapsed) interval_ms + around.delay round) t
                    answer.1 i (ground arith) going in
                (a, ground arith, h)
          ]
        ]
      ]
    ]
  ]
    where
      answer : Outcome S × World
      answer = read round (around.meanwhile round w)

  -- With a positive polling interval a wait always answers, whatever goes on around it: the fuel
  -- of one round for each millisecond of the timeout suffices. It says that a status was reached
  -- only with a session that stops the wait, and that the time is over only with one that does
  -- not.
  pub wait-answers :
      (first : Op S) (w : World)
      → 0 < interval_ms
      → (a : Outcome (WaitOutcome × S) × World) × (wait around timeout_ms interval_ms stops read
            first w
          ≡ some a)
        × Reports stops a.0
  unfolding wait
  wait-answers first w i = elim (Bool-cases (around.aborted 0)) [
    | inl gone ↦ ((err Thrown.other_error, w), ground arith, tt)
    | inr stays ↦ elim (Outcome-cases (first w).0) [
      | inr (x, p) ↦ ((err x, (first w).1), ground arith, tt)
      | inl (t, p) ↦ elim (Bool-cases (stops t)) [
        | inl reached ↦ ((ok (status_reached, t), (first w).1), ground arith, reached)
        | inr going ↦
            let (a, q, h) = loop_ends timeout_ms 1 0 t (first w).1 i (ground arith) going in
            (a, ground arith, h)
      ]
    ]
  ]
