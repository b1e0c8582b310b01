-- ===== src/Session/Finalization/Waiting.antt =====
-- How long finalization (src/core/session/chainReceiptFinalization.ts) leaves a result pending.
use say_ur_intent.Prelude.{ℕ, ◌+◌, ◌<◌, String, true, some, lookup, ◌≡◌}
use say_ur_intent.Session.Types.{
  ReviewSession, ResultBase, ExecutionResult, result_digest, result_status,
}
use say_ur_intent.Session.Errors.{Outcome, ok}
use say_ur_intent.Session.World.{Env, World}
use say_ur_intent.Session.Store.Execution.{is_final_result}
use say_ur_intent.Session.Finalization.{
  VerifySuiChainReceiptInput, not_found, ChainReceiptVerifier, verification_input,
  chain_receipt_lookup_max_age_ms,
}

-- The window for the lookup is open: it ends a fixed time after the result was recorded.
abbrev pub IsWindowOpen : Env → String → ℕ → Type 0
IsWindowOpen env recorded_at now =
    (t : ℕ) × (env.host.parse_date recorded_at ≡ some t)
    × (now < t + chain_receipt_lookup_max_age_ms)

module _ (env : Env) (session : ReviewSession) (b : ResultBase) (d : String) (now : ℕ) where
  -- The verifier, asked about a session that has what it needs, finds no transaction, and the
  -- window is open.
  abbrev pub Waits : ChainReceiptVerifier → Type 0
  Waits verifier =
      (input : VerifySuiChainReceiptInput) × (verification_input session d now ≡ some input)
      × (verifier input ≡ not_found)
      × IsWindowOpen env b.recorded_at now

  IsFinalFor : ExecutionResult → Type 0
  IsFinalFor result = (is_final_result (some result) ≡ true) × (result_digest result ≡ some d)

  -- Recorded from the chain, the answered session has the result and is the stored one.
  abbrev pub IsSettled : ExecutionResult → Outcome ReviewSession × World → Type 0
  IsSettled result after =
      (s' : ReviewSession) × (after.0 ≡ ok s')
      × (s'.execution_result ≡ some result)
      × (s'.status ≡ result_status result)
      × (lookup s'.id after.1.sessions ≡ some s')
