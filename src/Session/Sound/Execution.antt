-- ===== src/Session/Sound/Execution.antt =====
-- The invariant of the stored review sessions and the operations of Session/Store/Execution.
use say_ur_intent.Prelude.{ℕ, String, true, false, some, ◌≡◌, refl, arith}
use say_ur_intent.Session.Types.{ReviewSession, ExecutionResult, result_status}
use say_ur_intent.Session.Errors.{Outcome, ok, err}
use say_ur_intent.Session.Status.{transition}
use say_ur_intent.Session.World.{World, Env, modify}
use say_ur_intent.Session.Store.Commit.{delete_materials}
use say_ur_intent.Session.Store.Execution.{
  parse_execution_result, Decision, refuse, refuse_dropping, repeat, write, settle, decide_result,
  drop_on_error, write_result, carry_out, record_result_internal, record_execution_result,
  record_chain_execution_result,
}
use say_ur_intent.Session.Sound.Predicate.{IsSound, result_fits}
use say_ur_intent.Session.Sound.Rules.{
  Holds, Ensures, Any, anything, Ensures-bind, Ensures-lift, Ensures-return, Ensures-modify,
  Ensures-branch, Ensures-catching,
}
use say_ur_intent.Session.Sound.Commit.{Respects, delete_materials-sessions}
use say_ur_intent.Session.Sound.Reading.{
  IsSound-named, record_transition-Ensures, log-Ensures, require_mutable-Ensures,
}

-- A result that passed the schema: the receipt of a success is about its digest.
abbrev IsParsed : ExecutionResult → Type 0
IsParsed r = result_fits (result_status r) (some r) ≡ true

parse-IsParsed : (env : Env) (r : ExecutionResult) → Holds IsParsed (parse_execution_result env r)
unfolding parse_execution_result
parse-IsParsed env (ExecutionResult.signed_pending_result b d) = ground arith
parse-IsParsed env (ExecutionResult.success b d r) = ground arith
parse-IsParsed env (ExecutionResult.failure b d f r) = ground arith

abbrev WritesSound : String → Decision → Type 0
WritesSound id (write next account) = IsSound id next
WritesSound id _ = Unit {0}

settle_sound :
    (id at : String) (s : ReviewSession) (r : ExecutionResult)
    → IsSound id s
    → IsParsed r
    → WritesSound id (settle s r at)
unfolding settle transition
settle_sound id at s r h p = ground arith

decide_sound :
    (id at : String) (s : ReviewSession) (r : ExecutionResult)
    → IsSound id s
    → IsParsed r
    → WritesSound id (decide_result s r at)
unfolding decide_result
decide_sound id at s r h p = ground (arith, settle_sound id at s r h p)

module _ (env : Env) (respects : Respects env) (id : String) where
  write_result-Ensures :
      (s next : ReviewSession) (r : ExecutionResult) (account at : String)
      → IsSound id next
      → Ensures (write_result env id s next r account at) (IsSound id)
  unfolding write_result
  write_result-Ensures s next r account at h =
      Ensures-bind
        (record_transition-Ensures env _ s next _ false respects (IsSound-named id next h))
        λ u q. Ensures-bind (log-Ensures env _) λ v q'. Ensures-return next h

  drop_on_error-sessions :
      (r : Outcome ReviewSession) (w : World)
      → (drop_on_error env id (r, w)).1.sessions ≡ w.sessions
  unfolding drop_on_error
  drop_on_error-sessions (ok s) w = refl
  drop_on_error-sessions (err e) w = delete_materials-sessions env id w

  drop_on_error-answer :
      (r : Outcome ReviewSession) (w : World)
      → Holds (IsSound id) r
      → Holds (IsSound id) (drop_on_error env id (r, w)).0
  unfolding drop_on_error
  drop_on_error-answer (ok s) w q = q
  drop_on_error-answer (err e) w q = tt

  pub deleting-Ensures : Ensures (modify (delete_materials env id)) Any
  deleting-Ensures = Ensures-modify _ (delete_materials-sessions env id)

  carry_out-Ensures :
      (s : ReviewSession) (r : ExecutionResult) (at : String) (d : Decision)
      → IsSound id s
      → WritesSound id d
      → Ensures (carry_out env id s r at d) (IsSound id)
  unfolding carry_out
  carry_out-Ensures s r at (refuse code) h q = Ensures-lift _ tt
  carry_out-Ensures s r at (refuse_dropping code) h q =
      Ensures-bind deleting-Ensures λ u v. Ensures-lift _ tt
  carry_out-Ensures s r at repeat h q = Ensures-bind deleting-Ensures λ u v. Ensures-return s h
  carry_out-Ensures s r at (write next account) h q =
      Ensures-catching _ _ drop_on_error-sessions drop_on_error-answer
        (write_result-Ensures s next r account at q)

  record_internal-Ensures :
      (s : ReviewSession) (r : ExecutionResult) (now : ℕ)
      → IsSound id s
      → IsParsed r
      → Ensures (record_result_internal env id s r now) (IsSound id)
  unfolding record_result_internal
  record_internal-Ensures s r now h p = Ensures-bind (Ensures-lift {Q = Any} _ (anything _)) λ u q.
      Ensures-bind (Ensures-lift {Q = Any} _ (anything _))
        λ v q'. carry_out-Ensures s r _ _ h (decide_sound id (env.host.to_iso now) s r h p)

  pub execution_result-Ensures :
      (r : ExecutionResult) (now : ℕ) → Ensures (record_execution_result env id r now) (IsSound id)
  unfolding record_execution_result
  execution_result-Ensures r now = Ensures-bind (require_mutable-Ensures env respects id now) λ s h.
      Ensures-bind (Ensures-lift _ (parse-IsParsed env r)) λ parsed p.
        Ensures-bind (Ensures-lift {Q = Any} _ (anything _))
          λ v q'. record_internal-Ensures s parsed now h p

  pub chain_result-Ensures :
      (r : ExecutionResult) (now : ℕ)
      → Ensures (record_chain_execution_result env id r now) (IsSound id)
  unfolding record_chain_execution_result
  chain_result-Ensures r now = Ensures-bind (require_mutable-Ensures env respects id now) λ s h.
      Ensures-bind
        (Ensures-branch {Q = Any} _ (λ e. Ensures-bind deleting-Ensures λ u v. Ensures-lift _ tt)
          (λ e. Ensures-return tt tt))
        λ u q. Ensures-bind (Ensures-lift _ (parse-IsParsed env r)) λ parsed p.
          Ensures-bind (Ensures-lift {Q = Any} _ (anything _))
            λ v q'. record_internal-Ensures s parsed now h p
