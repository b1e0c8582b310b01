-- ===== src/Session/Execution/Chain.antt =====
-- Results from the chain receipt: `assertChainExecutionResultTransition`.
use mathlib.Core.Path.{subst}
use say_ur_intent.Prelude.{
  ℕ, String, true, some, lookup, ◌≡◌, refl, arith, ◌∙◌, same_text_iff, inl, inr,
}
use say_ur_intent.Session.Types.{ReviewSession, ExecutionResult, result_digest}
use say_ur_intent.Session.Errors.{ErrorCode, ok, fail}
use say_ur_intent.Session.World.{World, Env, ◌>>◌, modify, lift, return, branch}
use say_ur_intent.Session.Store.Commit.{delete_materials}
use say_ur_intent.Session.Store.Reading.{require_mutable_session}
use say_ur_intent.Session.Store.Execution.{
  is_final_result, is_pending_result, pending_digest, parse_execution_result, assert_chain_result,
  record_chain_execution_result,
}
use say_ur_intent.Session.Inversion.{bind-ok, lift-ok}
use say_ur_intent.Session.Handoff.Gate.{mutable_stored}
use say_ur_intent.Session.Execution.Steps.{
  Takes, ReceiptFits, result_receipt, parsed_receipt, Continues, Continues-same, parsed_same,
  continued,
}

-- What the chain may report of a session.
pub record FromChain (s : ReviewSession) (r : ExecutionResult) : Type 0 where
  pub pending : is_pending_result s.execution_result ≡ true
  pub final : is_final_result (some r) ≡ true
  pub same_digest : result_digest r ≡ pending_digest s.execution_result

chain_checked :
    (s : ReviewSession) (r : ExecutionResult) → assert_chain_result s r ≡ ok tt → FromChain s r
unfolding assert_chain_result
chain_checked s (ExecutionResult.signed_pending_result b d) e = absurd (ground arith)
chain_checked s (ExecutionResult.success b d c) e = record {
  pending = ground arith;
  final = refl;
  same_digest = ground (arith, same_text_iff (some d) (pending_digest s.execution_result));
}
chain_checked s (ExecutionResult.failure b d f c) e = record {
  pending = ground arith;
  final = refl;
  same_digest = ground (arith, same_text_iff d (pending_digest s.execution_result));
}

-- A result that is recorded from the chain is final, and settles a session that holds a pending
-- result with the same digest; its receipt, where it has one, is accepted by the schema of
-- receipts and is about that digest. The answered session, with the result and its status, is the one
-- that is stored afterwards under its id.
pub record_chain_execution_result-settles :
    (env : Env) (id : String) (r : ExecutionResult) (now : ℕ) (w : World) (s' : ReviewSession)
    → (record_chain_execution_result env id r now w).0 ≡ ok s'
    → (s : ReviewSession) × (lookup id w.sessions ≡ some s)
      × FromChain s r
      × ReceiptFits env (result_digest r) (result_receipt r)
      × Takes s s' r
      × (lookup s'.id (record_chain_execution_result env id r now w).1.sessions ≡ some s')
unfolding record_chain_execution_result
record_chain_execution_result-settles env id r now w s' e =
    let (s, e1, rest1, w1) = bind-ok (require_mutable_session env id now) _ w s' e in
    let (found, live, going, same) = mutable_stored env id now w s e1 in
    let (v, e4, rest4, w4) =
      bind-ok (branch (is_final_result s.execution_result) _ _) _ _ s' rest1 in
    let (p, e2, rest2, w2) = lift-ok (parse_execution_result env r) _ _ s' rest4 in
    let (u, e3, rest3, w3) = lift-ok (assert_chain_result s p) _ _ s' rest2 in
    let is_r : p ≡ r = parsed_same env r p e2 in
    let chain : FromChain s r = subst (FromChain s) is_r (chain_checked s p e3) in
    let on = (continued env id s s' p now _ rest3).1 in
    let before = (require_mutable_session env id now w).1 in
    let v =
      (branch (is_final_result s.execution_result)
        (do modify (delete_materials env id); lift (fail ErrorCode.execution_result_finalized))
        (return tt) before).1 in
    let (takes, stored) =
      settles s s' r v (record_chain_execution_result env id r now w).1 chain
        (Continues-same s s' {v = v} is_r refl (w1 ∙ w4 ∙ w2 ∙ w3) on) in
    (s, found, chain, parsed_receipt env r p e2, takes, stored)
  where
    settles :
        (s s' : ReviewSession) (r : ExecutionResult) (v w : World)
        → FromChain s r
        → Continues s s' r v w
        → Takes s s' r × (lookup s'.id w.sessions ≡ some s')
    settles s s' r v w chain (inr done) = done
    settles s s' (ExecutionResult.signed_pending_result b d) v w chain (inl again) =
        absurd (ground (arith, chain.final))
    settles s s' (ExecutionResult.success b d c) v w chain (inl (same, pending, kept)) =
        absurd (ground arith)
    settles s s' (ExecutionResult.failure b d f c) v w chain (inl (same, pending, kept)) =
        absurd (ground arith)
