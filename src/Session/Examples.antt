-- ===== src/Session/Examples.antt =====
-- The operations and their properties on the data of `Fixtures`.
pub mod Parts
pub mod MaterialParts
pub mod StatusParts
pub mod SqliteParts
use say_ur_intent.Prelude.{
  ℕ, String, Bool, true, false, Option, some, none, List, [], ◌∷◌, lookup, ◌≡◌, ◌≢◌, refl, arith,
}
use say_ur_intent.Host.{parse_sui_address}
use say_ur_intent.Session.Types.{
  ReviewSession, SessionStatus, ExecutionResult, ChainReceipt, result_status, result_digest,
  same_session_iff,
}
use say_ur_intent.Session.Errors.{Outcome, ok, err}
use say_ur_intent.Session.Store.Reading.{has_lapsed}
use say_ur_intent.Session.Store.Handoff.{WalletHandoffMaterial, prepare_wallet_handoff}
use say_ur_intent.Session.Handoff.Release.{Released}
use say_ur_intent.Session.Handoff.Gate.{IsReviewed, prepare-Released}
use say_ur_intent.Session.Store.Execution.{record_chain_execution_result}
use say_ur_intent.Session.Execution.Steps.{ReceiptFits, result_receipt, Takes}
use say_ur_intent.Session.Execution.Chain.{FromChain, record_chain_execution_result-settles}
use say_ur_intent.Session.Fixtures.{
  some_base, stamp, some_host, some_host-ReadsBack, some_env, ready_session, pending_session,
  some_receipt, some_receipt-valid, world_of, result_of_session,
}

abbrev handed : WalletHandoffMaterial
handed = record {
  transaction_bytes_base64 = "bytes";
  transaction_material_commitment = "digest";
  plan_id = "plan";
  account = "0xa";
}

-- The handoff of the ready session goes well.
prepared_example :
    (prepare_wallet_handoff some_env "session" "plan" "0xa" 3 (world_of ready_session)).0
    ≡ ok handed
unfolding prepare_wallet_handoff say_ur_intent.Session.Material.Data.same_kind
    say_ur_intent.Session.Material.Data.same_source say_ur_intent.Session.World.◌>>=◌
    say_ur_intent.Session.Store.Reading.require_mutable_session
    say_ur_intent.Session.World.with_session say_ur_intent.Prelude.lookup
    say_ur_intent.Session.World.branch say_ur_intent.Session.Store.Reading.has_lapsed
    say_ur_intent.Session.World.is_local_session_expired say_ur_intent.Session.Fixtures.stamp
    say_ur_intent.Session.Types.same_status say_ur_intent.Session.World.return
    say_ur_intent.Session.World.lift say_ur_intent.Session.Store.Review.assert_plan_in_session
    say_ur_intent.Session.World.catching say_ur_intent.Session.Store.Handoff.log_refusal
    say_ur_intent.Session.Store.Handoff.gate_wallet_handoff
    say_ur_intent.Session.Store.Handoff.check_handoff_state say_ur_intent.Host.parse_sui_address
    say_ur_intent.Host.is_iso_utc say_ur_intent.Prelude.insert say_ur_intent.Prelude.delete
    say_ur_intent.Session.Artifacts.clone_artifacts say_ur_intent.Session.Artifacts.traverse
    say_ur_intent.Session.Material.Data.parse_digest
    say_ur_intent.Session.Material.Data.parse_handle
    say_ur_intent.Session.Material.Store.get_material
    say_ur_intent.Session.Material.Store.same_handle
    say_ur_intent.Session.Material.Verify.check_artifacts
    say_ur_intent.Session.Material.Verify.check_bytes
    say_ur_intent.Session.Material.Verify.parse_artifacts
    say_ur_intent.Session.Material.Verify.same_identity
    say_ur_intent.Session.Material.Verify.verify_artifacts
    say_ur_intent.Session.Records.acquire_handoff_lock
    say_ur_intent.Session.Status.can_retain_private_review_artifacts
    say_ur_intent.Session.Status.is_final_session_status
    say_ur_intent.Session.Store.Handoff.assert_commitment
    say_ur_intent.Session.Store.Pending.get_private_artifacts
    say_ur_intent.Session.Store.Handoff.hand_over say_ur_intent.Session.Store.Handoff.lock_handoff
    say_ur_intent.Session.Store.Pending.private_of say_ur_intent.Session.Store.Pending.read_material
    say_ur_intent.Session.Store.Pending.read_private
    say_ur_intent.Session.Store.Handoff.release_bytes
    say_ur_intent.Session.Store.Handoff.release_held
    say_ur_intent.Session.Store.Handoff.verify_for_handoff
    say_ur_intent.Session.Store.Private.get_artifacts
    say_ur_intent.Session.Store.Private.material_identity_matches
    say_ur_intent.Session.Store.Private.parse_private_artifacts
    say_ur_intent.Session.Store.Private.projection_matches
    say_ur_intent.Session.Store.Private.projections_match
    say_ur_intent.Session.Store.Private.verify_evidence
    say_ur_intent.Session.Store.Reading.get_review_session say_ur_intent.Session.Store.Reading.log
    say_ur_intent.Session.Store.Reading.sanitize say_ur_intent.Session.Store.Reading.sanitize_state
    say_ur_intent.Session.Store.Reading.sanitize_with say_ur_intent.Session.World.append_event_log
    say_ur_intent.Session.World.modify
prepared_example = refl

prepare-Released_example :
    (s : ReviewSession) × (lookup "session" (world_of ready_session).sessions ≡ some s)
    × (has_lapsed some_env s 3 ≡ false)
    × (s.status ≢ SessionStatus.expired)
    × (c : String × String) × IsReviewed some_env s "plan" "0xa" c.0 c.1
    × Released some_env "session" "plan" c.0 c.1 handed
        (prepare_wallet_handoff some_env "session" "plan" "0xa" 3 (world_of ready_session)).1
prepare-Released_example =
    prepare-Released some_env "session" "plan" "0xa" 3 (world_of ready_session) handed
      prepared_example

abbrev signed_session : ReviewSession
signed_session = record pending_session { base = record some_base { last_activity_at = stamp 4 } }

abbrev success_result : ExecutionResult
success_result = ExecutionResult.success result_of_session "digest" some_receipt

abbrev success_session : ReviewSession
success_session = record pending_session {
  base = record some_base { last_activity_at = stamp 5 };
  status = SessionStatus.success;
  execution_result = some success_result;
}

success_example :
    (record_chain_execution_result some_env "session" success_result 5 (world_of pending_session)).0
    ≡ ok success_session
unfolding record_chain_execution_result say_ur_intent.Session.World.◌>>=◌
    say_ur_intent.Session.Store.Reading.require_mutable_session
    say_ur_intent.Session.World.with_session say_ur_intent.Prelude.lookup
    say_ur_intent.Session.World.branch say_ur_intent.Session.Store.Reading.has_lapsed
    say_ur_intent.Session.World.is_local_session_expired say_ur_intent.Session.Fixtures.stamp
    say_ur_intent.Session.Types.same_status say_ur_intent.Session.World.return
    say_ur_intent.Session.World.lift say_ur_intent.Session.Store.Review.assert_plan_in_session
    say_ur_intent.Session.Store.Review.assert_same_session_id say_ur_intent.Session.World.catching
    say_ur_intent.Prelude.insert say_ur_intent.Prelude.delete
    say_ur_intent.Session.Status.is_final_session_status say_ur_intent.Session.Store.Reading.log
    say_ur_intent.Session.World.append_event_log say_ur_intent.Session.World.modify
    say_ur_intent.Session.Store.Execution.parse_execution_result
    say_ur_intent.Session.Store.Execution.assert_page_result
    say_ur_intent.Session.Store.Execution.assert_chain_result
    say_ur_intent.Session.Store.Execution.record_result_internal
    say_ur_intent.Session.Store.Execution.decide_result say_ur_intent.Session.Store.Execution.settle
    say_ur_intent.Session.Store.Execution.carry_out
    say_ur_intent.Session.Store.Execution.write_result
    say_ur_intent.Session.Store.Execution.drop_on_error say_ur_intent.Session.Status.transition
    say_ur_intent.Session.Status.transition_status say_ur_intent.Session.Status.allowed_transitions
    say_ur_intent.Session.Status.includes say_ur_intent.Session.Store.Reading.record_transition
    say_ur_intent.Session.Store.Commit.commit_process
    say_ur_intent.Session.Store.Commit.commit_activity_only
    say_ur_intent.Session.Store.Commit.commit_live_session_only
    say_ur_intent.Session.Store.Commit.write_session
    say_ur_intent.Session.Store.Commit.after_failure
    say_ur_intent.Session.Store.Commit.activity_only_effects
    say_ur_intent.Session.Store.Commit.delete_materials say_ur_intent.Session.Records.commit_record
    say_ur_intent.Session.Material.Store.delete_session_materials
success_example =
    let same = (same_session_iff pending_session pending_session).1 refl in
    let accepted = some_receipt-valid "digest" in ground (arith, same, accepted)

record_chain_execution_result-settles_example :
    (s : ReviewSession) × (lookup "session" (world_of pending_session).sessions ≡ some s)
    × FromChain s success_result
    × ReceiptFits some_env (result_digest success_result) (result_receipt success_result)
    × Takes s success_session success_result
    × (lookup success_session.id
          (record_chain_execution_result some_env "session" success_result 5
            (world_of pending_session)).1.sessions
        ≡ some success_session)
record_chain_execution_result-settles_example =
    record_chain_execution_result-settles some_env "session" success_result 5
      (world_of pending_session) success_session success_example
