-- ===== src/Scenarios/Tests.antt =====
-- Runs of the model at concrete inputs.
use pulse_agent.Prelude.{◌≡◌, refl, length, []}
use pulse_agent.Recovery.Record.{validate_record, validate_open}
use pulse_agent.Recovery.Coordinator.Submit.{
  new_record, record_for, persist_prepared, prepare_with, prepare, after_journaled, after_prepare,
  after_analysis, analyse, submit_at, submit_checked, submit,
}
use pulse_agent.Recovery.Coordinator.Restart.{
  resume_found, resume, reconcile_at, reconcile_one, after_round, reconcile_loop, reconcile_records,
  reconcile,
}
use pulse_agent.Recovery.Coordinator.Execute.{
  judge, now, judge_loaded, revalidate, deny_after_revalidation, expire_command, after_adapter,
  call_adapter, after_start, start, after_approve, approve_and_start, after_publish, after_second,
  after_validate, after_first, execute,
}
use pulse_agent.Recovery.Coordinator.Check.{
  revalidate_state, same_execution_target, same_action, policy_input, same_registered_action,
  existing_outcome, validate_request,
}
use pulse_agent.Recovery.Journal.{
  decode_record, checked_record, load_document, load_record, put_record, persist_unindexed,
  persist_indexed, persist_pending_tx, persist_pending, update_record_tx, update_record, deny,
  expire, approve, start_execution, finish_execution, mark_verify_and_notify, collect_reconcilable,
  reconcilable_records, match_command_id, find_record_by_command_id, keep_first,
}
use pulse_agent.Recovery.Phases.{updates_open}
use pulse_agent.Recovery.Keys.{record_key, idempotency_index_key, stable_key, itoa}
use native.Mathlib.Decide.{ℕ_discrete}
use pulse_agent.Policy.{evaluate_open}
use pulse_agent.Store.{check_bucket, put, get, for_each, update, is_allowed, is_audit}
use pulse_agent.Recovery.Coordinator.Deps.{World}
use pulse_agent.Scenarios.Memory.{memory, memory_open}
use pulse_agent.Scenarios.Samples.{
  JournalRecord-discrete, marshal_sample, decode_sample, sample, no_hash, sample_codec, sample_deps,
  empty_world, sample_world, sample_request,
}
use pulse_agent.Recovery.Types.{phase_executing}
use pulse_agent.Prelude.Result.{ok}

sample_valid : validate_record (sample phase_executing) ≡ ok tt
unfolding validate_open
sample_valid = refl

-- Opens the coordinator, the journal, the store and the policy, for evaluation.
unfoldable pub coordinator_open : Unit {0}
unfolding validate_open memory_open evaluate_open revalidate_state same_execution_target same_action
    policy_input same_registered_action existing_outcome validate_request judge now judge_loaded
    revalidate deny_after_revalidation expire_command after_adapter call_adapter after_start start
    after_approve approve_and_start after_publish after_second after_validate after_first execute
    new_record record_for persist_prepared prepare_with prepare after_journaled after_prepare
    after_analysis analyse submit_at submit_checked submit resume_found resume reconcile_at
    reconcile_one after_round reconcile_loop reconcile_records reconcile decode_record
    checked_record load_document load_record put_record persist_unindexed persist_indexed
    persist_pending_tx persist_pending update_record_tx update_record deny expire approve
    start_execution finish_execution mark_verify_and_notify collect_reconcilable
    reconcilable_records match_command_id find_record_by_command_id keep_first updates_open
    check_bucket put get for_each update marshal_sample decode_sample JournalRecord-discrete
    record_key idempotency_index_key stable_key itoa is_allowed is_audit ℕ_discrete
coordinator_open = tt

-- The first Submit of the sample request executes its action once and stores the record in phase
-- stabilizing; a second one is a duplicate that executes nothing.
submit_runs_once :
    length (submit memory no_hash sample_codec sample_deps sample_request empty_world).1.calls ≡ 1
unfolding coordinator_open
submit_runs_once = refl

after_first_submit : World memory sample_deps
after_first_submit = (submit memory no_hash sample_codec sample_deps sample_request empty_world).1

repeated_submit_runs_nothing :
    length
      (submit memory no_hash sample_codec sample_deps sample_request after_first_submit).1.calls
    ≡ 1
unfolding coordinator_open after_first_submit
repeated_submit_runs_nothing = refl

-- Reconcile moves an interrupted execution to phase verify_and_notify.
reconcile_marks_interrupted :
    (reconcile memory no_hash sample_codec sample_deps (sample_world phase_executing)).1.calls ≡ []
unfolding coordinator_open
reconcile_marks_interrupted = refl
