-- ===== src/Scenarios/Instances.antt =====
-- The theorems on the recovery coordinator, its journal and the store, at concrete inputs.
use pulse_agent.Prelude.{◌≤◌, ◌≡◌, ◌≢◌, refl, ap, ◌⊎◌, inl, true, false, [], ◌∷◌, some, ◌==◌}
use pulse_agent.Prelude.Result.{ok, err, idempotency_conflict}
use pulse_agent.Contract.{recovery_succeeded, can_transition_to}
use pulse_agent.Store.{bucket_audit, bucket_incidents, get}
use pulse_agent.Store.Laws.{
  get-put_self, get-put_ne, put_call, append_call, delete_call, run_calls, audit_append_only,
}
use pulse_agent.Recovery.Types.{
  JournalRecord, phase_pending, phase_awaiting_approval, phase_approved, phase_executing,
  phase_completed, phase_verify_and_notify,
}
use pulse_agent.Recovery.Keys.{record_key}
use pulse_agent.Recovery.Record.{validate_record}
use pulse_agent.Recovery.Phases.{
  approve, start_execution, apply_update, complete_stabilization, SameEffect,
  apply_update-lifecycle, apply_update-SameEffect, verify_and_notify_stuck, completed_final,
}
use pulse_agent.Recovery.Validity.{apply_update-valid}
use pulse_agent.Recovery.Runs.{
  Unapproved, run_updates, count_starts, executes_at_most_once, Unapproved-never_executes,
}
use pulse_agent.Recovery.Transitions.{to_approved}
use pulse_agent.Recovery.Journal.{load_record, persist_pending, update_record}
use pulse_agent.Recovery.Persistence.{persist_conflict}
use pulse_agent.Recovery.Writes.{update_record-reads_back}
use pulse_agent.Recovery.Coordinator.Execute.{execute}
use pulse_agent.Recovery.Coordinator.Submit.{submit}
use pulse_agent.Recovery.Coordinator.Judgement.{Called}
use pulse_agent.Recovery.Coordinator.Safety.{execute-one_call}
use pulse_agent.Recovery.Coordinator.Reach.{CalledOnce, submit-one_call}
use pulse_agent.Scenarios.Memory.{memory, memory_open, Pairs}
use pulse_agent.Scenarios.Samples.{
  sample, no_hash, sample_codec, marshal_sample-len, sample_deps, empty_world, sample_world,
  stored_in, sample_request,
}
use pulse_agent.Scenarios.Tests.{coordinator_open}

execute-one_call_example :
    ((execute memory no_hash sample_codec sample_deps
        (sample phase_pending)
        (sample_world phase_pending)).1.calls
      ≡ [])
    ⊎ Called memory no_hash sample_codec sample_deps
        (sample phase_pending)
        tt
        []
        (execute memory no_hash sample_codec sample_deps
          (sample phase_pending)
          (sample_world phase_pending)).1.calls
execute-one_call_example =
    execute-one_call memory no_hash sample_codec sample_deps marshal_sample-len
      (sample phase_pending) (sample_world phase_pending)

submit-one_call_example :
    CalledOnce memory no_hash sample_codec sample_deps marshal_sample-len sample_request empty_world
      (submit memory no_hash sample_codec sample_deps sample_request empty_world).1.calls
submit-one_call_example =
    submit-one_call memory no_hash sample_codec sample_deps marshal_sample-len sample_request
      empty_world

abbrev other_effect : JournalRecord
other_effect = record (sample phase_pending) {
  command = record (sample phase_pending).command { incident_id = "incident-2" };
}

keys-ne :
    record_key no_hash other_effect.command ≢ record_key no_hash (sample phase_pending).command
unfolding coordinator_open
keys-ne e =
    let same : false ≡ true = ap (λ k. k == record_key no_hash (sample phase_pending).command) e in
    cc same

persist_conflict_example :
    persist_pending memory no_hash sample_codec other_effect (stored_in phase_pending)
    ≡ (err idempotency_conflict, stored_in phase_pending)
unfolding coordinator_open
persist_conflict_example =
    persist_conflict memory no_hash sample_codec (sample phase_pending) other_effect
      (sample phase_pending) true (stored_in phase_pending) (stored_in phase_pending) keys-ne refl
      refl

update_record-reads_back_example :
    (r : JournalRecord) × (load_record memory no_hash sample_codec
        (stored_in phase_pending)
        (record_key no_hash (sample phase_pending).command)
      ≡ ok (some r))
    × (to_approved r ≡ ok (sample phase_approved))
    × (load_record memory no_hash sample_codec
          (update_record memory no_hash sample_codec
            (record_key no_hash (sample phase_pending).command)
            to_approved
            (stored_in phase_pending)).1
          (record_key no_hash (sample phase_pending).command)
        ≡ ok (some (sample phase_approved)))
unfolding coordinator_open
update_record-reads_back_example =
    update_record-reads_back memory no_hash sample_codec
      (record_key no_hash (sample phase_pending).command) to_approved (stored_in phase_pending)
      (sample phase_approved) (marshal_sample-len (sample phase_approved)) refl

apply_update-valid_example : validate_record (sample phase_executing) ≡ ok tt
unfolding coordinator_open
apply_update-valid_example =
    apply_update-valid start_execution (sample phase_approved) (sample phase_executing) tt refl refl

apply_update-lifecycle_example :
    ((sample phase_approved).command.state ≡ (sample phase_pending).command.state)
    ⊎ (can_transition_to (sample phase_pending).command.state (sample phase_approved).command.state
        ≡ true)
unfolding coordinator_open
apply_update-lifecycle_example =
    apply_update-lifecycle approve (sample phase_pending) (sample phase_approved) refl

apply_update-SameEffect_example : SameEffect (sample phase_pending) (sample phase_approved)
unfolding coordinator_open
apply_update-SameEffect_example =
    apply_update-SameEffect approve (sample phase_pending) (sample phase_approved) refl

verify_and_notify_stuck_example :
    apply_update approve (sample phase_verify_and_notify) ≢ ok (sample phase_approved)
verify_and_notify_stuck_example =
    verify_and_notify_stuck approve (sample phase_verify_and_notify) (sample phase_approved) refl

executes_at_most_once_example :
    count_starts (approve ∷ start_execution ∷ start_execution ∷ []) (sample phase_pending) ≤ 1
executes_at_most_once_example =
    executes_at_most_once (approve ∷ start_execution ∷ start_execution ∷ []) (sample phase_pending)

Unapproved-never_executes_example :
    Unapproved (run_updates (approve ∷ start_execution ∷ []) (sample phase_awaiting_approval))
    × (count_starts (approve ∷ start_execution ∷ []) (sample phase_awaiting_approval) ≡ 0)
Unapproved-never_executes_example =
    Unapproved-never_executes (approve ∷ start_execution ∷ []) (sample phase_awaiting_approval)
      (refl, inl refl)

abbrev one_event : Pairs
one_event = (bucket_audit, "event-1", "approved") ∷ []

audit_append_only_example :
    memory.read
      (run_calls memory
        (put_call bucket_audit "event-1" "forged"
          ∷ delete_call bucket_audit "event-1"
          ∷ append_call "event-1" "again"
          ∷ append_call "event-2" "denied"
          ∷ [])
        one_event)
      bucket_audit
      "event-1"
    ≡ some "approved"
unfolding memory_open
audit_append_only_example =
    audit_append_only memory
      (put_call bucket_audit "event-1" "forged"
        ∷ delete_call bucket_audit "event-1"
        ∷ append_call "event-1" "again"
        ∷ append_call "event-2" "denied"
        ∷ [])
      one_event "event-1" "approved" refl

get-put_self_example :
    get memory ((bucket_incidents, "incident-1", "open") ∷ []) bucket_incidents "incident-1"
    ≡ ok (some "open")
unfolding coordinator_open
get-put_self_example =
    get-put_self memory [] ((bucket_incidents, "incident-1", "open") ∷ []) bucket_incidents
      "incident-1" "open" refl

get-put_ne_example :
    get memory ((bucket_incidents, "incident-1", "open") ∷ one_event) bucket_audit "event-1"
    ≡ get memory one_event bucket_audit "event-1"
unfolding coordinator_open
get-put_ne_example =
    get-put_ne memory one_event ((bucket_incidents, "incident-1", "open") ∷ one_event)
      bucket_incidents bucket_audit "incident-1" "open" "event-1" refl (inl (λ e. cc e))

completed_final_example : sample phase_completed ≡ sample phase_completed
unfolding coordinator_open
completed_final_example =
    completed_final (complete_stabilization recovery_succeeded) (sample phase_completed)
      (sample phase_completed) refl refl
