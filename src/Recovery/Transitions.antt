-- ===== src/Recovery/Transitions.antt =====
-- The updates that internal/recovery applies to one journal record: the closures of journal.go's
-- deny, expire, approve, startExecution, finishExecution, completeStabilization and
-- markVerifyAndNotify, with transitionToDenied and transitionToExpired of approval.go.
use pulse_agent.Prelude.{Bool, true, false, not, ◌&&◌, ◌||◌, some, ◌==◌, if◌then◌else◌}
use pulse_agent.Prelude.Result.{Result, ok, command_not_executable, ◌>>◌, fail_if}
use pulse_agent.Contract.{
  Time, RecoveryCommandState, recovery_pending, recovery_approved, recovery_executing,
  recovery_stabilizing, recovery_denied, recovery_expired, eq_recovery_command_state,
  validate_transition,
}
use pulse_agent.Recovery.Types.{
  Phase, phase_pending, phase_awaiting_approval, phase_approved, phase_executing, phase_stabilizing,
  phase_completed, phase_verify_and_notify, phase_other, DockerSnapshot, empty_snapshot,
  JournalRecord,
}
use pulse_agent.Recovery.Record.{is_reconcilable_phase}

abbrev pub eq_phase : Phase → Phase → Bool
eq_phase phase_pending phase_pending = true
eq_phase phase_awaiting_approval phase_awaiting_approval = true
eq_phase phase_approved phase_approved = true
eq_phase phase_executing phase_executing = true
eq_phase phase_stabilizing phase_stabilizing = true
eq_phase phase_completed phase_completed = true
eq_phase phase_verify_and_notify phase_verify_and_notify = true
eq_phase (phase_other s) (phase_other t) = s == t
eq_phase _ _ = false

-- record.Command.State = state; record.Phase = phase
abbrev pub set_state : JournalRecord → RecoveryCommandState → Phase → JournalRecord
set_state r state phase = record r { command = record r.command { state = state }; phase = phase }

abbrev is_waiting : JournalRecord → Bool
is_waiting r =
    (eq_phase r.phase phase_pending || eq_phase r.phase phase_awaiting_approval)
    && eq_recovery_command_state r.command.state recovery_pending

unfoldable pub transition_to_denied : JournalRecord → Result JournalRecord
transition_to_denied r = do
  fail_if (not (is_waiting r)) command_not_executable
  validate_transition r.command.state recovery_denied
  ok (set_state r recovery_denied phase_completed)

unfoldable pub transition_to_expired : JournalRecord → Result JournalRecord
transition_to_expired r = do
  fail_if (not (is_waiting r)) command_not_executable
  validate_transition r.command.state recovery_expired
  ok (set_state r recovery_expired phase_completed)

unfoldable pub to_approved : JournalRecord → Result JournalRecord
to_approved r = do
  fail_if (not (is_waiting r)) command_not_executable
  fail_if (eq_phase r.phase phase_awaiting_approval && r.command.approval_id == "")
      command_not_executable
  validate_transition r.command.state recovery_approved
  ok (set_state r recovery_approved phase_approved)

unfoldable pub to_executing : JournalRecord → Result JournalRecord
to_executing r = do
  fail_if
      (not (eq_phase r.phase phase_approved)
        || not (eq_recovery_command_state r.command.state recovery_approved))
      command_not_executable
  validate_transition r.command.state recovery_executing
  ok (set_state r recovery_executing phase_executing)

unfoldable pub to_finished : RecoveryCommandState → JournalRecord → Result JournalRecord
to_finished next r = do
  fail_if
      (not (eq_phase r.phase phase_executing)
        || not (eq_recovery_command_state r.command.state recovery_executing))
      command_not_executable
  validate_transition r.command.state next
  ok (
      set_state r next (
        if eq_recovery_command_state next recovery_stabilizing
        then phase_stabilizing
        else phase_completed))

unfoldable pub to_completed : RecoveryCommandState → JournalRecord → Result JournalRecord
to_completed next r =
    if eq_phase r.phase phase_completed && eq_recovery_command_state r.command.state next
    then ok r
    else do
      fail_if
          (not (eq_phase r.phase phase_stabilizing)
            || not (eq_recovery_command_state r.command.state recovery_stabilizing))
          command_not_executable
      validate_transition r.command.state next
      ok (set_state r next phase_completed)

-- The record that markVerifyAndNotify writes; a snapshot of another target is dropped.
abbrev pub reconciled : DockerSnapshot → Bool → Time → JournalRecord → JournalRecord
reconciled snapshot verified now r =
    let other = verified && not (snapshot.target_id == r.command.target_id) in
    record r {
      phase = phase_verify_and_notify;
      reconciliation = some (record {
        observed_at = now;
        verified = verified && not other;
        snapshot = if other then empty_snapshot else snapshot;
      });
    }

unfoldable pub to_verify_and_notify :
    DockerSnapshot → Bool → Time → JournalRecord → Result JournalRecord
to_verify_and_notify snapshot verified now r = do
  fail_if (not (is_reconcilable_phase r.phase)) command_not_executable
  ok (reconciled snapshot verified now r)
