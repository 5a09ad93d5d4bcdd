-- ===== src/Recovery/Phases.antt =====
-- What the updates of internal/recovery/journal.go do to one record, in any order and number.
use pulse_agent.Prelude.{◌≡◌, refl, ◌≢◌, ◌⊎◌, Bool, true, not, ◌&&◌, arith}
use pulse_agent.Prelude.Result.{Result, ok, invalid_request, ◌>>◌, fail_if}
use pulse_agent.Contract.{
  Time, RecoveryCommandState, recovery_pending, recovery_stabilizing, recovery_succeeded,
  recovery_failed, eq_recovery_command_state, validate_transition, can_transition_to,
}
use pulse_agent.Recovery.Types.{
  phase_completed, phase_verify_and_notify, DockerSnapshot, JournalRecord,
}
use pulse_agent.Recovery.Record.{is_reconcilable_phase}
use pulse_agent.Recovery.Transitions.{
  transition_to_denied, transition_to_expired, to_approved, to_executing, to_finished, to_completed,
  to_verify_and_notify,
}

-- One call of a journal method on a record.
pub data Update : Type 0 where
  deny expire approve start_execution : Update
  finish_execution complete_stabilization : RecoveryCommandState → Update
  mark_verify_and_notify : DockerSnapshot → Bool → Time → Update

-- The method's own test of its argument, then its closure.
unfoldable pub apply_update : Update → JournalRecord → Result JournalRecord
apply_update deny r = transition_to_denied r
apply_update expire r = transition_to_expired r
apply_update approve r = to_approved r
apply_update start_execution r = to_executing r
apply_update (finish_execution next) r = do
  fail_if
      (not (eq_recovery_command_state next recovery_stabilizing)
        && not (eq_recovery_command_state next recovery_failed))
      invalid_request
  to_finished next r
apply_update (complete_stabilization next) r = do
  fail_if
      (not (eq_recovery_command_state next recovery_succeeded)
        && not (eq_recovery_command_state next recovery_failed))
      invalid_request
  to_completed next r
apply_update (mark_verify_and_notify snapshot verified now) r =
    to_verify_and_notify snapshot verified now r

unfoldable pub updates_open : Unit {0}
unfolding apply_update transition_to_denied transition_to_expired to_approved to_executing
    to_finished to_completed to_verify_and_notify is_reconcilable_phase validate_transition
    can_transition_to
updates_open = tt

-- The state of the record after an update: it moves along the command lifecycle or stays.
pub apply_update-lifecycle :
    (u : Update) (r r' : JournalRecord)
    → apply_update u r ≡ ok r'
    → (r'.command.state ≡ r.command.state)
      ⊎ (can_transition_to r.command.state r'.command.state ≡ true)
unfolding updates_open
apply_update-lifecycle deny r r' h = ground arith
apply_update-lifecycle expire r r' h = ground arith
apply_update-lifecycle approve r r' h = ground arith
apply_update-lifecycle start_execution r r' h = ground arith
apply_update-lifecycle (finish_execution next) r r' h = ground arith
apply_update-lifecycle (complete_stabilization next) r r' h = ground arith
apply_update-lifecycle (mark_verify_and_notify snapshot verified now) r r' h = ground arith

-- What identifies a record and what it acts on: no update may change it.
pub record SameEffect (r r' : JournalRecord) : Type 0 where
  pub schema_version : r'.schema_version ≡ r.schema_version
  pub command :
      record r'.command { state = recovery_pending } ≡ record r.command { state = recovery_pending }
  pub target : r'.target ≡ r.target
  pub action : r'.action ≡ r.action

SameEffect-refl : (r : JournalRecord) → SameEffect r r
SameEffect-refl r = record { schema_version = refl; command = refl; target = refl; action = refl }

SameEffect-trans : {r s t : JournalRecord} → SameEffect r s → SameEffect s t → SameEffect r t
SameEffect-trans a b = ground arith

-- A successful update changes only the command's state, the phase and the reconciliation.
pub apply_update-SameEffect :
    (u : Update) (r r' : JournalRecord) → apply_update u r ≡ ok r' → SameEffect r r'
unfolding updates_open
apply_update-SameEffect deny r r' h = ground arith
apply_update-SameEffect expire r r' h = ground arith
apply_update-SameEffect approve r r' h = ground arith
apply_update-SameEffect start_execution r r' h = ground arith
apply_update-SameEffect (finish_execution next) r r' h = ground arith
apply_update-SameEffect (complete_stabilization next) r r' h = ground arith
apply_update-SameEffect (mark_verify_and_notify snapshot verified now) r r' h = ground arith

-- A record in phase verify_and_notify takes no further update: nothing approves, executes or
-- completes it again.
pub verify_and_notify_stuck :
    (u : Update) (r r' : JournalRecord)
    → r.phase ≡ phase_verify_and_notify
    → apply_update u r ≢ ok r'
unfolding updates_open
verify_and_notify_stuck deny r r' p h = ground arith
verify_and_notify_stuck expire r r' p h = ground arith
verify_and_notify_stuck approve r r' p h = ground arith
verify_and_notify_stuck start_execution r r' p h = ground arith
verify_and_notify_stuck (finish_execution next) r r' p h = ground arith
verify_and_notify_stuck (complete_stabilization next) r r' p h = ground arith
verify_and_notify_stuck (mark_verify_and_notify snapshot verified now) r r' p h = ground arith

-- A completed record is final: an update that succeeds leaves it as it was.
pub completed_final :
    (u : Update) (r r' : JournalRecord)
    → r.phase ≡ phase_completed
    → apply_update u r ≡ ok r'
    → r' ≡ r
unfolding updates_open
completed_final deny r r' p h = ground arith
completed_final expire r r' p h = ground arith
completed_final approve r r' p h = ground arith
completed_final start_execution r r' p h = ground arith
completed_final (finish_execution next) r r' p h = ground arith
completed_final (complete_stabilization next) r r' p h = ground arith
completed_final (mark_verify_and_notify snapshot verified now) r r' p h = ground arith
