-- ===== src/Contract/States.antt =====
-- CanTransitionTo and ValidateTransition of internal/contract/contracts.go.
use pulse_agent.Prelude.{Bool, false, ◌||◌, if◌then◌else◌}
use pulse_agent.Prelude.Result.{Result, ok, err, invalid_state_transition}
use pulse_agent.Contract.Enums.{
  IncidentState, incident_open, incident_analyzing, incident_awaiting_approval, incident_recovering,
  incident_stabilizing, incident_closed, incident_failed, eq_incident_state, RecoveryCommandState,
  recovery_pending, recovery_approved, recovery_executing, recovery_stabilizing, recovery_succeeded,
  recovery_failed, recovery_denied, recovery_expired, eq_recovery_command_state,
}

unfoldable pub incident_can_transition_to : IncidentState → IncidentState → Bool
incident_can_transition_to incident_open next =
    eq_incident_state next incident_analyzing
    || eq_incident_state next incident_closed
    || eq_incident_state next incident_failed
incident_can_transition_to incident_analyzing next =
    eq_incident_state next incident_awaiting_approval
    || eq_incident_state next incident_recovering
    || eq_incident_state next incident_closed
    || eq_incident_state next incident_failed
incident_can_transition_to incident_awaiting_approval next =
    eq_incident_state next incident_recovering
    || eq_incident_state next incident_closed
    || eq_incident_state next incident_failed
incident_can_transition_to incident_recovering next =
    eq_incident_state next incident_stabilizing || eq_incident_state next incident_failed
incident_can_transition_to incident_stabilizing next =
    eq_incident_state next incident_closed || eq_incident_state next incident_failed
incident_can_transition_to _ next = false

unfoldable pub incident_validate_transition : IncidentState → IncidentState → Result (Unit {0})
unfolding incident_can_transition_to
incident_validate_transition i next =
    if incident_can_transition_to i next then ok tt else err invalid_state_transition

unfoldable pub can_transition_to : RecoveryCommandState → RecoveryCommandState → Bool
can_transition_to recovery_pending next =
    eq_recovery_command_state next recovery_approved
    || eq_recovery_command_state next recovery_denied
    || eq_recovery_command_state next recovery_expired
can_transition_to recovery_approved next =
    eq_recovery_command_state next recovery_executing
    || eq_recovery_command_state next recovery_expired
can_transition_to recovery_executing next =
    eq_recovery_command_state next recovery_stabilizing
    || eq_recovery_command_state next recovery_failed
can_transition_to recovery_stabilizing next =
    eq_recovery_command_state next recovery_succeeded
    || eq_recovery_command_state next recovery_failed
can_transition_to _ next = false

unfoldable pub validate_transition : RecoveryCommandState → RecoveryCommandState → Result (Unit {0})
unfolding can_transition_to
validate_transition r next =
    if can_transition_to r next then ok tt else err invalid_state_transition
