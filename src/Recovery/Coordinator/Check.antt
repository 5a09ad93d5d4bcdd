-- ===== src/Recovery/Coordinator/Check.antt =====
-- The pure checks of internal/recovery/coordinator.go: requests, and the decision that is taken
-- again just before an action.
use pulse_agent.Prelude.{
  String, Bool, true, false, not, ◌&&◌, ◌||◌, Option, none, some, ◌==◌, if◌then◌else◌,
}
use pulse_agent.Prelude.Int.{pos, ltb_ℤ, eqb_ℤ}
use pulse_agent.Prelude.Result.{Result, invalid_request, ◌>>◌, fail_if}
use pulse_agent.Contract.{
  Time, is_zero, ServiceTarget, TypedAction, eq_action_type, schema_version_v1,
}
use pulse_agent.Policy.{
  Input, Decision, RegisteredRunbook, deny, reason_invalid_policy, evaluate, find_runbook,
  action_at,
}
use pulse_agent.Recovery.Types.{
  JournalRecord, phase_awaiting_approval, phase_verify_and_notify, phase_stabilizing,
}
use pulse_agent.Recovery.Record.{
  valid_token, max_command_id_length, max_idempotency_key_length, docker_adapter_type,
}
use pulse_agent.Recovery.Transitions.{eq_phase}
use pulse_agent.Recovery.Coordinator.Deps.{
  ExecutionState, Request, Outcome, outcome_await_approval, outcome_verify_and_notify,
  outcome_stabilizing, outcome_duplicate,
}

eq_bool : Bool → Bool → Bool
eq_bool true b = b
eq_bool false b = not b

unfoldable pub same_execution_target : ServiceTarget → ServiceTarget → Bool
unfolding eq_bool
same_execution_target current recorded =
    current.schema_version == recorded.schema_version
    && current.target_id == recorded.target_id
    && current.adapter_type == recorded.adapter_type
    && current.selector == recorded.selector
    && eq_bool current.enabled recorded.enabled

-- Go's `==` on two TypedActions.
unfoldable pub same_action : TypedAction → TypedAction → Bool
same_action a b =
    eq_action_type a.action_type b.action_type
    && a.target_selector == b.target_selector
    && eqb_ℤ a.stop_timeout b.stop_timeout
    && eqb_ℤ a.cooldown b.cooldown

unfoldable pub policy_input : Input → String → Time → Input
policy_input input command_id now = record input { command_id = command_id; now = now }

-- Whether the runbook is registered and its action at the command's index is the recorded one.
unfoldable pub same_registered_action : Option RegisteredRunbook → JournalRecord → Bool
same_registered_action none r = false
same_registered_action (some registered) r =
    elim (action_at registered.runbook.typed_actions r.command.action_index) [
      | none ↦ false
      | some action ↦ same_action action r.action
    ]

unfoldable pub revalidate_state : ExecutionState → JournalRecord → Time → Decision
revalidate_state state r now =
    let command = r.command in
    let input = state.policy_input in
    if not (input.runbook_id == command.runbook_id)
      || not (input.runbook_digest == command.runbook_digest)
      || not (input.target_id == command.target_id)
      || not (eqb_ℤ input.action_index command.action_index)
      || not (same_execution_target state.target r.target)
    then deny reason_invalid_policy
    else if not
        (same_registered_action (find_runbook state.policy_snapshot.runbooks command.runbook_id) r)
    then deny reason_invalid_policy
    else evaluate state.policy_snapshot (policy_input input command.command_id now)

unfoldable pub existing_outcome : JournalRecord → Outcome
existing_outcome r =
    if eq_phase r.phase phase_awaiting_approval
    then outcome_await_approval
    else if eq_phase r.phase phase_verify_and_notify
    then outcome_verify_and_notify
    else if eq_phase r.phase phase_stabilizing
    then outcome_stabilizing
    else outcome_duplicate

unfoldable pub validate_request : Request → Result (Unit {0})
validate_request request = do
  let input = request.policy_input
  let target = request.target
  fail_if
      (not (valid_token request.incident_id max_command_id_length)
        || not (valid_token request.idempotency_key max_idempotency_key_length)
        || not (valid_token input.runbook_id max_command_id_length)
        || not (valid_token input.runbook_digest max_idempotency_key_length)
        || not (valid_token input.target_id max_command_id_length)
        || ltb_ℤ input.action_index (pos 0)
        || not (input.command_id == "")
        || is_zero request.expires_at)
      invalid_request
  fail_if
      (not (target.schema_version == schema_version_v1)
        || not (target.target_id == input.target_id)
        || not (target.adapter_type == docker_adapter_type)
        || not target.enabled
        || not (valid_token target.selector max_idempotency_key_length))
      invalid_request
