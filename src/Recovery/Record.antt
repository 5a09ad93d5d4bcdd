-- ===== src/Recovery/Record.antt =====
-- validateRecord and the tests on one journal record in internal/recovery/journal.go and
-- coordinator.go.
use Prim.Native.String.{len}
use pulse_agent.Prelude.{
  ℕ, String, Bool, true, false, not, ◌&&◌, ◌||◌, Option, none, some, leb, ◌==◌, if◌then◌else◌,
}
use pulse_agent.Prelude.Int.{pos, ltb_ℤ, leb_ℤ}
use pulse_agent.Prelude.Text.{is_trimmed, contains_nul}
use pulse_agent.Prelude.Result.{Result, corrupt_journal, ◌>>◌, fail_if, is_ok}
use pulse_agent.Contract.{
  is_zero, RiskTier, risk_low, risk_medium, risk_high, eq_risk_tier, TypedAction, eq_action_type,
  action_docker_container_restart, action_docker_compose_service_restart, RecoveryCommandState,
  recovery_pending, recovery_approved, recovery_executing, recovery_stabilizing, recovery_succeeded,
  recovery_failed, recovery_denied, recovery_expired, eq_recovery_command_state, command_validate,
  schema_version_v1,
}
use pulse_agent.Recovery.Types.{
  Phase, phase_pending, phase_awaiting_approval, phase_approved, phase_executing, phase_stabilizing,
  phase_completed, phase_verify_and_notify, phase_other, DockerSnapshot, Reconciliation,
  JournalRecord,
}

abbrev pub max_command_id_length : ℕ
max_command_id_length = 128

abbrev pub max_idempotency_key_length : ℕ
max_idempotency_key_length = 256

abbrev pub docker_adapter_type : String
docker_adapter_type = "docker"

unfoldable pub valid_token : String → ℕ → Bool
unfolding is_trimmed contains_nul
valid_token value limit =
    not (value == "") && leb (len value) limit && is_trimmed value && not (contains_nul value)

unfoldable pub valid_record_phase : Phase → RecoveryCommandState → Bool
valid_record_phase phase_pending state = eq_recovery_command_state state recovery_pending
valid_record_phase phase_awaiting_approval state = eq_recovery_command_state state recovery_pending
valid_record_phase phase_approved state = eq_recovery_command_state state recovery_approved
valid_record_phase phase_executing state = eq_recovery_command_state state recovery_executing
valid_record_phase phase_stabilizing state = eq_recovery_command_state state recovery_stabilizing
valid_record_phase phase_completed state =
    eq_recovery_command_state state recovery_succeeded
    || eq_recovery_command_state state recovery_failed
    || eq_recovery_command_state state recovery_denied
    || eq_recovery_command_state state recovery_expired
valid_record_phase phase_verify_and_notify state =
    eq_recovery_command_state state recovery_pending
    || eq_recovery_command_state state recovery_approved
    || eq_recovery_command_state state recovery_executing
valid_record_phase (phase_other s) state = false

unfoldable pub valid_risk_tier : RiskTier → Bool
valid_risk_tier risk =
    eq_risk_tier risk risk_low || eq_risk_tier risk risk_medium || eq_risk_tier risk risk_high

unfoldable pub valid_action : TypedAction → String → Bool
valid_action action selector =
    if not (action.target_selector == selector)
      || leb_ℤ action.stop_timeout (pos 0)
      || ltb_ℤ action.cooldown (pos 0)
    then false
    else eq_action_type action.action_type action_docker_container_restart
      || eq_action_type action.action_type action_docker_compose_service_restart

unfoldable pub is_reconcilable_phase : Phase → Bool
is_reconcilable_phase phase_pending = true
is_reconcilable_phase phase_approved = true
is_reconcilable_phase phase_executing = true
is_reconcilable_phase _ = false

-- The first condition of validateRecord: the command and its tokens.
unfoldable pub valid_command : JournalRecord → Bool
valid_command r =
    let command = r.command in
    r.schema_version == schema_version_v1
    && is_ok (command_validate command)
    && valid_token command.command_id max_command_id_length
    && valid_token command.incident_id max_command_id_length
    && valid_token command.runbook_id max_command_id_length
    && valid_token command.runbook_digest max_idempotency_key_length
    && valid_token command.target_id max_command_id_length
    && valid_token command.idempotency_key max_idempotency_key_length
    && (command.approval_id == "" || valid_token command.approval_id max_command_id_length)
    && valid_risk_tier command.risk_tier

-- The second condition: the target.
unfoldable pub valid_target : JournalRecord → Bool
valid_target r =
    r.target.schema_version == schema_version_v1
    && r.target.target_id == r.command.target_id
    && r.target.adapter_type == docker_adapter_type
    && r.target.enabled
    && valid_token r.target.selector max_idempotency_key_length

-- Snapshot == docker.Snapshot{}
unfoldable pub is_empty_snapshot : DockerSnapshot → Bool
is_empty_snapshot s = s.target_id == "" && not s.running && not s.healthy

-- What a record in phase verify_and_notify says of Docker.
unfoldable pub valid_reconciliation : Option Reconciliation → String → Bool
unfolding is_empty_snapshot
valid_reconciliation none target_id = false
valid_reconciliation (some r) target_id =
    if is_zero r.observed_at
    then false
    else if r.verified && not (r.snapshot.target_id == target_id)
    then false
    else if not r.verified && not (is_empty_snapshot r.snapshot)
    then false
    else true

-- The rest of validateRecord, by phase.
unfoldable pub valid_for_phase : Phase → Option Reconciliation → String → Bool
unfolding valid_reconciliation
valid_for_phase phase_verify_and_notify reconciliation target_id =
    valid_reconciliation reconciliation target_id
valid_for_phase _ none target_id = true
valid_for_phase _ (some r) target_id = false

unfoldable pub validate_record : JournalRecord → Result (Unit {0})
validate_record r = do
  fail_if (not (valid_command r)) corrupt_journal
  fail_if (not (valid_target r)) corrupt_journal
  fail_if
      (not (valid_action r.action r.target.selector)
        || not (valid_record_phase r.phase r.command.state))
      corrupt_journal
  fail_if (not (valid_for_phase r.phase r.reconciliation r.command.target_id)) corrupt_journal

-- Opens validateRecord, for evaluation at a concrete record.
unfoldable pub validate_open : Unit {0}
unfolding validate_record valid_command valid_target valid_action valid_record_phase valid_for_phase
    valid_token valid_risk_tier command_validate
validate_open = tt
