-- ===== src/Contract/Validate.antt =====
-- The Validate methods of internal/contract/contracts.go. Each error keeps its sentinel,
-- ErrInvalidContract; the text that names the field is left out.
use pulse_agent.Prelude.{
  ℕ, String, Bool, true, false, not, ◌&&◌, ◌||◌, List, [], ◌∷◌, ltb, eqb, ◌==◌, length,
}
use pulse_agent.Prelude.Int.{pos, ltb_ℤ}
use pulse_agent.Prelude.Result.{Result, ok, invalid_contract, ◌>>◌, fail_if}
use pulse_agent.Contract.Enums.{
  IncidentState, incident_closed, incident_failed, incident_other, eq_incident_state,
  RecoveryCommandState, recovery_other, delivery_payload_lifecycle_event,
  delivery_payload_incident_report, eq_delivery_payload_type, DeliveryState, delivery_other,
  LifecycleEventType, lifecycle_other,
}
use pulse_agent.Contract.Types.{
  is_zero, Incident, RecoveryCommand, DeliveryQueueItem, LifecycleEvent,
}

abbrev pub schema_version_v1 : String
schema_version_v1 = "v1"

abbrev pub max_reference_count : ℕ
max_reference_count = 64

abbrev validate_version : String → Result (Unit {0})
validate_version version = fail_if (not (version == schema_version_v1)) invalid_contract

abbrev required : String → Result (Unit {0})
required value = fail_if (value == "") invalid_contract

abbrev invalid_if : Bool → Result (Unit {0})
invalid_if b = fail_if b invalid_contract

-- One of the declared constants.
unfoldable pub valid_incident_state : IncidentState → Bool
valid_incident_state (incident_other s) = false
valid_incident_state _ = true

unfoldable pub valid_recovery_state : RecoveryCommandState → Bool
valid_recovery_state (recovery_other s) = false
valid_recovery_state _ = true

unfoldable pub valid_delivery_state : DeliveryState → Bool
valid_delivery_state (delivery_other s) = false
valid_delivery_state _ = true

unfoldable pub valid_lifecycle_event : LifecycleEventType → Bool
valid_lifecycle_event (lifecycle_other s) = false
valid_lifecycle_event _ = true

unfoldable pub terminal_incident : IncidentState → Bool
terminal_incident state =
    eq_incident_state state incident_closed || eq_incident_state state incident_failed

same_bool : Bool → Bool → Bool
same_bool true b = b
same_bool false b = not b

unfoldable pub incident_validate : Incident → Result (Unit {0})
unfolding valid_incident_state terminal_incident same_bool
incident_validate i = do
  validate_version i.schema_version
  required i.incident_id
  required i.target_id
  invalid_if (
      not (valid_incident_state i.state)
      || is_zero i.opened_at
      || eqb (length i.rule_ids) 0
      || ltb max_reference_count (length i.rule_ids))
  invalid_if (not (same_bool (terminal_incident i.state) (not (is_zero i.terminal_at))))

unfoldable pub command_validate : RecoveryCommand → Result (Unit {0})
unfolding valid_recovery_state
command_validate r = do
  validate_version r.schema_version
  required r.command_id
  invalid_if (
      not (valid_recovery_state r.state)
      || ltb_ℤ r.action_index (pos 0)
      || is_zero r.issued_at
      || is_zero r.expires_at
      || not (ltb r.issued_at r.expires_at))

unfoldable pub queue_item_validate : DeliveryQueueItem → Result (Unit {0})
unfolding valid_delivery_state
queue_item_validate d = do
  validate_version d.schema_version
  required d.delivery_id
  required d.payload_ref
  required d.webhook_id
  required d.destination_ref
  invalid_if (
      (not (eq_delivery_payload_type d.payload_type delivery_payload_lifecycle_event)
        && not (eq_delivery_payload_type d.payload_type delivery_payload_incident_report))
      || ltb_ℤ d.attempt_count (pos 0)
      || is_zero d.next_attempt_at
      || is_zero d.expires_at
      || not (ltb d.next_attempt_at d.expires_at)
      || not (valid_delivery_state d.state))

required_all : List String → Result (Unit {0})
required_all [] = ok tt
required_all (reference ∷ references) = do required reference; required_all references

unfoldable pub lifecycle_event_validate : LifecycleEvent → Result (Unit {0})
unfolding valid_lifecycle_event required_all
lifecycle_event_validate l = do
  validate_version l.schema_version
  required l.event_id
  required l.incident_id
  invalid_if (
      not (valid_lifecycle_event l.event_type)
      || is_zero l.occurred_at
      || ltb max_reference_count (length l.evidence_refs))
  required_all l.evidence_refs
