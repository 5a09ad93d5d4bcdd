-- ===== src/Contract/Enums.antt =====
-- internal/contract/contracts.go's string enumerations. A value outside the declared constants, which Go's string types
-- admit, is the last constructor of each type; `eq_…` is Go's `==`.
use Prim.Native.String.{String}
use mathlib.Core.Bool.{Bool, true, false}
use text.Mathlib.Text.{◌==◌}

pub data Severity : Type 0 where
  severity_info severity_warning severity_critical : Severity
  severity_other : String → Severity

abbrev pub eq_severity : Severity → Severity → Bool
eq_severity severity_info severity_info = true
eq_severity severity_warning severity_warning = true
eq_severity severity_critical severity_critical = true
eq_severity (severity_other s) (severity_other t) = s == t
eq_severity _ _ = false

pub data NormalizedState : Type 0 where
  state_healthy state_unhealthy state_unknown : NormalizedState
  state_other : String → NormalizedState

abbrev pub eq_normalized_state : NormalizedState → NormalizedState → Bool
eq_normalized_state state_healthy state_healthy = true
eq_normalized_state state_unhealthy state_unhealthy = true
eq_normalized_state state_unknown state_unknown = true
eq_normalized_state (state_other s) (state_other t) = s == t
eq_normalized_state _ _ = false

pub data RiskTier : Type 0 where
  risk_low risk_medium risk_high : RiskTier
  risk_other : String → RiskTier

abbrev pub eq_risk_tier : RiskTier → RiskTier → Bool
eq_risk_tier risk_low risk_low = true
eq_risk_tier risk_medium risk_medium = true
eq_risk_tier risk_high risk_high = true
eq_risk_tier (risk_other s) (risk_other t) = s == t
eq_risk_tier _ _ = false

pub data ActionType : Type 0 where
  action_docker_container_restart action_docker_compose_service_restart : ActionType
  action_other : String → ActionType

abbrev pub eq_action_type : ActionType → ActionType → Bool
eq_action_type action_docker_container_restart action_docker_container_restart = true
eq_action_type action_docker_compose_service_restart action_docker_compose_service_restart = true
eq_action_type (action_other s) (action_other t) = s == t
eq_action_type _ _ = false

pub data ApprovalDecision : Type 0 where
  approval_granted approval_denied : ApprovalDecision
  approval_other : String → ApprovalDecision

abbrev pub eq_approval_decision : ApprovalDecision → ApprovalDecision → Bool
eq_approval_decision approval_granted approval_granted = true
eq_approval_decision approval_denied approval_denied = true
eq_approval_decision (approval_other s) (approval_other t) = s == t
eq_approval_decision _ _ = false

pub data NotificationRecommendation : Type 0 where
  notification_none notification_notify notification_page : NotificationRecommendation
  notification_other : String → NotificationRecommendation

pub data IncidentState : Type 0 where
  incident_open incident_analyzing incident_awaiting_approval incident_recovering
        incident_stabilizing incident_closed incident_failed :
      IncidentState
  incident_other : String → IncidentState

abbrev pub eq_incident_state : IncidentState → IncidentState → Bool
eq_incident_state incident_open incident_open = true
eq_incident_state incident_analyzing incident_analyzing = true
eq_incident_state incident_awaiting_approval incident_awaiting_approval = true
eq_incident_state incident_recovering incident_recovering = true
eq_incident_state incident_stabilizing incident_stabilizing = true
eq_incident_state incident_closed incident_closed = true
eq_incident_state incident_failed incident_failed = true
eq_incident_state (incident_other s) (incident_other t) = s == t
eq_incident_state _ _ = false

pub data RecoveryCommandState : Type 0 where
  recovery_pending recovery_approved recovery_executing recovery_stabilizing recovery_succeeded
        recovery_failed recovery_denied recovery_expired :
      RecoveryCommandState
  recovery_other : String → RecoveryCommandState

abbrev pub eq_recovery_command_state : RecoveryCommandState → RecoveryCommandState → Bool
eq_recovery_command_state recovery_pending recovery_pending = true
eq_recovery_command_state recovery_approved recovery_approved = true
eq_recovery_command_state recovery_executing recovery_executing = true
eq_recovery_command_state recovery_stabilizing recovery_stabilizing = true
eq_recovery_command_state recovery_succeeded recovery_succeeded = true
eq_recovery_command_state recovery_failed recovery_failed = true
eq_recovery_command_state recovery_denied recovery_denied = true
eq_recovery_command_state recovery_expired recovery_expired = true
eq_recovery_command_state (recovery_other s) (recovery_other t) = s == t
eq_recovery_command_state _ _ = false

pub data DeliveryPayloadType : Type 0 where
  delivery_payload_lifecycle_event delivery_payload_incident_report : DeliveryPayloadType
  delivery_payload_other : String → DeliveryPayloadType

abbrev pub eq_delivery_payload_type : DeliveryPayloadType → DeliveryPayloadType → Bool
eq_delivery_payload_type delivery_payload_lifecycle_event delivery_payload_lifecycle_event = true
eq_delivery_payload_type delivery_payload_incident_report delivery_payload_incident_report = true
eq_delivery_payload_type (delivery_payload_other s) (delivery_payload_other t) = s == t
eq_delivery_payload_type _ _ = false

pub data DeliveryState : Type 0 where
  delivery_pending delivery_delivered delivery_expired delivery_failed : DeliveryState
  delivery_other : String → DeliveryState

abbrev pub eq_delivery_state : DeliveryState → DeliveryState → Bool
eq_delivery_state delivery_pending delivery_pending = true
eq_delivery_state delivery_delivered delivery_delivered = true
eq_delivery_state delivery_expired delivery_expired = true
eq_delivery_state delivery_failed delivery_failed = true
eq_delivery_state (delivery_other s) (delivery_other t) = s == t
eq_delivery_state _ _ = false

pub data ConfidenceLabel : Type 0 where
  confidence_low confidence_medium confidence_high : ConfidenceLabel
  confidence_other : String → ConfidenceLabel

pub data LifecycleEventType : Type 0 where
  lifecycle_incident_confirmed lifecycle_analysis_unavailable lifecycle_policy_denied
        lifecycle_approval_requested lifecycle_recovery_started lifecycle_incident_closed
        lifecycle_incident_failed :
      LifecycleEventType
  lifecycle_other : String → LifecycleEventType
