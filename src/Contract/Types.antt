-- ===== src/Contract/Types.antt =====
-- The records of internal/contract/contracts.go that the modelled packages read and write.
use pulse_agent.Prelude.{
  ℕ, suc, ◌+◌, ◌-◌, String, Bool, true, false, not, ◌&&◌, List, ltb, eqb, if◌then◌else◌,
}
use pulse_agent.Prelude.Int.{ℤ, pos, negsuc}
use pulse_agent.Contract.Enums.{
  Severity, NormalizedState, RiskTier, ActionType, ApprovalDecision, IncidentState,
  RecoveryCommandState, DeliveryPayloadType, DeliveryState, LifecycleEventType,
}

-- time.Time: nanoseconds since Go's zero instant (year 1, UTC), which `IsZero` tests.
abbrev pub Time : Type 0
Time = ℕ

abbrev pub is_zero : Time → Bool
is_zero t = eqb t 0

-- time.Duration and contract.Duration: an int64 count of nanoseconds.
abbrev pub Duration : Type 0
Duration = ℤ

-- time.Add
abbrev pub add_time : Time → Duration → Time
add_time t (pos n) = t + n
add_time t (negsuc n) = t - suc n

-- float64 by its bit pattern: the sign bit, and the other 63 bits, which order the absolute values.
pub record Float64 : Type 0 where
  pub negative : Bool
  pub magnitude : ℕ

-- The magnitude bits of +Inf; the patterns above it are the NaNs.
abbrev pub inf_magnitude : ℕ
inf_magnitude = 0x7ff0_0000_0000_0000

abbrev pub is_nan : Float64 → Bool
is_nan x = ltb inf_magnitude x.magnitude

abbrev pub is_finite : Float64 → Bool
is_finite x = ltb x.magnitude inf_magnitude

ordered_lt : Bool → ℕ → Bool → ℕ → Bool
ordered_lt false a false b = ltb a b
ordered_lt true a true b = ltb b a
ordered_lt true a false b = not (eqb a 0 && eqb b 0)
ordered_lt false a true b = false

-- Go's `<` on float64: false at a NaN, and -0 is not below +0.
unfoldable pub float_lt : Float64 → Float64 → Bool
unfolding ordered_lt
float_lt x y =
    if is_nan x
    then false
    else if is_nan y
    then false
    else ordered_lt x.negative x.magnitude y.negative y.magnitude

pub record EvidencePolicy : Type 0 where
  pub redaction_profile : String
  pub max_bytes : ℤ

pub record StabilizationPolicy : Type 0 where
  pub recovery_samples : ℤ
  pub window : Duration

pub record ProbeRule : Type 0 where
  pub rule_id : String
  pub signal_type : String
  pub interval : Duration
  pub timeout : Duration
  pub threshold : Float64
  pub consecutive_failures : ℤ
  pub recovery_samples : ℤ
  pub slo_window : Duration
  pub severity : Severity

pub record ServiceTarget : Type 0 where
  pub schema_version : String
  pub target_id : String
  pub adapter_type : String
  pub selector : String
  pub probe_rules : List ProbeRule
  pub evidence_policy : EvidencePolicy
  pub stabilization_policy : StabilizationPolicy
  pub enabled : Bool

-- `bounded_values` is left out: no modelled operation reads it.
pub record HealthObservation : Type 0 where
  pub schema_version : String
  pub observation_id : String
  pub target_id : String
  pub rule_id : String
  pub target_snapshot_version : ℕ
  pub observed_at : Time
  pub normalized_state : NormalizedState
  pub evidence_refs : List String
  pub sequence : ℕ

pub record Incident : Type 0 where
  pub schema_version : String
  pub incident_id : String
  pub dedupe_key : String
  pub target_id : String
  pub rule_ids : List String
  pub state : IncidentState
  pub severity : Severity
  pub opened_at : Time
  pub analysis_ref : String
  pub selected_runbook_id : String
  pub terminal_at : Time

pub record TargetConstraint : Type 0 where
  pub field : String
  pub value : String

pub record TypedAction : Type 0 where
  pub action_type : ActionType
  pub target_selector : String
  pub stop_timeout : Duration
  pub cooldown : Duration

pub record ApprovalPolicy : Type 0 where
  pub required : Bool

pub record RetryPolicy : Type 0 where
  pub max_attempts : ℤ

pub record Runbook : Type 0 where
  pub schema_version : String
  pub runbook_id : String
  pub version : String
  pub digest : String
  pub adapter_type : String
  pub target_constraints : List TargetConstraint
  pub typed_actions : List TypedAction
  pub risk_tier : RiskTier
  pub auto_execute : Bool
  pub approval_policy : ApprovalPolicy
  pub preconditions : List String
  pub retry_policy : RetryPolicy
  pub stabilization_policy : StabilizationPolicy

pub record RecoveryCommand : Type 0 where
  pub schema_version : String
  pub command_id : String
  pub incident_id : String
  pub runbook_id : String
  pub runbook_digest : String
  pub target_id : String
  pub action_index : ℤ
  pub risk_tier : RiskTier
  pub approval_id : String
  pub issued_at : Time
  pub expires_at : Time
  pub idempotency_key : String
  pub state : RecoveryCommandState

pub record Approval : Type 0 where
  pub schema_version : String
  pub approval_id : String
  pub command_id : String
  pub decision : ApprovalDecision
  pub approver_identity : String
  pub reason : String
  pub created_at : Time
  pub expires_at : Time

pub record DeliveryQueueItem : Type 0 where
  pub schema_version : String
  pub delivery_id : String
  pub payload_type : DeliveryPayloadType
  pub payload_ref : String
  pub webhook_id : String
  pub destination_ref : String
  pub attempt_count : ℤ
  pub next_attempt_at : Time
  pub expires_at : Time
  pub state : DeliveryState

pub record LifecycleEvent : Type 0 where
  pub schema_version : String
  pub event_id : String
  pub event_type : LifecycleEventType
  pub incident_id : String
  pub occurred_at : Time
  pub reason_code : String
  pub evidence_refs : List String
