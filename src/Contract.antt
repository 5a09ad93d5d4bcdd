-- ===== src/Contract.antt =====
-- internal/contract: the enumerations and records that the packages share, the two state
-- lifecycles, and the validation of each record.
mod Enums
mod Types
mod States
mod Validate
pub mod Lifecycle
pub use Enums.*
pub use Types.{
  Time, is_zero, Duration, add_time, Float64, inf_magnitude, is_nan, is_finite, EvidencePolicy,
  StabilizationPolicy, ProbeRule, ServiceTarget, HealthObservation, Incident, TargetConstraint,
  TypedAction, ApprovalPolicy, RetryPolicy, Runbook, RecoveryCommand, Approval, DeliveryQueueItem,
  LifecycleEvent,
}
unfoldable pub use Types.{float_lt}
unfoldable pub use States.*
unfoldable pub use Validate.*
