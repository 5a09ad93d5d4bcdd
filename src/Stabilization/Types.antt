-- ===== src/Stabilization/Types.antt =====
-- The types of internal/stabilization/verifier.go, and the verifier's dependencies as functions on
-- an outside state.
use pulse_agent.Prelude.{String, Bool, List, Option}
use pulse_agent.Prelude.Int.{ℤ}
use pulse_agent.Prelude.Result.{Error, Result}
use pulse_agent.Contract.{
  Time, Float64, RecoveryCommand, ServiceTarget, StabilizationPolicy, RetryPolicy,
}
use pulse_agent.Policy.{Input, Snapshot, ReasonCode}

-- The map of metrics is an association list, and Go's iteration over it is a walk of the list.
pub record Sample : Type 0 where
  pub healthy : Bool
  pub metrics : List (String × Float64)

pub record RetryState : Type 0 where
  pub target : ServiceTarget
  pub policy_snapshot : Snapshot
  pub policy_input : Input

pub data StabilizationOutcome : Type 0 where
  pending succeeded retry_scheduled failed_terminally : StabilizationOutcome
  outcome_other : String → StabilizationOutcome

pub data FailureReason : Type 0 where
  failure_none failure_unhealthy failure_flapping failure_timeout : FailureReason
  failure_metric_regression failure_docker_unavailable failure_probe : FailureReason
  failure_other : String → FailureReason

pub record StabilizationRequest : Type 0 where
  pub command : RecoveryCommand
  pub target : ServiceTarget
  pub policy : StabilizationPolicy
  pub retry_policy : RetryPolicy
  pub attempt : ℤ

-- resultRecord; Result has the same fields but the schema version.
pub record StabilizationRecord : Type 0 where
  pub schema_version : String
  pub command_id : String
  pub execution_succeeded : Bool
  pub attempt : ℤ
  pub started_at : Time
  pub healthy_samples : ℤ
  pub outcome : StabilizationOutcome
  pub failure_reason : FailureReason
  pub retry_reason : ReasonCode
  pub next_attempt : ℤ

pub record StabilizationResult : Type 0 where
  pub command_id : String
  pub execution_succeeded : Bool
  pub attempt : ℤ
  pub started_at : Time
  pub healthy_samples : ℤ
  pub outcome : StabilizationOutcome
  pub failure_reason : FailureReason
  pub retry_reason : ReasonCode
  pub next_attempt : ℤ

-- The pair (Result, error); an absent result is the zero Result.
pub record VerifyReply : Type 0 where
  pub result : Option StabilizationResult
  pub error : Option Error

-- The clock, the probe, the command finalizer and the retry state source.
pub record Surroundings : Type 1 where
  pub Outside : Type 0
  pub clock_now : Outside → Time × Outside
  pub observe : ServiceTarget → Outside → Result Sample × Outside
  pub finalize : String → Bool → Outside → Result (Unit {0}) × Outside
  pub load_retry_state : RecoveryCommand → Outside → Result RetryState × Outside
