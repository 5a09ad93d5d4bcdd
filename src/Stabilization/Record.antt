-- ===== src/Stabilization/Record.antt =====
-- The pure functions of internal/stabilization/verifier.go: the tests of requests, records and
-- samples, and the keys.
use Prim.Native.String.{◌++◌}
use pulse_agent.Prelude.{
  String, Bool, true, false, not, ◌&&◌, ◌||◌, List, [], ◌∷◌, all, Option, none, some, ◌==◌,
  if◌then◌else◌,
}
use pulse_agent.Prelude.Int.{ℤ, pos, negsuc, inc, ltb_ℤ, leb_ℤ, eqb_ℤ}
use pulse_agent.Prelude.Result.{
  Error, Result, invalid_request, corrupt_result, docker_unavailable, docker_timeout,
  deadline_exceeded, ◌>>◌, fail_if, is_ok,
}
use pulse_agent.Contract.{
  is_zero, ServiceTarget, ProbeRule, Float64, is_finite, float_lt, recovery_stabilizing,
  eq_recovery_command_state, command_validate, schema_version_v1,
}
use pulse_agent.Policy.{ReasonCode, reason_none, reason_allowed}
use pulse_agent.Recovery.Keys.{itoa}
use pulse_agent.Recovery.Coordinator.Check.{same_execution_target}
use pulse_agent.Stabilization.Types.{
  Sample, StabilizationOutcome, pending, succeeded, retry_scheduled, failed_terminally,
  outcome_other, FailureReason, failure_none, failure_timeout, failure_docker_unavailable,
  failure_probe, failure_other, StabilizationRequest, StabilizationRecord,
}

abbrev pub max_recovery_samples : ℤ
max_recovery_samples = pos 256

abbrev pub is_none : FailureReason → Bool
is_none failure_none = true
is_none _ = false

abbrev is_no_reason : ReasonCode → Bool
is_no_reason reason_none = true
is_no_reason _ = false

abbrev is_reason_allowed : ReasonCode → Bool
is_reason_allowed reason_allowed = true
is_reason_allowed _ = false

unfoldable pub valid_failure_reason : FailureReason → Bool
valid_failure_reason (failure_other s) = false
valid_failure_reason _ = true

-- validateRequest
unfoldable pub validate_stabilization_request : StabilizationRequest → Result (Unit {0})
validate_stabilization_request request =
    fail_if
      (not (is_ok (command_validate request.command))
        || not (eq_recovery_command_state request.command.state recovery_stabilizing)
        || not (request.target.schema_version == schema_version_v1)
        || not request.target.enabled
        || not (request.target.target_id == request.command.target_id)
        || ltb_ℤ request.policy.recovery_samples (pos 1)
        || ltb_ℤ max_recovery_samples request.policy.recovery_samples
        || leb_ℤ request.policy.window (pos 0)
        || ltb_ℤ request.retry_policy.max_attempts (pos 1)
        || ltb_ℤ request.attempt (pos 0)
        || leb_ℤ request.retry_policy.max_attempts request.attempt)
      invalid_request

-- What validateRecord asks of an outcome's other fields.
unfoldable pub valid_outcome : StabilizationRecord → StabilizationOutcome → Bool
unfolding valid_failure_reason
valid_outcome r pending =
    is_none r.failure_reason && is_no_reason r.retry_reason && eqb_ℤ r.next_attempt (negsuc 0)
valid_outcome r succeeded =
    is_none r.failure_reason && is_no_reason r.retry_reason && eqb_ℤ r.next_attempt (negsuc 0)
valid_outcome r retry_scheduled =
    valid_failure_reason r.failure_reason
    && not (is_none r.failure_reason)
    && is_reason_allowed r.retry_reason
    && eqb_ℤ r.next_attempt (inc r.attempt)
valid_outcome r failed_terminally =
    valid_failure_reason r.failure_reason
    && not (is_none r.failure_reason)
    && eqb_ℤ r.next_attempt (negsuc 0)
valid_outcome r (outcome_other s) = false

-- validateRecord
unfoldable pub validate_stabilization_record : StabilizationRecord → Result (Unit {0})
validate_stabilization_record r = do
  fail_if
      (not (r.schema_version == schema_version_v1)
        || r.command_id == ""
        || not r.execution_succeeded
        || ltb_ℤ r.attempt (pos 0)
        || is_zero r.started_at
        || ltb_ℤ r.healthy_samples (pos 0)
        || ltb_ℤ max_recovery_samples r.healthy_samples
        || ltb_ℤ r.next_attempt (negsuc 0))
      corrupt_result
  fail_if (not (valid_outcome r r.outcome)) corrupt_result

-- math.IsNaN and math.IsInf
abbrev finite_metric : String × Float64 → Bool
finite_metric (name, value) = is_finite value

unfoldable pub valid_sample : Sample → Bool
valid_sample sample = all finite_metric sample.metrics

-- metrics[name]
unfoldable pub metric : List (String × Float64) → String → Option Float64
metric [] name = none
metric ((key, value) ∷ rest) name =
    let later = metric rest name in if key == name then some value else later

-- Whether a rule is met: availability must not fall below its threshold, any other metric must not
-- rise above it.
unfoldable pub meets : Option Float64 → ProbeRule → Bool
meets none rule = false
meets (some value) rule =
    if rule.signal_type == "availability"
    then not (float_lt value rule.threshold)
    else not (float_lt rule.threshold value)

unfoldable pub metrics_meet_rules : List (String × Float64) → List ProbeRule → Bool
metrics_meet_rules metrics rules = all (λ rule. meets (metric metrics rule.signal_type) rule) rules

unfoldable pub probe_failure_reason : Error → FailureReason
probe_failure_reason docker_unavailable = failure_docker_unavailable
probe_failure_reason docker_timeout = failure_timeout
probe_failure_reason deadline_exceeded = failure_timeout
probe_failure_reason _ = failure_probe

unfoldable pub same_target : ServiceTarget → ServiceTarget → Bool
same_target left right = same_execution_target left right

unfoldable pub result_key : (String → String) → String → ℤ → String
result_key sha256_hex command_id attempt =
    "stabilization/" ++ sha256_hex (command_id ++ ("\0" ++ itoa attempt))
