-- ===== src/Stabilization/Verifier.antt =====
-- Verify and fail of internal/stabilization/verifier.go. Each function `after_…` is the part of its
-- caller that follows the step it names. Of a finalized command only the error is kept.
use pulse_agent.Prelude.{
  String, Bool, true, false, not, ◌&&◌, ◌||◌, Option, none, some, ltb, ◌==◌, if◌then◌else◌,
}
use pulse_agent.Prelude.Int.{ℤ, pos, negsuc, inc, ltb_ℤ, leb_ℤ, eqb_ℤ}
use pulse_agent.Prelude.Result.{Error, Result, ok, err, invalid_options, invalid_request, is_ok}
use pulse_agent.Contract.{add_time, Time, is_zero, schema_version_v1}
use pulse_agent.Policy.{
  Decision, Verdict, verdict_allow, deny, reason_none, reason_invalid_policy,
  reason_retry_exhausted, evaluate,
}
use pulse_agent.Store.{Bolt}
use pulse_agent.Recovery.Types.{Codec}
use pulse_agent.Stabilization.Documents.{load, persist}
use pulse_agent.Recovery.Coordinator.Deps.{◌>>=◌, pure}
use pulse_agent.Stabilization.Types.{
  Sample, RetryState, StabilizationOutcome, pending, succeeded, retry_scheduled, failed_terminally,
  FailureReason, failure_none, failure_unhealthy, failure_flapping, failure_timeout,
  failure_metric_regression, failure_probe, StabilizationRequest, StabilizationRecord,
  StabilizationResult, VerifyReply, Surroundings,
}
use pulse_agent.Stabilization.Record.{
  validate_stabilization_request, valid_sample, metrics_meet_rules, probe_failure_reason,
  same_target,
}

-- resultRecord.result
unfoldable pub to_result : StabilizationRecord → StabilizationResult
to_result r = record {
  command_id = r.command_id;
  execution_succeeded = r.execution_succeeded;
  attempt = r.attempt;
  started_at = r.started_at;
  healthy_samples = r.healthy_samples;
  outcome = r.outcome;
  failure_reason = r.failure_reason;
  retry_reason = r.retry_reason;
  next_attempt = r.next_attempt;
}

abbrev pub refusal : Error → VerifyReply
refusal e = record { result = none; error = some e }

abbrev pub is_pending : StabilizationOutcome → Bool
is_pending pending = true
is_pending _ = false

-- The record of an attempt that has no sample yet.
unfoldable pub first_record : StabilizationRequest → Time → StabilizationRecord
first_record request t = record {
  schema_version = schema_version_v1;
  command_id = request.command.command_id;
  execution_succeeded = true;
  attempt = request.attempt;
  started_at = t;
  healthy_samples = pos 0;
  outcome = pending;
  failure_reason = failure_none;
  retry_reason = reason_none;
  next_attempt = negsuc 0;
}

abbrev pub max_ℤ : ℤ → ℤ → ℤ
max_ℤ a b = if ltb_ℤ a b then b else a

-- retryDecision after the retry state was loaded.
unfoldable pub retry_decision : StabilizationRequest → Time → RetryState → Decision
retry_decision request t state =
    let input = state.policy_input in
    if not (input.runbook_id == request.command.runbook_id)
      || not (input.target_id == request.command.target_id)
      || not (eqb_ℤ input.action_index request.command.action_index)
      || not (same_target state.target request.target)
    then deny reason_invalid_policy
    else evaluate state.policy_snapshot (record input {
      command_id = request.command.command_id;
      runbook_digest = request.command.runbook_digest;
      now = t;
      attempt_count = max_ℤ input.attempt_count (inc request.attempt);
    })

-- The record of a failed attempt, before its retry is decided.
unfoldable pub failed_record : StabilizationRecord → FailureReason → StabilizationRecord
failed_record r reason = record r {
  failure_reason = reason;
  healthy_samples = pos 0;
  next_attempt = negsuc 0;
}

abbrev pub is_allow : Verdict → Bool
is_allow verdict_allow = true
is_allow _ = false

-- The record after the retry decision, and the error that fail returns with it.
unfoldable pub decided_record :
    StabilizationRequest
    → Time
    → StabilizationRecord
    → Result RetryState
    → StabilizationRecord × Option Error
decided_record request t r (err e) =
    (record r { outcome = failed_terminally; retry_reason = reason_invalid_policy }, some e)
decided_record request t r (ok state) =
    let decision = retry_decision request t state in
    (
      (if is_allow decision.verdict
          then record r {
            retry_reason = decision.reason_code;
            outcome = retry_scheduled;
            next_attempt = inc request.attempt;
          }
          else record r { retry_reason = decision.reason_code; outcome = failed_terminally }),
      none,
    )

-- The record after a sample that is healthy and meets the rules.
unfoldable pub counted : StabilizationRecord → StabilizationRecord
counted r = record r { healthy_samples = inc r.healthy_samples }

-- The reason why a sample fails the attempt, if it does.
unfoldable pub judge_sample :
    StabilizationRequest → StabilizationRecord → Result Sample → Option FailureReason
judge_sample request r (err e) = some (probe_failure_reason e)
judge_sample request r (ok sample) =
    if not (valid_sample sample)
    then some failure_probe
    else if not sample.healthy
    then some (if ltb_ℤ (pos 0) r.healthy_samples then failure_flapping else failure_unhealthy)
    else if not (metrics_meet_rules sample.metrics request.target.probe_rules)
    then some failure_metric_regression
    else none

-- What is returned after the record was persisted, or was not.
abbrev pub answer : StabilizationRecord → Option Error → Result (Unit {0}) → VerifyReply
answer r cause (err e) = refusal e
answer r cause (ok _) = record { result = some (to_result r); error = cause }

-- After a healthy sample was counted: whether the attempt is complete.
unfoldable pub is_complete : StabilizationRequest → StabilizationRecord → Time → Bool
is_complete request r t =
    leb_ℤ request.policy.recovery_samples r.healthy_samples
    && not (ltb t (add_time r.started_at request.policy.window))

module _ (bolt : Bolt) (sha256_hex : String → String) (codec : Codec StabilizationRecord)
    (around : Surroundings) where
  open around use {Outside, clock_now, observe, finalize, load_retry_state}

  -- The store, and everything else.
  abbrev pub State : Type 0
  State = bolt.Tx × Outside

  abbrev pub S {ℓ} : Type ℓ → Type ℓ
  S A = State → A × State

  -- A call of a dependency, and a transaction.
  abbrev pub call_out {ℓ} : {A : Type ℓ} → (Outside → A × Outside) → S A
  call_out f w = let (a, o) = f w.1 in (a, (w.0, o))

  abbrev pub in_store {ℓ} : {A : Type ℓ} → (bolt.Tx → A × bolt.Tx) → S A
  in_store f w = let (a, t) = f w.0 in (a, (t, w.1))

  -- Verifier.now
  unfoldable pub verifier_now : S (Result Time)
  verifier_now = do t ← call_out clock_now; pure (if is_zero t then err invalid_options else ok t)

  unfoldable pub after_finalize :
      StabilizationRecord → Option Error → Result (Unit {0}) → S VerifyReply
  after_finalize r cause (err e) = pure (refusal e)
  after_finalize r cause (ok _) = do
    persisted ← in_store (persist bolt sha256_hex codec r)
    pure (answer r cause persisted)

  -- The command is finalized before the record is persisted.
  unfoldable pub finish : StabilizationRecord → Bool → Option Error → S VerifyReply
  finish r success cause = do
    finalized ← call_out (finalize r.command_id success)
    after_finalize r cause finalized

  unfoldable pub finish_failed : StabilizationRecord × Option Error → S VerifyReply
  finish_failed (r, cause) = finish r false cause

  -- The end of fail, by whether an attempt is left.
  unfoldable pub end_failed :
      StabilizationRequest → StabilizationRecord → Time → Bool → S VerifyReply
  end_failed request failed t true = do
    state ← call_out (load_retry_state request.command)
    finish_failed (decided_record request t failed state)
  end_failed request failed t false =
      finish (record failed { outcome = failed_terminally; retry_reason = reason_retry_exhausted })
        false none

  unfoldable pub fail :
      StabilizationRequest → StabilizationRecord → Time → FailureReason → S VerifyReply
  fail request r t reason =
      end_failed request (failed_record r reason) t
        (ltb_ℤ (inc request.attempt) request.retry_policy.max_attempts)

  unfoldable pub after_counted : StabilizationRecord → Bool → S VerifyReply
  after_counted r true = finish (record r { outcome = succeeded }) true none
  after_counted r false = do
    persisted ← in_store (persist bolt sha256_hex codec r)
    pure (answer r none persisted)

  unfoldable pub after_judged :
      StabilizationRequest → StabilizationRecord → Time → Option FailureReason → S VerifyReply
  after_judged request r t (some reason) = fail request r t reason
  after_judged request r t none = after_counted (counted r) (is_complete request (counted r) t)

  -- From the deadline on, with the attempt's record, by whether the deadline has passed.
  unfoldable pub sample_unless_late :
      StabilizationRequest → StabilizationRecord → Time → Bool → S VerifyReply
  sample_unless_late request r t true = fail request r t failure_timeout
  sample_unless_late request r t false = do
    sample ← call_out (observe request.target)
    after_judged request r t (judge_sample request r sample)

  unfoldable pub verify_record : StabilizationRequest → StabilizationRecord → Time → S VerifyReply
  verify_record request r t =
      sample_unless_late request r t (ltb (add_time r.started_at request.policy.window) t)

  unfoldable pub after_found :
      StabilizationRequest → StabilizationRecord → Time → Bool → S VerifyReply
  after_found request r t true = verify_record request r t
  after_found request r t false = pure (record { result = some (to_result r); error = none })

  unfoldable pub after_load :
      StabilizationRequest → Time → Result (Option StabilizationRecord) → S VerifyReply
  after_load request t (err e) = pure (refusal e)
  after_load request t (ok none) = verify_record request (first_record request t) t
  after_load request t (ok (some r)) = after_found request r t (is_pending r.outcome)

  unfoldable pub after_now : StabilizationRequest → Result Time → S VerifyReply
  after_now request (err e) = pure (refusal e)
  after_now request (ok t) = λ w.
      after_load request t
        (load bolt sha256_hex codec request.command.command_id request.attempt w.0) w

  unfoldable pub after_validation : StabilizationRequest → Bool → S VerifyReply
  after_validation request false = pure (refusal invalid_request)
  after_validation request true = do t ← verifier_now; after_now request t

  unfoldable pub verify : StabilizationRequest → S VerifyReply
  verify request = after_validation request (is_ok (validate_stabilization_request request))
