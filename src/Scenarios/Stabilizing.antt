-- ===== src/Scenarios/Stabilizing.antt =====
-- One attempt that is stabilized, and the theorems on the verifier at concrete inputs.
use Prim.Native.String.{len}
use pulse_agent.Prelude.{
  ℕ, ◌≤◌, String, ◌≡◌, refl, sym, ap, ◌⊎◌, inl, inr, true, false, [], ◌∷◌, Option, none, some, ◌==◌,
  if◌then◌else◌,
}
use native.Mathlib.Decide.{ℕ_discrete}
use pulse_agent.Prelude.Int.{ℤ, pos, negsuc, leb_ℤ}
use pulse_agent.Prelude.Result.{Result, ok, err, invalid_contract, invalid_request, corrupt_result}
use pulse_agent.Contract.{add_time, Time}
use pulse_agent.Policy.{reason_none, reason_allowed}
use pulse_agent.Store.{bucket_stabilization_results}
use pulse_agent.Recovery.Types.{Codec, phase_stabilizing}
use pulse_agent.Stabilization.Types.{
  StabilizationOutcome, pending, succeeded, retry_scheduled, failure_none, failure_unhealthy,
  StabilizationRequest, StabilizationRecord, StabilizationResult, Surroundings,
}
use pulse_agent.Stabilization.Record.{
  same_target, validate_stabilization_request, validate_stabilization_record, valid_outcome,
  valid_sample, metrics_meet_rules, result_key,
}
use pulse_agent.Stabilization.Documents.{
  checked_document, load, put_document, store_document, persist,
}
use pulse_agent.Stabilization.Verifier.{
  failed_record, decided_record, end_failed, finish_failed, fail, retry_decision, to_result,
  refusal, first_record, counted, judge_sample, is_complete, after_finalize, finish, after_counted,
  after_judged, sample_unless_late, verify_record, after_found, after_load, after_now,
  after_validation, verifier_now, verify,
}
use pulse_agent.Stabilization.Outcomes.{verify-success_at_deadline}
use pulse_agent.Stabilization.Samples.{verify_record-sample_limit}
use pulse_agent.Stabilization.Retries.{Permitted, verify-Permitted}
use pulse_agent.Scenarios.Memory.{memory, Pairs, String-discrete}
use pulse_agent.Scenarios.Samples.{sample, sample_target, sample_policy, sample_input, no_hash}
use pulse_agent.Scenarios.Tests.{coordinator_open}

abbrev stabilizing_request : StabilizationRequest
stabilizing_request = record {
  command = (sample phase_stabilizing).command;
  target = sample_target;
  policy = record { recovery_samples = pos 3; window = pos 60 };
  retry_policy = record { max_attempts = pos 2 };
  attempt = pos 0;
}

-- The attempt after some healthy samples, with an outcome.
abbrev attempt_with : ℤ → StabilizationOutcome → StabilizationRecord
attempt_with samples outcome = record {
  schema_version = "v1";
  command_id = "command-1";
  execution_succeeded = true;
  attempt = pos 0;
  started_at = 100;
  healthy_samples = samples;
  outcome = outcome;
  failure_reason = failure_none;
  retry_reason = reason_none;
  next_attempt = negsuc 0;
}

unfoldable StabilizationRecord-discrete : Discrete StabilizationRecord
StabilizationRecord-discrete = hlevel (String-discrete, ℕ_discrete)

marshal_one : {A B : Type 0} → Dec A → Dec B → Result String
marshal_one (yes a) d = ok "two"
marshal_one (no n) (yes b) = ok "done"
marshal_one (no n) (no m) = err invalid_contract

marshal_one-ok :
    {A B : Type 0} (c : Dec A) (d : Dec B) (s : String)
    → marshal_one c d ≡ ok s
    → (A × ("two" ≡ s)) ⊎ (B × ("done" ≡ s))
unfolding marshal_one
marshal_one-ok (yes a) d s h = inl (a, cc h)
marshal_one-ok (no n) (yes b) s h = inr (b, cc h)
marshal_one-ok (no n) (no m) s h = absurd (cc h)

-- A codec of two records.
marshal_attempt : StabilizationRecord → StabilizationRecord → StabilizationRecord → Result String
unfolding marshal_one StabilizationRecord-discrete
marshal_attempt a b r =
    marshal_one (StabilizationRecord-discrete r a) (StabilizationRecord-discrete r b)

decode_attempt : StabilizationRecord → StabilizationRecord → String → Option StabilizationRecord
decode_attempt a b s = if s == "two" then some a else if s == "done" then some b else none

decode-marshal_attempt :
    (a b r : StabilizationRecord) (d : String)
    → marshal_attempt a b r ≡ ok d
    → len d ≤ 65536
    → decode_attempt a b d ≡ some r
unfolding marshal_attempt decode_attempt
decode-marshal_attempt a b r d h fits =
    elim (marshal_one-ok (StabilizationRecord-discrete r a) (StabilizationRecord-discrete r b) d
      h) [ inl (e, t) ↦ rw (← t) (ap some (sym e)) | inr (e, t) ↦ rw (← t) (ap some (sym e)) ]

abbrev codec_of : StabilizationRecord → StabilizationRecord → Codec StabilizationRecord
codec_of a b = record {
  limit = 65536;
  marshal = marshal_attempt a b;
  decode = decode_attempt a b;
  decode-marshal = decode-marshal_attempt a b;
}

abbrev attempt_codec : Codec StabilizationRecord
attempt_codec = codec_of (attempt_with (pos 2) pending) (attempt_with (pos 3) succeeded)

-- The attempt after an unhealthy first sample, with a second attempt scheduled.
abbrev retried : StabilizationRecord
retried = record (attempt_with (pos 0) retry_scheduled) {
  failure_reason = failure_unhealthy;
  retry_reason = reason_allowed;
  next_attempt = pos 1;
}

abbrev retry_codec : Codec StabilizationRecord
retry_codec = codec_of retried (attempt_with (pos 3) succeeded)

abbrev unhealthy_at : Time → Surroundings
unhealthy_at t = record {
  Outside = Unit {0};
  clock_now = λ o. (t, o);
  observe = λ target o. (ok (record { healthy = false; metrics = [] }), o);
  finalize = λ command_id success o. (ok tt, o);
  load_retry_state = λ command o. (
    ok (record {
      target = sample_target;
      policy_snapshot = sample_policy false;
      policy_input = sample_input;
    }),
    o,
  );
}

-- A healthy target, at a time that the clock shows.
abbrev healthy_at : Time → Surroundings
healthy_at t = record {
  Outside = Unit {0};
  clock_now = λ o. (t, o);
  observe = λ target o. (ok (record { healthy = true; metrics = [] }), o);
  finalize = λ command_id success o. (ok tt, o);
  load_retry_state = λ command o. (err invalid_request, o);
}

abbrev attempt_stored : String → Pairs
attempt_stored document =
    (bucket_stabilization_results, result_key no_hash "command-1" (pos 0), document) ∷ []

abbrev third_result : StabilizationResult
third_result = to_result (attempt_with (pos 3) succeeded)

-- Opens the verifier, for evaluation.
verifier_open : Unit {0}
unfolding coordinator_open validate_stabilization_request validate_stabilization_record
    valid_outcome valid_sample metrics_meet_rules result_key checked_document load put_document
    store_document persist to_result counted judge_sample is_complete after_finalize finish
    after_counted after_judged sample_unless_late verify_record after_found after_load after_now
    after_validation verifier_now verify first_record failed_record decided_record end_failed
    finish_failed fail retry_decision same_target marshal_attempt decode_attempt
verifier_open = tt

-- The third healthy sample succeeds when it comes at the deadline.
third_sample :
    (verify memory no_hash attempt_codec
      (healthy_at 160)
      stabilizing_request
      (attempt_stored "two", tt)).0.result
    ≡ some third_result
unfolding verifier_open
third_sample = refl

verify-success_at_deadline_example :
    ((r : StabilizationRecord) × (load memory no_hash attempt_codec "command-1"
          (pos 0)
          (attempt_stored "two")
        ≡ ok (some r))
      × (r.outcome ≡ succeeded))
    ⊎ ((◌≡◌ {A = ℕ} 160 (add_time third_result.started_at (pos 60)))
        × (leb_ℤ (pos 3) third_result.healthy_samples ≡ true))
unfolding verifier_open
verify-success_at_deadline_example =
    verify-success_at_deadline memory no_hash attempt_codec (healthy_at 160) stabilizing_request
      (attempt_stored "two", tt) third_result refl refl

verify_record-sample_limit_example :
    verify_record memory no_hash attempt_codec
      (healthy_at 150)
      stabilizing_request
      (attempt_with (pos 256) pending)
      150
      ([], tt)
    ≡ (refusal corrupt_result, ([], tt))
unfolding verifier_open
verify_record-sample_limit_example =
    verify_record-sample_limit memory no_hash attempt_codec (healthy_at 150) stabilizing_request
      (attempt_with (pos 256) pending) 150 ([], tt) refl refl refl

verify-Permitted_example :
    ((r : StabilizationRecord) × (load memory no_hash retry_codec "command-1" (pos 0) []
        ≡ ok (some r))
      × (r.outcome ≡ retry_scheduled))
    ⊎ Permitted memory no_hash retry_codec (unhealthy_at 100) stabilizing_request 100 (pos 1)
unfolding verifier_open
verify-Permitted_example =
    verify-Permitted memory no_hash retry_codec (unhealthy_at 100) stabilizing_request ([], tt)
      (to_result retried) refl refl
