-- ===== src/Stabilization/Retries.antt =====
-- When internal/stabilization/verifier.go schedules a retry.
use pulse_agent.Prelude.{
  String, ◌≡◌, ◌≢◌, ◌∙◌, Bool-cases, refl, subst, ap, ◌⊎◌, inl, inr, Bool, true, false, Option,
  none, some, if◌then◌else◌, arith,
}
use pulse_agent.Prelude.Int.{ℤ, inc, ltb_ℤ}
use pulse_agent.Prelude.Result.{Result, ok, err, invalid_options, is_ok}
use pulse_agent.Contract.{Time, is_zero}
use pulse_agent.Policy.{Verdict, verdict_allow, reason_retry_exhausted}
use pulse_agent.Store.{Bolt}
use pulse_agent.Recovery.Types.{Codec}
use pulse_agent.Stabilization.Types.{
  RetryState, pending, succeeded, retry_scheduled, failed_terminally, FailureReason,
  failure_timeout, StabilizationRequest, StabilizationRecord, StabilizationResult, Surroundings,
}
use pulse_agent.Stabilization.Record.{validate_stabilization_request}
use pulse_agent.Stabilization.Documents.{load, persist}
use pulse_agent.Stabilization.Verifier.{
  is_allow, retry_decision, to_result, first_record, failed_record, decided_record, counted,
  judge_sample, State, finish_failed, end_failed, fail, is_complete, sample_unless_late,
  after_found, is_pending, after_counted, after_judged, verify_record, after_load, after_now,
  after_validation, verifier_now, verify,
}
use pulse_agent.Stabilization.Outcomes.{is_pending-pending, answer-result, finish-result}

module _ (bolt : Bolt) (sha256_hex : String → String) (codec : Codec StabilizationRecord)
    (around : Surroundings) where
  open around use {Outside, clock_now, observe, finalize, load_retry_state}

  -- An attempt is left, and the policy allows it, at this time, on a state that the source gave.
  pub record Permitted (request : StabilizationRequest) (t : Time) (next : ℤ) : Type 0 where
    pub attempt_left : ltb_ℤ (inc request.attempt) request.retry_policy.max_attempts ≡ true
    pub source : Outside
    pub state : RetryState
    pub loaded : (load_retry_state request.command source).0 ≡ ok state
    pub allowed : (retry_decision request t state).verdict ≡ verdict_allow
    pub next_one : next ≡ inc request.attempt

  is_allow-allow : (v : Verdict) → is_allow v ≡ true → v ≡ verdict_allow
  is_allow-allow v h = ground arith

  decided-Permitted :
      (request : StabilizationRequest) (t : Time) (r : StabilizationRecord)
      (state : Result RetryState) (o : Outside) (res : StabilizationResult)
      → ltb_ℤ (inc request.attempt) request.retry_policy.max_attempts ≡ true
      → (load_retry_state request.command o).0 ≡ state
      → res ≡ to_result (decided_record request t r state).0
      → res.outcome ≡ retry_scheduled
      → Permitted request t res.next_attempt
  unfolding decided_record to_result
  decided-Permitted request t r (err e) o res left l same s =
      absurd (cc (ap (λ x. x.outcome) same, s))
  decided-Permitted request t r (ok state) o res left l same s =
      elim (Bool-cases (is_allow (retry_decision request t state).verdict)) [
        | inr e ↦
            let outcome : res.outcome ≡ failed_terminally =
              ap (λ x. x.outcome) same ∙ (rw e refl) in
            absurd (cc (outcome, s))
        | inl e ↦ record {
          attempt_left = left;
          source = o;
          state = state;
          loaded = l;
          allowed = is_allow-allow (retry_decision request t state).verdict e;
          next_one = ap (λ x. x.next_attempt) same ∙ (rw e refl);
        }
      ]

  end_failed-Permitted :
      (request : StabilizationRequest) (failed : StabilizationRecord) (t : Time) (again : Bool)
      (w : State bolt sha256_hex codec around) (res : StabilizationResult)
      → ltb_ℤ (inc request.attempt) request.retry_policy.max_attempts ≡ again
      → (end_failed bolt sha256_hex codec around request failed t again w).0.result ≡ some res
      → res.outcome ≡ retry_scheduled
      → Permitted request t res.next_attempt
  unfolding end_failed finish_failed
  end_failed-Permitted request failed t true w res left h s =
      let answer = load_retry_state request.command w.1 in
      let decided = decided_record request t failed answer.0 in
      decided-Permitted request t failed answer.0 w.1 res left refl
        (finish-result bolt sha256_hex codec around decided.0 false decided.1 (w.0, answer.1) res h)
        s
  end_failed-Permitted request failed t false w res left h s =
      let same =
        finish-result bolt sha256_hex codec around
          (record failed { outcome = failed_terminally; retry_reason = reason_retry_exhausted })
          false none w res h in
      absurd (unfold to_result in cc (ap (λ x. x.outcome) same, s))

  after_counted-no_retry :
      (r : StabilizationRecord) (complete : Bool) (w : State bolt sha256_hex codec around)
      (res : StabilizationResult)
      → r.outcome ≡ pending
      → (after_counted bolt sha256_hex codec around r complete w).0.result ≡ some res
      → res.outcome ≢ retry_scheduled
  unfolding after_counted to_result
  after_counted-no_retry r true w res p h s =
      let same =
        finish-result bolt sha256_hex codec around (record r { outcome = succeeded }) true none w
          res h in
      cc (ap (λ x. x.outcome) same, s)
  after_counted-no_retry r false w res p h s =
      let same = answer-result r none (persist bolt sha256_hex codec r w.0).0 res h in
      cc (ap (λ x. x.outcome) same, p, s)

  after_judged-Permitted :
      (request : StabilizationRequest) (r : StabilizationRecord) (t : Time)
      (reason : Option FailureReason) (w : State bolt sha256_hex codec around)
      (res : StabilizationResult)
      → r.outcome ≡ pending
      → (after_judged bolt sha256_hex codec around request r t reason w).0.result ≡ some res
      → res.outcome ≡ retry_scheduled
      → Permitted request t res.next_attempt
  unfolding after_judged fail counted
  after_judged-Permitted request r t (some reason) w res p h s =
      end_failed-Permitted request (failed_record r reason) t _ w res refl h s
  after_judged-Permitted request r t none w res p h s =
      absurd (after_counted-no_retry (counted r) (is_complete request (counted r) t) w res p h s)

  sample_unless_late-Permitted :
      (request : StabilizationRequest) (r : StabilizationRecord) (t : Time) (late : Bool)
      (w : State bolt sha256_hex codec around) (res : StabilizationResult)
      → r.outcome ≡ pending
      → (sample_unless_late bolt sha256_hex codec around request r t late w).0.result ≡ some res
      → res.outcome ≡ retry_scheduled
      → Permitted request t res.next_attempt
  unfolding sample_unless_late fail
  sample_unless_late-Permitted request r t true w res p h s =
      end_failed-Permitted request (failed_record r failure_timeout) t _ w res refl h s
  sample_unless_late-Permitted request r t false w res p h s =
      after_judged-Permitted request r t (judge_sample request r (observe request.target w.1).0)
        (w.0, (observe request.target w.1).1) res p h s

  -- What a scheduled retry stands for.
  abbrev Retried :
      StabilizationRequest
      → Time
      → Result (Option StabilizationRecord)
      → StabilizationResult
      → Type 0
  Retried request t found res =
      ((r : StabilizationRecord) × (found ≡ ok (some r)) × (r.outcome ≡ retry_scheduled))
      ⊎ Permitted request t res.next_attempt

  after_found-Retried :
      (request : StabilizationRequest) (r : StabilizationRecord) (t : Time) (open_ : Bool)
      (w : State bolt sha256_hex codec around) (res : StabilizationResult)
      → is_pending r.outcome ≡ open_
      → (after_found bolt sha256_hex codec around request r t open_ w).0.result ≡ some res
      → res.outcome ≡ retry_scheduled
      → Retried request t (ok (some r)) res
  unfolding after_found verify_record to_result
  after_found-Retried request r t true w res e h s =
      inr (sample_unless_late-Permitted request r t _ w res (is_pending-pending r.outcome e) h s)
  after_found-Retried request r t false w res e h s = inl (r, refl, cc (h, s))

  after_load-Retried :
      (request : StabilizationRequest) (t : Time) (found : Result (Option StabilizationRecord))
      (w : State bolt sha256_hex codec around) (res : StabilizationResult)
      → (after_load bolt sha256_hex codec around request t found w).0.result ≡ some res
      → res.outcome ≡ retry_scheduled
      → Retried request t found res
  unfolding after_load verify_record
  after_load-Retried request t (err e) w res h s = absurd (cc h)
  after_load-Retried request t (ok none) w res h s = inr (
      sample_unless_late-Permitted request (first_record request t) t _ w res
        (unfold first_record in refl) h s)
  after_load-Retried request t (ok (some r)) w res h s =
      after_found-Retried request r t (is_pending r.outcome) w res refl h s

  after_now-Retried :
      (request : StabilizationRequest) (time : Result Time) (now : Time)
      (w : State bolt sha256_hex codec around) (res : StabilizationResult)
      → ((t : Time) → time ≡ ok t → t ≡ now)
      → (after_now bolt sha256_hex codec around request time w).0.result ≡ some res
      → res.outcome ≡ retry_scheduled
      → Retried request now
          (load bolt sha256_hex codec request.command.command_id request.attempt w.0)
          res
  unfolding after_now
  after_now-Retried request (err e) now w res n h s = absurd (cc h)
  after_now-Retried request (ok t) now w res n h s =
      let found = load bolt sha256_hex codec request.command.command_id request.attempt w.0 in
      subst (λ x. Retried request x found res) (n t refl)
        (after_load-Retried request t found w res h s)

  after_validation-Retried :
      (request : StabilizationRequest) (valid : Bool) (w : State bolt sha256_hex codec around)
      (res : StabilizationResult)
      → (after_validation bolt sha256_hex codec around request valid w).0.result ≡ some res
      → res.outcome ≡ retry_scheduled
      → Retried request
          (clock_now w.1).0
          (load bolt sha256_hex codec request.command.command_id request.attempt w.0)
          res
  unfolding after_validation verifier_now
  after_validation-Retried request false w res h s = absurd (cc h)
  after_validation-Retried request true w res h s =
      after_now-Retried request
        (if is_zero (clock_now w.1).0 then err invalid_options else ok (clock_now w.1).0)
        (clock_now w.1).0 (w.0, (clock_now w.1).1) res (λ t e. ground arith) h s

  -- Verify reports a scheduled retry only for an attempt that was stored with one, or when an attempt
  -- is left and the policy allows the command at the time of the call, on a state that the retry
  -- source gave; the next attempt is then the following number.
  pub verify-Permitted :
      (request : StabilizationRequest) (w : State bolt sha256_hex codec around)
      (res : StabilizationResult)
      → (verify bolt sha256_hex codec around request w).0.result ≡ some res
      → res.outcome ≡ retry_scheduled
      → ((r : StabilizationRecord) × (load bolt sha256_hex codec request.command.command_id
              request.attempt w.0
            ≡ ok (some r))
          × (r.outcome ≡ retry_scheduled))
        ⊎ Permitted request (clock_now w.1).0 res.next_attempt
  unfolding verify
  verify-Permitted request w res h s =
      after_validation-Retried request (is_ok (validate_stabilization_request request)) w res h s
