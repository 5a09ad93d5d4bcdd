-- ===== src/Stabilization/Outcomes.antt =====
-- What the outcomes of internal/stabilization/verifier.go stand for.
use pulse_agent.Prelude.{
  String, ◌≡◌, ◌≢◌, refl, subst, ap, ◌⊎◌, inl, inr, Bool, true, false, Option, none, some, ltb,
  if◌then◌else◌, arith,
}
use pulse_agent.Prelude.Int.{inc, ltb_ℤ, leb_ℤ}
use pulse_agent.Prelude.Result.{Error, Result, ok, err, invalid_options, is_ok}
use pulse_agent.Contract.{add_time, Time, is_zero}
use pulse_agent.Policy.{reason_retry_exhausted}
use pulse_agent.Store.{Bolt}
use pulse_agent.Recovery.Types.{Codec}
use pulse_agent.Stabilization.Types.{
  RetryState, StabilizationOutcome, pending, succeeded, failed_terminally, FailureReason,
  failure_timeout, StabilizationRequest, StabilizationRecord, StabilizationResult, Surroundings,
}
use pulse_agent.Stabilization.Record.{validate_stabilization_request}
use pulse_agent.Stabilization.Documents.{load, persist}
use pulse_agent.Stabilization.Verifier.{
  to_result, first_record, failed_record, decided_record, counted, judge_sample, State, answer,
  after_finalize, finish, finish_failed, end_failed, fail, is_complete, sample_unless_late,
  after_found, is_pending, after_counted, after_judged, verify_record, after_load, after_now,
  after_validation, verifier_now, verify,
}

pub answer-result :
    (r : StabilizationRecord) (cause : Option Error) (persisted : Result (Unit {0}))
    (res : StabilizationResult)
    → (answer r cause persisted).result ≡ some res
    → res ≡ to_result r
answer-result r cause (err e) res h = absurd (cc h)
answer-result r cause (ok _) res h = cc h

pub is_pending-pending : (o : StabilizationOutcome) → is_pending o ≡ true → o ≡ pending
is_pending-pending o h = ground arith

module _ (bolt : Bolt) (sha256_hex : String → String) (codec : Codec StabilizationRecord)
    (around : Surroundings) where
  open around use {clock_now, observe, finalize, load_retry_state}

  after_finalize-result :
      (r : StabilizationRecord) (cause : Option Error) (finalized : Result (Unit {0}))
      (w : State bolt sha256_hex codec around) (res : StabilizationResult)
      → (after_finalize bolt sha256_hex codec around r cause finalized w).0.result ≡ some res
      → res ≡ to_result r
  unfolding after_finalize
  after_finalize-result r cause (err e) w res h = absurd (cc h)
  after_finalize-result r cause (ok _) w res h =
      answer-result r cause (persist bolt sha256_hex codec r w.0).0 res h

  pub finish-result :
      (r : StabilizationRecord) (success : Bool) (cause : Option Error)
      (w : State bolt sha256_hex codec around) (res : StabilizationResult)
      → (finish bolt sha256_hex codec around r success cause w).0.result ≡ some res
      → res ≡ to_result r
  unfolding finish
  finish-result r success cause w res h =
      after_finalize-result r cause (finalize r.command_id success w.1).0
        (w.0, (finalize r.command_id success w.1).1) res h

  decided-not_succeeded :
      (request : StabilizationRequest) (t : Time) (r : StabilizationRecord)
      (state : Result RetryState)
      → (decided_record request t r state).0.outcome ≢ succeeded
  unfolding decided_record
  decided-not_succeeded request t r (err e) h = cc h
  decided-not_succeeded request t r (ok state) h = ground arith

  end_failed-not_succeeded :
      (request : StabilizationRequest) (failed : StabilizationRecord) (t : Time) (again : Bool)
      (w : State bolt sha256_hex codec around) (res : StabilizationResult)
      → (end_failed bolt sha256_hex codec around request failed t again w).0.result ≡ some res
      → res.outcome ≢ succeeded
  unfolding end_failed finish_failed to_result
  end_failed-not_succeeded request failed t true w res h s =
      let answer = load_retry_state request.command w.1 in
      let decided = decided_record request t failed answer.0 in
      let same = finish-result decided.0 false decided.1 (w.0, answer.1) res h in
      decided-not_succeeded request t failed answer.0 (cc (ap (λ x. x.outcome) same, s))
  end_failed-not_succeeded request failed t false w res h s =
      let same =
        finish-result
          (record failed { outcome = failed_terminally; retry_reason = reason_retry_exhausted })
          false none w res h in
      cc (ap (λ x. x.outcome) same, s)

  after_counted-success :
      (r : StabilizationRecord) (complete : Bool) (w : State bolt sha256_hex codec around)
      (res : StabilizationResult)
      → r.outcome ≡ pending
      → (after_counted bolt sha256_hex codec around r complete w).0.result ≡ some res
      → res.outcome ≡ succeeded
      → (complete ≡ true)
        × (res.started_at ≡ r.started_at)
        × (res.healthy_samples ≡ r.healthy_samples)
  unfolding after_counted to_result
  after_counted-success r true w res p h s =
      let same = finish-result (record r { outcome = succeeded }) true none w res h in
      (refl, ap (λ x. x.started_at) same, ap (λ x. x.healthy_samples) same)
  after_counted-success r false w res p h s =
      let same = answer-result r none (persist bolt sha256_hex codec r w.0).0 res h in
      absurd (cc (ap (λ x. x.outcome) same, p, s))

  -- What a success stands for, at the time of the call.
  abbrev Done : StabilizationRequest → Time → StabilizationResult → Type 0
  Done request t res =
      (t ≡ add_time res.started_at request.policy.window)
      × (leb_ℤ request.policy.recovery_samples res.healthy_samples ≡ true)

  is_complete-Done :
      (request : StabilizationRequest) (r : StabilizationRecord) (t : Time)
      (res : StabilizationResult)
      → ltb (add_time r.started_at request.policy.window) t ≡ false
      → is_complete request (counted r) t ≡ true
      → res.started_at ≡ r.started_at
      → res.healthy_samples ≡ (counted r).healthy_samples
      → Done request t res
  unfolding is_complete counted
  is_complete-Done request r t res late c s n = ground (arith, s, n)

  after_judged-success :
      (request : StabilizationRequest) (r : StabilizationRecord) (t : Time)
      (reason : Option FailureReason) (w : State bolt sha256_hex codec around)
      (res : StabilizationResult)
      → r.outcome ≡ pending
      → ltb (add_time r.started_at request.policy.window) t ≡ false
      → (after_judged bolt sha256_hex codec around request r t reason w).0.result ≡ some res
      → res.outcome ≡ succeeded
      → Done request t res
  unfolding after_judged fail counted
  after_judged-success request r t (some reason) w res p late h s = absurd (
      end_failed-not_succeeded request (failed_record r reason) t
        (ltb_ℤ (inc request.attempt) request.retry_policy.max_attempts) w res h s)
  after_judged-success request r t none w res p late h s =
      let (c, started, samples) =
        after_counted-success (counted r) (is_complete request (counted r) t) w res p h s in
      is_complete-Done request r t res late c started samples

  sample_unless_late-success :
      (request : StabilizationRequest) (r : StabilizationRecord) (t : Time) (late : Bool)
      (w : State bolt sha256_hex codec around) (res : StabilizationResult)
      → r.outcome ≡ pending
      → ltb (add_time r.started_at request.policy.window) t ≡ late
      → (sample_unless_late bolt sha256_hex codec around request r t late w).0.result ≡ some res
      → res.outcome ≡ succeeded
      → Done request t res
  unfolding sample_unless_late fail
  sample_unless_late-success request r t true w res p e h s = absurd (
      end_failed-not_succeeded request (failed_record r failure_timeout) t
        (ltb_ℤ (inc request.attempt) request.retry_policy.max_attempts) w res h s)
  sample_unless_late-success request r t false w res p e h s =
      after_judged-success request r t (judge_sample request r (observe request.target w.1).0)
        (w.0, (observe request.target w.1).1) res p e h s

  after_found-success :
      (request : StabilizationRequest) (r : StabilizationRecord) (t : Time) (open_ : Bool)
      (w : State bolt sha256_hex codec around) (res : StabilizationResult)
      → is_pending r.outcome ≡ open_
      → (after_found bolt sha256_hex codec around request r t open_ w).0.result ≡ some res
      → res.outcome ≡ succeeded
      → (r.outcome ≡ succeeded) ⊎ Done request t res
  unfolding after_found verify_record to_result
  after_found-success request r t true w res e h s =
      inr (sample_unless_late-success request r t _ w res (is_pending-pending r.outcome e) refl h s)
  after_found-success request r t false w res e h s = inl (cc (h, s))

  after_load-success :
      (request : StabilizationRequest) (t : Time) (found : Result (Option StabilizationRecord))
      (w : State bolt sha256_hex codec around) (res : StabilizationResult)
      → (after_load bolt sha256_hex codec around request t found w).0.result ≡ some res
      → res.outcome ≡ succeeded
      → ((r : StabilizationRecord) × (found ≡ ok (some r)) × (r.outcome ≡ succeeded))
        ⊎ Done request t res
  unfolding after_load verify_record
  after_load-success request t (err e) w res h s = absurd (cc h)
  after_load-success request t (ok none) w res h s = inr (
      sample_unless_late-success request (first_record request t) t _ w res
        (unfold first_record in refl) refl h s)
  after_load-success request t (ok (some r)) w res h s =
      elim (after_found-success request r t (is_pending r.outcome) w res refl h s) [
        | inl settled ↦ inl (r, refl, settled)
        | inr done ↦ inr done
      ]

  after_now-success :
      (request : StabilizationRequest) (time : Result Time) (now : Time)
      (w : State bolt sha256_hex codec around) (res : StabilizationResult)
      → ((t : Time) → time ≡ ok t → t ≡ now)
      → (after_now bolt sha256_hex codec around request time w).0.result ≡ some res
      → res.outcome ≡ succeeded
      → ((r : StabilizationRecord) × (load bolt sha256_hex codec request.command.command_id
              request.attempt w.0
            ≡ ok (some r))
          × (r.outcome ≡ succeeded))
        ⊎ Done request now res
  unfolding after_now
  after_now-success request (err e) now w res n h s = absurd (cc h)
  after_now-success request (ok t) now w res n h s =
      subst
        (λ x.
          ((r : StabilizationRecord) × (load bolt sha256_hex codec request.command.command_id
                request.attempt w.0
              ≡ ok (some r))
            × (r.outcome ≡ succeeded))
          ⊎ Done request x res)
        (n t refl)
        (after_load-success request t
          (load bolt sha256_hex codec request.command.command_id request.attempt w.0) w res h s)

  after_validation-success :
      (request : StabilizationRequest) (valid : Bool) (w : State bolt sha256_hex codec around)
      (res : StabilizationResult)
      → (after_validation bolt sha256_hex codec around request valid w).0.result ≡ some res
      → res.outcome ≡ succeeded
      → ((r : StabilizationRecord) × (load bolt sha256_hex codec request.command.command_id
              request.attempt w.0
            ≡ ok (some r))
          × (r.outcome ≡ succeeded))
        ⊎ Done request (clock_now w.1).0 res
  unfolding after_validation verifier_now
  after_validation-success request false w res h s = absurd (cc h)
  after_validation-success request true w res h s =
      after_now-success request
        (if is_zero (clock_now w.1).0 then err invalid_options else ok (clock_now w.1).0)
        (clock_now w.1).0 (w.0, (clock_now w.1).1) res (λ t e. ground arith) h s

  -- Verify reports a success only for an attempt that was stored as succeeded before, or when the
  -- clock reads exactly the start of the attempt plus the window, with the required number of
  -- samples.
  pub verify-success_at_deadline :
      (request : StabilizationRequest) (w : State bolt sha256_hex codec around)
      (res : StabilizationResult)
      → (verify bolt sha256_hex codec around request w).0.result ≡ some res
      → res.outcome ≡ succeeded
      → ((r : StabilizationRecord) × (load bolt sha256_hex codec request.command.command_id
              request.attempt w.0
            ≡ ok (some r))
          × (r.outcome ≡ succeeded))
        ⊎ (((clock_now w.1).0 ≡ add_time res.started_at request.policy.window)
            × (leb_ℤ request.policy.recovery_samples res.healthy_samples ≡ true))
  unfolding verify
  verify-success_at_deadline request w res h s =
      after_validation-success request (is_ok (validate_stabilization_request request)) w res h s
