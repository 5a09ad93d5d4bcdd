-- ===== src/Stabilization/Samples.antt =====
-- The bound on the samples of internal/stabilization/verifier.go, and attempts that are decided.
use pulse_agent.Prelude.{ℕ, String, ◌≡◌, refl, true, false, none, ltb, arith}
use pulse_agent.Prelude.Int.{pos}
use pulse_agent.Prelude.Result.{corrupt_result, is_ok}
use pulse_agent.Contract.{add_time}
use pulse_agent.Store.{Bolt}
use pulse_agent.Recovery.Types.{Codec}
use pulse_agent.Stabilization.Types.{StabilizationRequest, StabilizationRecord, Surroundings}
use pulse_agent.Stabilization.Record.{validate_stabilization_record}
use pulse_agent.Stabilization.Documents.{persist}
use pulse_agent.Stabilization.Verifier.{
  refusal, counted, judge_sample, is_complete, State, after_counted, after_judged,
  sample_unless_late, verify_record,
}

-- A record with more samples than the bound is not valid.
too_many-invalid :
    (r : StabilizationRecord)
    → r.healthy_samples ≡ pos 256
    → is_ok (validate_stabilization_record (counted r)) ≡ false
unfolding validate_stabilization_record counted
too_many-invalid r h = ground (arith, h)

is_complete-early :
    (request : StabilizationRequest) (r : StabilizationRecord) (t : ℕ)
    → ltb t (add_time r.started_at request.policy.window) ≡ true
    → is_complete request (counted r) t ≡ false
unfolding is_complete counted
is_complete-early request r t h = ground (arith, h)

not_late : (a b : ℕ) → ltb a b ≡ true → ltb b a ≡ false
not_late a b h = ground arith

module _ (bolt : Bolt) (sha256_hex : String → String) (codec : Codec StabilizationRecord)
    (around : Surroundings) where
  open around use {clock_now, observe}

  -- After 256 healthy samples within the window, the next healthy sample is an error: Verify returns
  -- corrupt_result, and neither the store nor the command changes.
  pub verify_record-sample_limit :
      (request : StabilizationRequest) (r : StabilizationRecord) (t : ℕ)
      (w : State bolt sha256_hex codec around)
      → r.healthy_samples ≡ pos 256
      → ltb t (add_time r.started_at request.policy.window) ≡ true
      → judge_sample request r (observe request.target w.1).0 ≡ none
      → verify_record bolt sha256_hex codec around request r t w
        ≡ (refusal corrupt_result, (w.0, (observe request.target w.1).1))
  verify_record-sample_limit request r t w h early good =
      unfold verify_record sample_unless_late after_judged after_counted persist in
      rw
        (
          not_late t (add_time r.started_at request.policy.window) early,
          good,
          is_complete-early request r t early,
          too_many-invalid r h,
        )
        refl
