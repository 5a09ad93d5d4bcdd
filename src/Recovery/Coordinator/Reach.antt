-- ===== src/Recovery/Coordinator/Reach.antt =====
-- Submit of internal/recovery/coordinator.go: the one call of Adapter.Execute that it may make.
use Prim.Native.String.{len}
use pulse_agent.Prelude.{
  ◌≤◌, String, ◌≡◌, refl, ap, ◌∙◌, subst, ◌⊎◌, inl, inr, Bool, true, false, List, ltb, Bool-cases,
}
use pulse_agent.Prelude.Result.{Result, ok, err}
use pulse_agent.Contract.{Time}
use pulse_agent.Policy.{
  Decision, Verdict, verdict_allow, verdict_await_approval, verdict_deny, verdict_none,
}
use pulse_agent.Store.{Bolt}
use pulse_agent.Recovery.Types.{JournalRecord, Codec}
use pulse_agent.Recovery.Coordinator.Deps.{Deps, World, AdapterCall, Request, analysis_unavailable}
use pulse_agent.Recovery.Coordinator.Check.{validate_request}
use pulse_agent.Recovery.Coordinator.Execute.{checked_time, now, execute}
use pulse_agent.Recovery.Coordinator.Submit.{
  is_await, Prepared, unprepared, turned_down, journaled, prepare, after_journaled, after_prepare,
  after_analysis, analyse, submit_at, submit_checked, submit,
}
use pulse_agent.Recovery.Coordinator.Preparing.{Journaled, prepare-Prepares}
use pulse_agent.Recovery.Coordinator.Judgement.{Called}
use pulse_agent.Recovery.Coordinator.Safety.{execute-one_call}

module _ (bolt : Bolt) (sha256_hex : String → String) (codec : Codec JournalRecord) (deps : Deps)
    (fits : (r : JournalRecord) (document : String)
      → codec.marshal r ≡ ok document
      → len document ≤ codec.limit) where
  open deps use {Outside, clock_now, new_command_id, publish}

  -- The outside state after Submit has published that no analysis is available, if so.
  abbrev analysed : Request → Bool → Outside → Outside
  analysed request true o = o
  analysed request false o =
      (publish (analysis_unavailable request.incident_id request.idempotency_key) o).1

  -- The outside state in which Submit asks for a command ID.
  abbrev pub before_prepare : Request → Outside → Outside
  before_prepare request o =
      analysed request request.policy_input.analysis_available (clock_now o).1

  -- The record was built and journaled as new for this request, at the time that the clock read, which
  -- is before the request expires, and the policy allowed it then.
  pub record Admitted (request : Request) (w : World bolt deps) (r : JournalRecord) : Type 0 where
    pub at : Time
    pub read : checked_time (clock_now w.outside).0 ≡ ok at
    pub in_time : ltb at request.expires_at ≡ true
    pub decision : Decision
    pub new_in_journal :
        Journaled bolt sha256_hex codec deps request at
          (before_prepare request w.outside)
          w.db
          r
          decision
    pub allowed : decision.verdict ≡ verdict_allow

  -- No call, or the call of execute for an admitted record.
  abbrev pub CalledOnce : Request → World bolt deps → List (AdapterCall bolt) → Type 0
  CalledOnce request w calls =
      (calls ≡ w.calls)
      ⊎ ((r : JournalRecord) × Admitted request w r
          × Called bolt sha256_hex codec deps r
              (new_command_id (before_prepare request w.outside)).1 w.calls calls)

  module _ (request : Request) (w0 : World bolt deps) where
    after_journaled-CalledOnce :
        (r : JournalRecord) (decision : Decision) (v : Verdict) (w : World bolt deps)
        → (v ≡ verdict_allow → Admitted request w0 r)
        → w.calls ≡ w0.calls
        → w.outside ≡ (new_command_id (before_prepare request w0.outside)).1
        → CalledOnce request w0 (after_journaled bolt sha256_hex codec deps r decision v w).1.calls
    unfolding after_journaled
    after_journaled-CalledOnce r decision verdict_none w a c o = inl c
    after_journaled-CalledOnce r decision verdict_await_approval w a c o = inl c
    after_journaled-CalledOnce r decision verdict_deny w a c o = inl c
    after_journaled-CalledOnce r decision verdict_allow w a c o =
        elim (execute-one_call bolt sha256_hex codec deps fits r w) [
          | inl same ↦ inl (same ∙ c)
          | inr called ↦ inr (
            r,
            a refl,
            subst
                (λ x.
                  Called bolt sha256_hex codec deps r
                    (new_command_id (before_prepare request w0.outside)).1 x
                    (execute bolt sha256_hex codec deps r w).1.calls)
                c
                (subst
                  (λ x.
                    Called bolt sha256_hex codec deps r x w.calls
                      (execute bolt sha256_hex codec deps r w).1.calls)
                  o called),
          )
        ]

    after_prepare-CalledOnce :
        (prepared : Prepared) (w : World bolt deps)
        → ((r : JournalRecord) (decision : Decision)
            → prepared ≡ journaled r false decision
            → decision.verdict ≡ verdict_allow
            → Admitted request w0 r)
        → w.calls ≡ w0.calls
        → w.outside ≡ (new_command_id (before_prepare request w0.outside)).1
        → CalledOnce request w0
            (after_prepare bolt sha256_hex codec deps request prepared w).1.calls
    unfolding after_prepare
    after_prepare-CalledOnce (unprepared e) w a c o = inl c
    after_prepare-CalledOnce (turned_down decision) w a c o = inl c
    after_prepare-CalledOnce (journaled r true decision) w a c o =
        elim (Bool-cases (is_await decision.verdict)) [
          | inl e ↦ inl (rw e c)
          | inr e ↦ inl (rw e c)
        ]
    after_prepare-CalledOnce (journaled r false decision) w a c o =
        after_journaled-CalledOnce r decision decision.verdict w (a r decision refl) c o

    -- Submit from where it calls prepare.
    prepared-CalledOnce :
        (t : Time) (w : World bolt deps)
        → checked_time (clock_now w0.outside).0 ≡ ok t
        → ltb t request.expires_at ≡ true
        → w.calls ≡ w0.calls
        → w.db ≡ w0.db
        → w.outside ≡ before_prepare request w0.outside
        → CalledOnce request w0
            (after_prepare bolt sha256_hex codec deps request
              (prepare bolt sha256_hex codec deps request t w).0
              (prepare bolt sha256_hex codec deps request t w).1).1.calls
    prepared-CalledOnce t w read early c d o =
        let p = prepare-Prepares bolt sha256_hex codec deps request t w in
        after_prepare-CalledOnce (prepare bolt sha256_hex codec deps request t w).0
          (prepare bolt sha256_hex codec deps request t w).1
          (λ r decision e allowed. record {
            at = t;
            read = read;
            in_time = early;
            decision = decision;
            new_in_journal =
                subst (λ x. Journaled bolt sha256_hex codec deps request t x w0.db r decision) o
                  (subst
                    (λ x. Journaled bolt sha256_hex codec deps request t w.outside x r decision) d
                    (p.journals r decision e));
            allowed = allowed;
          })
          (p.calls ∙ c) (p.outside ∙ ap (λ x. (new_command_id x).1) o)

    after_analysis-CalledOnce :
        (t : Time) (published : Result (Unit {0})) (w : World bolt deps)
        → checked_time (clock_now w0.outside).0 ≡ ok t
        → ltb t request.expires_at ≡ true
        → w.calls ≡ w0.calls
        → w.db ≡ w0.db
        → w.outside ≡ before_prepare request w0.outside
        → CalledOnce request w0
            (after_analysis bolt sha256_hex codec deps request t published w).1.calls
    unfolding after_analysis
    after_analysis-CalledOnce t (err e) w read early c d o = inl c
    after_analysis-CalledOnce t (ok _) w read early c d o = prepared-CalledOnce t w read early c d o

    analyse-CalledOnce :
        (t : Time) (available : Bool) (w : World bolt deps)
        → checked_time (clock_now w0.outside).0 ≡ ok t
        → ltb t request.expires_at ≡ true
        → w.calls ≡ w0.calls
        → w.db ≡ w0.db
        → analysed request available w.outside ≡ before_prepare request w0.outside
        → CalledOnce request w0 (analyse bolt sha256_hex codec deps request t available w).1.calls
    unfolding analyse
    analyse-CalledOnce t true w read early c d o =
        after_analysis-CalledOnce t (ok tt) w read early c d o
    analyse-CalledOnce t false w read early c d o =
        let published =
          publish (analysis_unavailable request.incident_id request.idempotency_key) w.outside in
        after_analysis-CalledOnce t published.0 (record w { outside = published.1 }) read early c d
          o

    submit_at-CalledOnce :
        (time : Result Time)
        → checked_time (clock_now w0.outside).0 ≡ time
        → CalledOnce request w0
            (submit_at bolt sha256_hex codec deps request time
              (record w0 { outside = (clock_now w0.outside).1 })).1.calls
    unfolding submit_at
    submit_at-CalledOnce (err e) read = inl refl
    submit_at-CalledOnce (ok t) read = elim (Bool-cases (ltb t request.expires_at)) [
      | inr e ↦ inl (rw e refl)
      | inl e ↦ rw e (
          analyse-CalledOnce t request.policy_input.analysis_available
            (record w0 { outside = (clock_now w0.outside).1 }) read e refl refl refl)
    ]

    submit_checked-CalledOnce :
        (valid : Result (Unit {0}))
        → CalledOnce request w0 (submit_checked bolt sha256_hex codec deps request valid w0).1.calls
    unfolding submit_checked now
    submit_checked-CalledOnce (err e) = inl refl
    submit_checked-CalledOnce (ok _) =
        submit_at-CalledOnce (checked_time (clock_now w0.outside).0) refl

  -- Submit calls Adapter.Execute at most once, and only for the record that it has built for this
  -- request and journaled as new, with the command ID that the generator gave, at a time read from
  -- the clock before the request expires, at which the policy allowed the request. The call is then
  -- as for execute from there on: cleared by two revalidations and made while the store holds the
  -- record in phase executing. The documents of journal records have to fit the decoder's size
  -- limit.
  pub submit-one_call :
      (request : Request) (w : World bolt deps)
      → CalledOnce request w (submit bolt sha256_hex codec deps request w).1.calls
  unfolding submit
  submit-one_call request w = submit_checked-CalledOnce request w (validate_request request)
