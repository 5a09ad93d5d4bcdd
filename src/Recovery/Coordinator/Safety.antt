-- ===== src/Recovery/Coordinator/Safety.antt =====
-- When the coordinator calls Adapter.Execute: the journal and the policy at each call.
use Prim.Native.String.{len}
use pulse_agent.Prelude.{
  ◌≤◌, String, ◌≡◌, refl, ap, subst, ◌⊎◌, inl, inr, true, List, none, some, Bool-cases, arith,
}
use pulse_agent.Prelude.Result.{Result, ok, err, Result-cases}
use pulse_agent.Contract.{Time}
use pulse_agent.Policy.{Decision, Verdict, verdict_allow}
use pulse_agent.Store.{Bolt}
use pulse_agent.Recovery.Types.{JournalRecord, Codec, phase_executing, phase_approved}
use pulse_agent.Recovery.Keys.{record_key}
use pulse_agent.Recovery.Transitions.{to_executing, eq_phase}
use pulse_agent.Recovery.Journal
use pulse_agent.Recovery.Writes.{update_record-reads_back}
use pulse_agent.Recovery.Coordinator.Deps.{
  Deps, World, recovery_started, AdapterCall, Revalidation, refused, lapsed, judged,
}
use pulse_agent.Recovery.Coordinator.Execute.{
  is_allow, revalidate, call_adapter, after_start, start, after_approve, approve_and_start,
  after_publish, after_second, after_validate, after_first, execute,
}
use pulse_agent.Recovery.Coordinator.Judgement.{
  asked, checked, Judged, Checked, Cleared, Called, revalidate-Judged, revalidate-calls, deny-calls,
  expire-calls, after_adapter-calls, to_executing-claims,
}

module _ (bolt : Bolt) (sha256_hex : String → String) (codec : Codec JournalRecord) (deps : Deps)
    (fits : (r : JournalRecord) (document : String)
      → codec.marshal r ≡ ok document
      → len document ≤ codec.limit) where
  open deps use {Outside}

  abbrev OneCall :
      JournalRecord → Outside → List (AdapterCall bolt) → List (AdapterCall bolt) → Type 0
  OneCall r o earlier calls =
      (calls ≡ earlier) ⊎ Called bolt sha256_hex codec deps r o earlier calls

  after_start-OneCall :
      (r : JournalRecord) (o : Outside) (decision : Decision) (t : Time)
      (started : Result JournalRecord) (w : World bolt deps)
      → Cleared bolt sha256_hex codec deps r o
      → ((executing : JournalRecord)
          → started ≡ ok executing
          → (Journal.load_record bolt sha256_hex codec w.db (record_key sha256_hex r.command)
              ≡ ok (some executing))
            × (executing.phase ≡ phase_executing))
      → OneCall r o w.calls (after_start bolt sha256_hex codec deps r decision t started w).1.calls
  after_start-OneCall r o decision t (err e) w cleared held = inl (unfold after_start in refl)
  after_start-OneCall r o decision t (ok executing) w cleared held = inr (record {
    call = record { target = executing.target; action = executing.action; store = w.db };
    added =
        unfold after_start call_adapter in
        after_adapter-calls bolt sha256_hex codec deps r decision t
          (deps.execute_action executing.target executing.action w.outside).0 _;
    cleared = cleared;
    executing = executing;
    stored = (held executing refl).0;
    claimed = (held executing refl).1;
    target = refl;
    action = refl;
  })

  start-OneCall :
      (r : JournalRecord) (o : Outside) (decision : Decision) (t : Time) (w : World bolt deps)
      → Cleared bolt sha256_hex codec deps r o
      → OneCall r o w.calls (start bolt sha256_hex codec deps r decision t w).1.calls
  unfolding start Journal.start_execution
  start-OneCall r o decision t w cleared =
      after_start-OneCall r o decision t
        (Journal.start_execution bolt sha256_hex codec (record_key sha256_hex r.command) w.db).0
        (record w {
          db =
              (Journal.start_execution bolt sha256_hex codec (record_key sha256_hex r.command)
                w.db).1;
        })
        cleared
        (λ executing h.
          let (before, loads, moved, reads) =
            update_record-reads_back bolt sha256_hex codec (record_key sha256_hex r.command)
              to_executing w.db executing (fits executing) h in
          (reads, to_executing-claims bolt sha256_hex codec deps before executing moved))

  approve_and_start-OneCall :
      (r : JournalRecord) (o : Outside) (decision : Decision) (t : Time) (w : World bolt deps)
      → Cleared bolt sha256_hex codec deps r o
      → OneCall r o w.calls (approve_and_start bolt sha256_hex codec deps r decision t w).1.calls
  approve_and_start-OneCall r o decision t w cleared =
      let approved = Journal.approve bolt sha256_hex codec (record_key sha256_hex r.command) w.db in
      elim (Result-cases approved.0) [
        | inr (e, failed) ↦ inl (unfold approve_and_start after_approve in rw failed refl)
        | inl (next, h) ↦
            unfold approve_and_start after_approve in
            rw h (start-OneCall r o decision t (record w { db = approved.1 }) cleared)
      ]

  after_publish-OneCall :
      (r : JournalRecord) (o : Outside) (decision : Decision) (t : Time)
      (answer : Result (Unit {0})) (w : World bolt deps)
      → (answer ≡ ok tt → Cleared bolt sha256_hex codec deps r o)
      → OneCall r o w.calls (after_publish bolt sha256_hex codec deps r decision t answer w).1.calls
  after_publish-OneCall r o decision t (err e) w cleared = inl (unfold after_publish in refl)
  after_publish-OneCall r o decision t (ok tt) w cleared =
      elim (Bool-cases (eq_phase r.phase phase_approved)) [
        | inl e ↦ unfold after_publish in rw e (start-OneCall r o decision t w (cleared refl))
        | inr e ↦
            unfold after_publish in rw e (approve_and_start-OneCall r o decision t w (cleared refl))
      ]

  is_allow-allow : (v : Verdict) → is_allow v ≡ true → v ≡ verdict_allow
  is_allow-allow v h = ground arith

  after_second-OneCall :
      (r : JournalRecord) (o : Outside) (second : Revalidation) (w : World bolt deps)
      → Checked bolt sha256_hex codec deps r o
      → ((decision : Decision) (t : Time)
          → second ≡ judged decision t
          → Judged bolt sha256_hex codec deps r (checked bolt sha256_hex codec deps r o) decision
            × (w.outside
                ≡ asked bolt sha256_hex codec deps r (checked bolt sha256_hex codec deps r o)))
      → OneCall r o w.calls (after_second bolt sha256_hex codec deps r second w).1.calls
  after_second-OneCall r o (refused decision e) w accepted taken =
      inl (unfold after_second in deny-calls bolt sha256_hex codec deps r decision (some e) w)
  after_second-OneCall r o lapsed w accepted taken =
      inl (unfold after_second in expire-calls bolt sha256_hex codec deps r w)
  after_second-OneCall r o (judged decision t) w accepted taken =
      elim (Bool-cases (is_allow decision.verdict)) [
        | inr e ↦ inl (
            unfold after_second in
            rw e (deny-calls bolt sha256_hex codec deps r (some decision) none w))
        | inl e ↦
            let (judged_at, here) = taken decision t refl in
            unfold after_second in
            rw e (
              after_publish-OneCall r o decision t
                (deps.publish (recovery_started r.command) w.outside).0
                (record w { outside = (deps.publish (recovery_started r.command) w.outside).1 })
                (λ answered. record {
                  accepted = accepted;
                  decision = decision;
                  taken = judged_at;
                  allowed = is_allow-allow decision.verdict e;
                  announced =
                      subst (λ x. (deps.publish (recovery_started r.command) x).0 ≡ ok tt) here
                        answered;
                }))
      ]

  after_validate-OneCall :
      (r : JournalRecord) (o : Outside) (decision : Decision) (answer : Result (Unit {0}))
      (w : World bolt deps)
      → (answer ≡ ok tt → Checked bolt sha256_hex codec deps r o)
      → w.outside ≡ checked bolt sha256_hex codec deps r o
      → OneCall r o w.calls (after_validate bolt sha256_hex codec deps r decision answer w).1.calls
  after_validate-OneCall r o decision (err e) w accepted here =
      inl (
        unfold after_validate in deny-calls bolt sha256_hex codec deps r (some decision) (some e) w)
  after_validate-OneCall r o decision (ok tt) w accepted here =
      unfold after_validate in
      subst
        (λ calls.
          OneCall r o calls
            (after_second bolt sha256_hex codec deps r (revalidate bolt sha256_hex codec deps r w).0
              (revalidate bolt sha256_hex codec deps r w).1).1.calls)
        (revalidate-calls bolt sha256_hex codec deps r w)
        (after_second-OneCall r o (revalidate bolt sha256_hex codec deps r w).0
          (revalidate bolt sha256_hex codec deps r w).1 (accepted refl)
          (λ d t h.
            subst
              (λ x.
                Judged bolt sha256_hex codec deps r x d
                × ((revalidate bolt sha256_hex codec deps r w).1.outside
                    ≡ asked bolt sha256_hex codec deps r x))
              here (revalidate-Judged bolt sha256_hex codec deps r w d t h)))

  after_first-OneCall :
      (r : JournalRecord) (o : Outside) (first : Revalidation) (w : World bolt deps)
      → ((decision : Decision) (t : Time)
          → first ≡ judged decision t
          → Judged bolt sha256_hex codec deps r o decision
            × (w.outside ≡ asked bolt sha256_hex codec deps r o))
      → OneCall r o w.calls (after_first bolt sha256_hex codec deps r first w).1.calls
  after_first-OneCall r o (refused decision e) w taken =
      inl (unfold after_first in deny-calls bolt sha256_hex codec deps r decision (some e) w)
  after_first-OneCall r o lapsed w taken =
      inl (unfold after_first in expire-calls bolt sha256_hex codec deps r w)
  after_first-OneCall r o (judged decision t) w taken =
      elim (Bool-cases (is_allow decision.verdict)) [
        | inr e ↦ inl (
            unfold after_first in
            rw e (deny-calls bolt sha256_hex codec deps r (some decision) none w))
        | inl e ↦
            let (judged_at, here) = taken decision t refl in
            unfold after_first in
            rw e (
              after_validate-OneCall r o decision
                (deps.validate_action r.target r.action w.outside).0
                (record w { outside = (deps.validate_action r.target r.action w.outside).1 })
                (λ answered. record {
                  first = decision;
                  first_taken = judged_at;
                  first_allowed = is_allow-allow decision.verdict e;
                  validated =
                      subst (λ x. (deps.validate_action r.target r.action x).0 ≡ ok tt) here
                        answered;
                })
                (ap (λ x. (deps.validate_action r.target r.action x).1) here))
      ]

  -- execute calls Adapter.Execute at most once. If it does, these calls of its dependencies came
  -- before, each from the outside state that the one before it left: the state source gave a state
  -- on which policy allowed the command at the time that the clock then read, which is before the
  -- command expires; the adapter accepted the action; the state source and the clock were asked
  -- again, with the same result; and the start was published without an error. At the moment of the
  -- call the store holds the command's record in phase executing, with the target and the action
  -- that the adapter is called with. The documents of journal records have to fit the decoder's
  -- size limit.
  pub execute-one_call :
      (r : JournalRecord) (w : World bolt deps)
      → ((execute bolt sha256_hex codec deps r w).1.calls ≡ w.calls)
        ⊎ Called bolt sha256_hex codec deps r w.outside w.calls
            (execute bolt sha256_hex codec deps r w).1.calls
  execute-one_call r w =
      unfold execute in
      subst
        (λ calls.
          OneCall r w.outside calls
            (after_first bolt sha256_hex codec deps r (revalidate bolt sha256_hex codec deps r w).0
              (revalidate bolt sha256_hex codec deps r w).1).1.calls)
        (revalidate-calls bolt sha256_hex codec deps r w)
        (after_first-OneCall r w.outside (revalidate bolt sha256_hex codec deps r w).0
          (revalidate bolt sha256_hex codec deps r w).1
          (revalidate-Judged bolt sha256_hex codec deps r w))
