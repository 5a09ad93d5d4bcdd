-- ===== src/Recovery/Coordinator/Preparing.antt =====
-- prepare of internal/recovery/coordinator.go: what it leaves alone and what it journals.

use pulse_agent.Prelude.{
  arith, String, ◌≡◌, refl, sym, ap, ◌∙◌, subst, inl, inr, true, false, Option, none, some,
  Bool-cases,
}
use pulse_agent.Prelude.Result.{Result, ok, err, Result-cases}
use pulse_agent.Contract.{Time}
use pulse_agent.Policy.{Decision, evaluate, find_runbook}
use pulse_agent.Store.{Bolt}
use pulse_agent.Recovery.Types.{JournalRecord, Codec}
use pulse_agent.Recovery.Record.{valid_token, max_command_id_length}
use pulse_agent.Recovery.Journal
use pulse_agent.Recovery.Entries.{persist_pending-new}
use pulse_agent.Recovery.Journal.{StoredRecord}
use pulse_agent.Recovery.Coordinator.Deps.{Deps, World, Request}
use pulse_agent.Recovery.Coordinator.Check.{policy_input}
use pulse_agent.Recovery.Coordinator.Submit.{
  is_deny, record_for, Prepared, journaled, persist_prepared, prepare_with, prepare,
}

module _ (bolt : Bolt) (sha256_hex : String → String) (codec : Codec JournalRecord)
    (deps : Deps) where
  persist_prepared-keeps :
      (decision : Decision) (r : Option JournalRecord) (w : World bolt deps)
      → ((persist_prepared bolt sha256_hex codec deps decision r w).1.calls ≡ w.calls)
        × ((persist_prepared bolt sha256_hex codec deps decision r w).1.outside ≡ w.outside)
  persist_prepared-keeps decision none w = unfold persist_prepared in (refl, refl)
  persist_prepared-keeps decision (some r) w = unfold persist_prepared in (refl, refl)

  -- prepare journaled this record as new, for this request at this time.
  pub record Journaled (request : Request) (t : Time) (o : deps.Outside) (db : bolt.Tx)
      (r : JournalRecord) (decision : Decision) : Type 0 where
    pub command_id : String
    pub created : (deps.new_command_id o).0 ≡ ok command_id
    pub decided :
        decision ≡ evaluate request.policy_snapshot (policy_input request.policy_input command_id t)
    pub built :
        record_for request (policy_input request.policy_input command_id t) decision t (
          find_runbook request.policy_snapshot.runbooks
            (policy_input request.policy_input command_id t).runbook_id)
        ≡ some r
    pub is_new : (Journal.persist_pending bolt sha256_hex codec r db).0 ≡ ok (r, false)

  prepared-Journaled :
      (request : Request) (t : Time) (o : deps.Outside) (command_id : String)
      (built : Option JournalRecord) (w : World bolt deps) (r : JournalRecord) (decision : Decision)
      → (deps.new_command_id o).0 ≡ ok command_id
      → record_for request
          (policy_input request.policy_input command_id t)
          (evaluate request.policy_snapshot (policy_input request.policy_input command_id t))
          t
          (find_runbook request.policy_snapshot.runbooks
            (policy_input request.policy_input command_id t).runbook_id)
        ≡ built
      → (persist_prepared bolt sha256_hex codec deps
          (evaluate request.policy_snapshot (policy_input request.policy_input command_id t))
          built
          w).0
        ≡ journaled r false decision
      → Journaled request t o w.db r decision
  unfolding persist_prepared
  prepared-Journaled request t o command_id none w r decision created built h = absurd (cc h)
  prepared-Journaled request t o command_id (some first) w r decision created built h =
      elim (Result-cases (Journal.persist_pending bolt sha256_hex codec first w.db).0) [
        | inr (e, p) ↦ absurd (ground (arith, p, h))
        | inl ((stored, true), p) ↦ absurd (ground (arith, p, h))
        | inl ((stored, false), p) ↦
            let same : stored ≡ r = ground (arith, p, h) in
            let taken : evaluate request.policy_snapshot
                  (policy_input request.policy_input command_id t)
                ≡ decision =
              ground (arith, p, h) in
            let own : first ≡ stored =
              persist_pending-new bolt sha256_hex codec first stored w.db p in
            record {
              command_id = command_id;
              created = created;
              decided = sym taken;
              built = rw (← taken) (built ∙ ap some (own ∙ same));
              is_new =
                  subst
                    (λ x. (Journal.persist_pending bolt sha256_hex codec x w.db).0 ≡ ok (x, false))
                    (own ∙ same) (p ∙ ap (λ x. ok (x, false)) (sym own));
            }
      ]

  -- What prepare leaves alone, and what a new journal record of it is.
  pub record Prepares (request : Request) (t : Time) (w : World bolt deps) (prepared : Prepared)
      (w' : World bolt deps) : Type 0 where
    pub calls : w'.calls ≡ w.calls
    pub outside : w'.outside ≡ (deps.new_command_id w.outside).1
    pub journals :
        (r : JournalRecord) (decision : Decision)
        → prepared ≡ journaled r false decision
        → Journaled request t w.outside w.db r decision

  prepare_with-Prepares :
      (request : Request) (t : Time) (command_id : Result String) (w : World bolt deps)
      → (deps.new_command_id w.outside).0 ≡ command_id
      → Prepares request t w
          (prepare_with bolt sha256_hex codec deps request t command_id
            (record w { outside = (deps.new_command_id w.outside).1 })).0
          (prepare_with bolt sha256_hex codec deps request t command_id
            (record w { outside = (deps.new_command_id w.outside).1 })).1
  unfolding prepare_with
  prepare_with-Prepares request t (err e) w created = record {
    calls = refl;
    outside = refl;
    journals = λ r d h. absurd (cc h);
  }
  prepare_with-Prepares request t (ok command_id) w created =
      let input = policy_input request.policy_input command_id t in
      let decision = evaluate request.policy_snapshot input in
      let built =
        record_for request input decision t
          (find_runbook request.policy_snapshot.runbooks input.runbook_id) in
      let w1 : World bolt deps = record w { outside = (deps.new_command_id w.outside).1 } in
      elim (Bool-cases (valid_token command_id max_command_id_length)) [
        | inr bad ↦
            rw bad (record { calls = refl; outside = refl; journals = λ r d h. absurd (cc h) })
        | inl good ↦ elim (Bool-cases (is_deny decision.verdict)) [
          | inl denied ↦
              rw (good, denied)
                (record { calls = refl; outside = refl; journals = λ r d h. absurd (cc h) })
          | inr open_ ↦
              rw (good, open_)
                (record {
                  calls = (persist_prepared-keeps decision built w1).0;
                  outside = (persist_prepared-keeps decision built w1).1;
                  journals = λ r d h.
                      prepared-Journaled request t w.outside command_id built w1 r d created refl h;
                })
        ]
      ]

  pub prepare-Prepares :
      (request : Request) (t : Time) (w : World bolt deps)
      → Prepares request t w
          (prepare bolt sha256_hex codec deps request t w).0
          (prepare bolt sha256_hex codec deps request t w).1
  unfolding prepare
  prepare-Prepares request t w =
      prepare_with-Prepares request t (deps.new_command_id w.outside).0 w refl
