-- ===== src/Recovery/Coordinator/Resumption.antt =====
-- Resume of internal/recovery/coordinator.go: the one call of Adapter.Execute that it may make.
use Prim.Native.String.{len}
use pulse_agent.Prelude.{
  ◌≤◌, String, ◌≡◌, refl, arith, ◌⊎◌, inl, inr, true, false, List, Option, none, some, ◌==◌, ◌&&◌,
  Bool-cases,
}
use pulse_agent.Prelude.Result.{Result, ok, err}
use pulse_agent.Contract.{recovery_pending, eq_recovery_command_state}
use pulse_agent.Store.{Bolt}
use pulse_agent.Recovery.Types.{JournalRecord, Codec, phase_awaiting_approval}
use pulse_agent.Recovery.Record.{valid_token, max_command_id_length}
use pulse_agent.Recovery.Transitions.{eq_phase}
use pulse_agent.Recovery.Journal
use pulse_agent.Recovery.Journal.{StoredRecord}
use pulse_agent.Recovery.Coordinator.Deps.{Deps, World, AdapterCall}
use pulse_agent.Recovery.Coordinator.Restart.{resume_found, resume}
use pulse_agent.Recovery.Approval.Matched.{find_record-command_id}
use pulse_agent.Recovery.Coordinator.Judgement.{Called}
use pulse_agent.Recovery.Coordinator.Safety.{execute-one_call}

module _ (bolt : Bolt) (sha256_hex : String → String) (codec : Codec JournalRecord)
    (deps : Deps) where
  -- The stored record of a command that waits for an approval and has one.
  pub record Approved (command_id : String) (db : bolt.Tx) (r : JournalRecord) : Type 0 where
    pub key : String
    pub found :
        Journal.find_record_by_command_id bolt sha256_hex codec db command_id
        ≡ ok (some (record { key = key; stored = r }))
    pub named : r.command.command_id ≡ command_id
    pub waiting : eq_phase r.phase phase_awaiting_approval ≡ true
    pub pending : eq_recovery_command_state r.command.state recovery_pending ≡ true
    pub has_approval : (r.command.approval_id == "") ≡ false

  -- No call, or the call of execute for the approved record of this command.
  abbrev pub ResumedOnce : String → World bolt deps → List (AdapterCall bolt) → Type 0
  ResumedOnce command_id w calls =
      (calls ≡ w.calls)
      ⊎ ((r : JournalRecord) × Approved command_id w.db r
          × Called bolt sha256_hex codec deps r w.outside w.calls calls)

  module _
      (fits : (r : JournalRecord) (document : String)
        → codec.marshal r ≡ ok document
        → len document ≤ codec.limit) where
    resume_found-ResumedOnce :
        (command_id : String) (found : Result (Option StoredRecord)) (w : World bolt deps)
        → Journal.find_record_by_command_id bolt sha256_hex codec w.db command_id ≡ found
        → ResumedOnce command_id w (resume_found bolt sha256_hex codec deps found w).1.calls
    unfolding resume_found
    resume_found-ResumedOnce command_id (err e) w h = inl refl
    resume_found-ResumedOnce command_id (ok none) w h = inl refl
    resume_found-ResumedOnce command_id (ok (some found)) w h =
        let r = found.stored in
        elim (Bool-cases (
          eq_phase r.phase phase_awaiting_approval
          && eq_recovery_command_state r.command.state recovery_pending)) [
            | inr e ↦ inl (rw e refl)
            | inl e ↦ elim (Bool-cases (r.command.approval_id == "")) [
              | inl f ↦ inl (rw (e, f) refl)
              | inr f ↦ elim (execute-one_call bolt sha256_hex codec deps fits r w) [
                | inl same ↦ inl (rw (e, f) same)
                | inr called ↦ inr (
                  r,
                  record {
                    key = found.key;
                    found = h;
                    named = find_record-command_id bolt sha256_hex codec command_id w.db found h;
                    waiting = ground arith;
                    pending = ground arith;
                    has_approval = f;
                  },
                  rw (e, f) called,
                )
              ]
            ]
          ]

    -- Resume calls Adapter.Execute at most once, and only for the stored record with the given command
    -- ID, if it waits for an approval, is pending and has an approval ID. The call is as for execute,
    -- from the state in which Resume was called. The documents of journal records have to fit the
    -- decoder's size limit.
    pub resume-one_call :
        (command_id : String) (w : World bolt deps)
        → ResumedOnce command_id w (resume bolt sha256_hex codec deps command_id w).1.calls
    unfolding resume
    resume-one_call command_id w =
        elim (Bool-cases (valid_token command_id max_command_id_length)) [
          | inr bad ↦ inl (rw bad refl)
          | inl good ↦ rw good (
              resume_found-ResumedOnce command_id
                (Journal.find_record_by_command_id bolt sha256_hex codec w.db command_id) w refl)
        ]
