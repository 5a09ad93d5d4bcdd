-- ===== src/Recovery/Coordinator/Restart.antt =====
-- Resume, CompleteStabilization and Reconcile of internal/recovery/coordinator.go.
use pulse_agent.Prelude.{
  String, Bool, true, false, not, ◌&&◌, List, [], ◌∷◌, Option, none, some, ◌==◌, if◌then◌else◌,
}
use pulse_agent.Prelude.Result.{Result, ok, err, invalid_request}
use pulse_agent.Contract.{
  Time, RecoveryCommand, RecoveryCommandState, recovery_pending, recovery_succeeded,
  recovery_failed, eq_recovery_command_state,
}
use pulse_agent.Store.{Bolt}
use pulse_agent.Recovery.Types.{
  JournalRecord, Codec, DockerSnapshot, empty_snapshot, phase_awaiting_approval, phase_completed,
}
use pulse_agent.Recovery.Record.{valid_token, max_command_id_length}
use pulse_agent.Recovery.Transitions.{eq_phase}
use pulse_agent.Recovery.Journal
use pulse_agent.Recovery.Journal.{StoredRecord}
use pulse_agent.Recovery.Coordinator.Deps.{
  Deps, outcome_await_approval, Reply, failed, reply, M, ◌>>=◌, pure, ask, transact,
}
use pulse_agent.Recovery.Coordinator.Check.{existing_outcome}
use pulse_agent.Recovery.Coordinator.Execute.{now, execute}

module _ (bolt : Bolt) (sha256_hex : String → String) (codec : Codec JournalRecord)
    (deps : Deps) where
  open deps use {verify}

  -- Resume after the journal was searched for the command.
  unfoldable pub resume_found : Result (Option StoredRecord) → M bolt deps Reply
  resume_found (err e) = pure (failed e)
  resume_found (ok none) = pure (failed invalid_request)
  resume_found (ok (some found)) =
      let r = found.stored in
      if eq_phase r.phase phase_awaiting_approval
        && eq_recovery_command_state r.command.state recovery_pending
      then (if r.command.approval_id == ""
          then pure (
              reply (record {
                command = some r.command;
                outcome = some outcome_await_approval;
                decision = none;
                duplicate = false;
              }))
          else execute bolt sha256_hex codec deps r)
      else pure (
          reply (record {
            command = some r.command;
            outcome = some (existing_outcome r);
            decision = none;
            duplicate = true;
          }))

  unfoldable pub resume : String → M bolt deps Reply
  resume command_id =
      if not (valid_token command_id max_command_id_length)
      then pure (failed invalid_request)
      else λ w.
          resume_found (Journal.find_record_by_command_id bolt sha256_hex codec w.db command_id) w

  -- The terminal state that a verification result stands for.
  abbrev pub terminal_state : Bool → RecoveryCommandState
  terminal_state true = recovery_succeeded
  terminal_state false = recovery_failed

  abbrev pub command_of : Result JournalRecord → Result RecoveryCommand
  command_of (err e) = err e
  command_of (ok completed) = ok completed.command

  unfoldable pub complete_found :
      Bool → Result (Option StoredRecord) → M bolt deps (Result RecoveryCommand)
  complete_found succeeded (err e) = pure (err e)
  complete_found succeeded (ok none) = pure (err invalid_request)
  complete_found succeeded (ok (some found)) =
      let next = terminal_state succeeded in
      if eq_phase found.stored.phase phase_completed
        && eq_recovery_command_state found.stored.command.state next
      then pure (ok found.stored.command)
      else do
        completed ←
            transact bolt deps (Journal.complete_stabilization bolt sha256_hex codec found.key next)
        pure (command_of completed)

  unfoldable pub complete_stabilization : String → Bool → M bolt deps (Result RecoveryCommand)
  complete_stabilization command_id succeeded =
      if not (valid_token command_id max_command_id_length)
      then pure (err invalid_request)
      else λ w.
          complete_found succeeded
            (Journal.find_record_by_command_id bolt sha256_hex codec w.db command_id) w

  -- One round of Reconcile's loop, after the clock and the adapter answered: whether the answer is
  -- about the command's target, and the snapshot that is kept.
  abbrev pub is_verified : StoredRecord → Result DockerSnapshot → Bool
  is_verified found (err e) = false
  is_verified found (ok snapshot) = snapshot.target_id == found.stored.command.target_id

  abbrev pub kept : StoredRecord → Result DockerSnapshot → DockerSnapshot
  kept found (err e) = empty_snapshot
  kept found (ok snapshot) =
      if snapshot.target_id == found.stored.command.target_id then snapshot else empty_snapshot

  unfoldable pub reconcile_at : StoredRecord → Result Time → M bolt deps (Result JournalRecord)
  reconcile_at found (err e) = pure (err e)
  reconcile_at found (ok t) = do
    answer ← ask bolt deps (verify found.stored.target)
    transact bolt deps (
        Journal.mark_verify_and_notify bolt sha256_hex codec found.key (kept found answer)
          (is_verified found answer) t)

  unfoldable pub reconcile_one : StoredRecord → M bolt deps (Result JournalRecord)
  reconcile_one found = do t ← now bolt sha256_hex codec deps; reconcile_at found t

  -- The updated records, in order; an error ends the loop and drops the results.
  abbrev pub append_result :
      JournalRecord → Result (List JournalRecord) → Result (List JournalRecord)
  append_result r (err e) = err e
  append_result r (ok rest) = ok (r ∷ rest)

  -- The rest of the loop after one round.
  unfoldable pub after_round :
      M bolt deps (Result (List JournalRecord))
      → Result JournalRecord
      → M bolt deps (Result (List JournalRecord))
  after_round later (err e) = pure (err e)
  after_round later (ok r) = do rest ← later; pure (append_result r rest)

  unfoldable pub reconcile_loop : List StoredRecord → M bolt deps (Result (List JournalRecord))
  reconcile_loop [] = pure (ok [])
  reconcile_loop (found ∷ rest) = do
    updated ← reconcile_one found
    after_round (reconcile_loop rest) updated

  unfoldable pub reconcile_records :
      Result (List StoredRecord) → M bolt deps (Result (List JournalRecord))
  reconcile_records (err e) = pure (err e)
  reconcile_records (ok records) = reconcile_loop records

  -- Reconcile; the caller's results are the updated records with outcome verify_and_notify.
  unfoldable pub reconcile : M bolt deps (Result (List JournalRecord))
  reconcile w = reconcile_records (Journal.reconcilable_records bolt sha256_hex codec w.db) w
