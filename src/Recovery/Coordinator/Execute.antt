-- ===== src/Recovery/Coordinator/Execute.antt =====
-- `execute`, `revalidate` and `denyAfterRevalidation` of internal/recovery/coordinator.go. Each
-- function `after_…` is the part of `execute` that follows the step it names.
use pulse_agent.Prelude.{
  String, Bool, true, false, not, ◌∷◌, Option, none, some, ltb, if◌then◌else◌,
}
use pulse_agent.Prelude.Result.{Error, Result, ok, err, invalid_options}
use pulse_agent.Contract.{Time, is_zero, RecoveryCommand, recovery_stabilizing}
use pulse_agent.Policy.{Decision, Verdict, verdict_allow, deny, reason_invalid_policy}
use pulse_agent.Store.{Bolt}
use pulse_agent.Recovery.Types.{JournalRecord, Codec, empty_snapshot, phase_approved}
use pulse_agent.Recovery.Keys.{record_key}
use pulse_agent.Recovery.Transitions.{eq_phase}
use pulse_agent.Recovery.Journal
use pulse_agent.Recovery.Coordinator.Deps.{
  ExecutionState, Deps, recovery_started, Outcome, outcome_denied, outcome_expired,
  outcome_stabilizing, outcome_verify_and_notify, SubmitResult, Reply, failed, reply, Revalidation,
  refused, lapsed, judged, M, ◌>>=◌, pure, ask, transact,
}
use pulse_agent.Recovery.Coordinator.Check.{revalidate_state}

abbrev pub is_allow : Verdict → Bool
is_allow verdict_allow = true
is_allow _ = false

-- Clock.Now, which has to be set.
abbrev pub checked_time : Time → Result Time
checked_time t = if is_zero t then err invalid_options else ok t

-- The decision on the loaded state, at a time that was read.
unfoldable pub judge : ExecutionState → JournalRecord → Result Time → Revalidation
judge state r (err e) = refused none e
judge state r (ok now) =
    if not (ltb now r.command.expires_at) then lapsed else judged (revalidate_state state r now) now

module _ (bolt : Bolt) (sha256_hex : String → String) (codec : Codec JournalRecord)
    (deps : Deps) where
  open deps use {Outside, clock_now, load, validate_action, execute_action, publish}

  unfoldable pub now : M bolt deps (Result Time)
  now = do t ← ask bolt deps clock_now; pure (checked_time t)

  unfoldable pub judge_loaded : JournalRecord → Result ExecutionState → M bolt deps Revalidation
  judge_loaded r (err e) = pure (refused (some (deny reason_invalid_policy)) e)
  judge_loaded r (ok state) = do t ← now; pure (judge state r t)

  unfoldable pub revalidate : JournalRecord → M bolt deps Revalidation
  revalidate r = do state ← ask bolt deps (load r.command); judge_loaded r state

  -- A Result about a command, with the outcome and the decision.
  abbrev pub about : RecoveryCommand → Outcome → Option Decision → SubmitResult
  about command outcome decision = record {
    command = some command;
    outcome = some outcome;
    decision = decision;
    duplicate = false;
  }

  abbrev pub denied_reply : Option Decision → Option Error → Result JournalRecord → Reply
  denied_reply decision cause (err e) = failed e
  denied_reply decision cause (ok updated) = record {
    result = some (about updated.command outcome_denied decision);
    error = cause;
  }

  unfoldable pub deny_after_revalidation :
      JournalRecord → Option Decision → Option Error → M bolt deps Reply
  deny_after_revalidation r decision cause = do
    updated ←
        transact bolt deps (Journal.deny bolt sha256_hex codec (record_key sha256_hex r.command))
    pure (denied_reply decision cause updated)

  abbrev pub expired_reply : Result JournalRecord → Reply
  expired_reply (err e) = failed e
  expired_reply (ok updated) = reply (about updated.command outcome_expired none)

  unfoldable pub expire_command : JournalRecord → M bolt deps Reply
  expire_command r = do
    updated ←
        transact bolt deps (Journal.expire bolt sha256_hex codec (record_key sha256_hex r.command))
    pure (expired_reply updated)

  abbrev pub stabilizing_reply : Decision → Result JournalRecord → Reply
  stabilizing_reply decision (err e) = failed e
  stabilizing_reply decision (ok stabilizing) =
      reply (about stabilizing.command outcome_stabilizing (some decision))

  abbrev pub uncertain_reply : Decision → Error → Result JournalRecord → Reply
  uncertain_reply decision cause (err e) = failed e
  uncertain_reply decision cause (ok uncertain) = record {
    result = some (about uncertain.command outcome_verify_and_notify (some decision));
    error = some cause;
  }

  -- After Adapter.Execute.
  unfoldable pub after_adapter :
      JournalRecord → Decision → Time → Result (Unit {0}) → M bolt deps Reply
  after_adapter r decision t (err cause) = do
    uncertain ← transact bolt deps (
        Journal.mark_verify_and_notify bolt sha256_hex codec (record_key sha256_hex r.command)
          empty_snapshot false t)
    pure (uncertain_reply decision cause uncertain)
  after_adapter r decision t (ok _) = do
    stabilizing ← transact bolt deps (
        Journal.finish_execution bolt sha256_hex codec (record_key sha256_hex r.command)
          recovery_stabilizing)
    pure (stabilizing_reply decision stabilizing)

  -- The call of Adapter.Execute, noted with the store at that moment.
  unfoldable pub call_adapter : JournalRecord → M bolt deps (Result (Unit {0}))
  call_adapter executing w =
      let (answer, o) = execute_action executing.target executing.action w.outside in
      (
        answer,
        record w {
          outside = o;
          calls =
              (record { target = executing.target; action = executing.action; store = w.db })
              ∷ w.calls;
        },
      )

  -- After startExecution.
  unfoldable pub after_start :
      JournalRecord → Decision → Time → Result JournalRecord → M bolt deps Reply
  after_start r decision t (err e) = pure (failed e)
  after_start r decision t (ok executing) = do
    answer ← call_adapter executing
    after_adapter r decision t answer

  unfoldable pub start : JournalRecord → Decision → Time → M bolt deps Reply
  start r decision t = do
    executing ←
        transact bolt deps
          (Journal.start_execution bolt sha256_hex codec (record_key sha256_hex r.command))
    after_start r decision t executing

  -- After approve.
  unfoldable pub after_approve :
      JournalRecord → Decision → Time → Result JournalRecord → M bolt deps Reply
  after_approve r decision t (err e) = pure (failed e)
  after_approve r decision t (ok approved) = start r decision t

  unfoldable pub approve_and_start : JournalRecord → Decision → Time → M bolt deps Reply
  approve_and_start r decision t = do
    approved ←
        transact bolt deps (Journal.approve bolt sha256_hex codec (record_key sha256_hex r.command))
    after_approve r decision t approved

  -- After publishRecoveryStarted.
  unfoldable pub after_publish :
      JournalRecord → Decision → Time → Result (Unit {0}) → M bolt deps Reply
  after_publish r decision t (err e) = pure (record {
    result = some (record {
      command = some r.command;
      outcome = none;
      decision = some decision;
      duplicate = false;
    });
    error = some e;
  })
  after_publish r decision t (ok _) =
      if eq_phase r.phase phase_approved then start r decision t else approve_and_start r decision t

  -- After the second revalidation.
  unfoldable pub after_second : JournalRecord → Revalidation → M bolt deps Reply
  after_second r (refused decision e) = deny_after_revalidation r decision (some e)
  after_second r lapsed = expire_command r
  after_second r (judged decision t) =
      if not (is_allow decision.verdict) then deny_after_revalidation r (some decision) none else do
        published ← ask bolt deps (publish (recovery_started r.command))
        after_publish r decision t published

  -- After ValidateAction.
  unfoldable pub after_validate : JournalRecord → Decision → Result (Unit {0}) → M bolt deps Reply
  after_validate r decision (err e) = deny_after_revalidation r (some decision) (some e)
  after_validate r decision (ok _) = do second ← revalidate r; after_second r second

  -- After the first revalidation.
  unfoldable pub after_first : JournalRecord → Revalidation → M bolt deps Reply
  after_first r (refused decision e) = deny_after_revalidation r decision (some e)
  after_first r lapsed = expire_command r
  after_first r (judged decision t) =
      if not (is_allow decision.verdict) then deny_after_revalidation r (some decision) none else do
        checked ← ask bolt deps (validate_action r.target r.action)
        after_validate r decision checked

  unfoldable pub execute : JournalRecord → M bolt deps Reply
  execute r = do first ← revalidate r; after_first r first
