-- ===== src/Recovery/Coordinator/Submit.antt =====
-- Submit and prepare of internal/recovery/coordinator.go.
use pulse_agent.Prelude.{String, Bool, true, false, not, Option, none, some, ltb, if◌then◌else◌}
use pulse_agent.Prelude.Result.{Error, Result, ok, err, invalid_options, invalid_request}
use pulse_agent.Contract.{Time, Approval, recovery_pending, schema_version_v1, TypedAction}
use pulse_agent.Policy.{
  Input, Decision, Verdict, verdict_none, verdict_allow, verdict_await_approval, verdict_deny,
  RegisteredRunbook, evaluate, find_runbook, action_at,
}
use pulse_agent.Store.{Bolt}
use pulse_agent.Recovery.Types.{JournalRecord, Codec, phase_pending, phase_awaiting_approval}
use pulse_agent.Recovery.Record.{valid_token, max_command_id_length}
use pulse_agent.Recovery.Journal
use pulse_agent.Recovery.Journal.{StoredRecord}
use pulse_agent.Recovery.Coordinator.Deps.{
  Deps, analysis_unavailable, policy_denied, approval_requested, Request, outcome_denied,
  outcome_expired, outcome_await_approval, SubmitResult, Reply, failed, reply, M, ◌>>=◌, pure, ask,
  transact,
}
use pulse_agent.Recovery.Coordinator.Check.{policy_input, existing_outcome, validate_request}
use pulse_agent.Recovery.Coordinator.Execute.{now, execute}

abbrev approval_id_of : Option Approval → String
approval_id_of none = ""
approval_id_of (some approval) = approval.approval_id

abbrev pub is_await : Verdict → Bool
is_await verdict_await_approval = true
is_await _ = false

abbrev pub is_deny : Verdict → Bool
is_deny verdict_deny = true
is_deny _ = false

-- The record that prepare builds for a decided request.
unfoldable pub new_record :
    Request → Input → RegisteredRunbook → TypedAction → Decision → Time → JournalRecord
new_record request input registered action decision t = record {
  schema_version = schema_version_v1;
  command = record {
    schema_version = schema_version_v1;
    command_id = input.command_id;
    incident_id = request.incident_id;
    runbook_id = input.runbook_id;
    runbook_digest = input.runbook_digest;
    target_id = request.target.target_id;
    action_index = input.action_index;
    risk_tier = registered.runbook.risk_tier;
    approval_id = approval_id_of input.approval;
    issued_at = t;
    expires_at = request.expires_at;
    idempotency_key = request.idempotency_key;
    state = recovery_pending;
  };
  target = request.target;
  action = action;
  phase = if is_await decision.verdict then phase_awaiting_approval else phase_pending;
  reconciliation = none;
}

-- The record for the registered action of a request, or none where prepare finds no such action.
unfoldable pub record_for :
    Request → Input → Decision → Time → Option RegisteredRunbook → Option JournalRecord
record_for request input decision t none = none
record_for request input decision t (some registered) =
    elim (action_at registered.runbook.typed_actions input.action_index) [
      | none ↦ none
      | some action ↦ some (new_record request input registered action decision t)
    ]

-- prepare's results: an error, a denial, or a journaled record with its `duplicate` flag.
pub data Prepared : Type 0 where
  unprepared : Error → Prepared
  turned_down : Decision → Prepared
  journaled : JournalRecord → Bool → Decision → Prepared

abbrev pub persisted : Decision → Result (JournalRecord × Bool) → Prepared
persisted decision (err e) = unprepared e
persisted decision (ok (r, duplicate)) = journaled r duplicate decision

module _ (bolt : Bolt) (sha256_hex : String → String) (codec : Codec JournalRecord)
    (deps : Deps) where
  open deps use {new_command_id, verify, publish}

  unfoldable pub persist_prepared : Decision → Option JournalRecord → M bolt deps Prepared
  persist_prepared decision none = pure (unprepared invalid_request)
  persist_prepared decision (some r) = do
    stored ← transact bolt deps (Journal.persist_pending bolt sha256_hex codec r)
    pure (persisted decision stored)

  -- prepare after a command ID was created.
  unfoldable pub prepare_with : Request → Time → Result String → M bolt deps Prepared
  prepare_with request t (err e) = pure (unprepared e)
  prepare_with request t (ok command_id) =
      let input = policy_input request.policy_input command_id t in
      let decision = evaluate request.policy_snapshot input in
      if not (valid_token command_id max_command_id_length)
      then pure (unprepared invalid_options)
      else if is_deny decision.verdict
      then pure (turned_down decision)
      else persist_prepared decision (
          record_for request input decision t
            (find_runbook request.policy_snapshot.runbooks input.runbook_id))

  unfoldable pub prepare : Request → Time → M bolt deps Prepared
  prepare request t = do
    command_id ← ask bolt deps new_command_id
    prepare_with request t command_id

  abbrev pub unless_failed : SubmitResult → Result (Unit {0}) → Reply
  unless_failed r (err e) = failed e
  unless_failed r (ok _) = reply r

  abbrev pub duplicate_result : JournalRecord → Decision → SubmitResult
  duplicate_result r decision = record {
    command = some r.command;
    outcome = some (existing_outcome r);
    decision = some decision;
    duplicate = true;
  }

  -- Submit's switch on the verdict, for a record that is new in the journal.
  unfoldable pub after_journaled : JournalRecord → Decision → Verdict → M bolt deps Reply
  after_journaled r decision verdict_await_approval = do
    published ← ask bolt deps (publish (approval_requested r.command))
    pure (
        unless_failed
          (record {
            command = some r.command;
            outcome = some outcome_await_approval;
            decision = some decision;
            duplicate = false;
          })
          published)
  after_journaled r decision verdict_allow = execute bolt sha256_hex codec deps r
  after_journaled r decision verdict_deny = pure (failed invalid_request)
  after_journaled r decision verdict_none = pure (failed invalid_request)

  -- Submit after prepare.
  unfoldable pub after_prepare : Request → Prepared → M bolt deps Reply
  after_prepare request (unprepared e) = pure (failed e)
  after_prepare request (turned_down decision) = do
    published ←
        ask bolt deps
          (publish (policy_denied request.incident_id request.idempotency_key decision.reason_code))
    pure (
        unless_failed
          (record {
            command = none;
            outcome = some outcome_denied;
            decision = some decision;
            duplicate = false;
          })
          published)
  after_prepare request (journaled r true decision) =
      if is_await decision.verdict
      then (do
        published ← ask bolt deps (publish (approval_requested r.command))
        pure (unless_failed (duplicate_result r decision) published))
      else pure (reply (duplicate_result r decision))
  after_prepare request (journaled r false decision) = after_journaled r decision decision.verdict

  unfoldable pub after_analysis : Request → Time → Result (Unit {0}) → M bolt deps Reply
  after_analysis request t (err e) = pure (failed e)
  after_analysis request t (ok _) = do prepared ← prepare request t; after_prepare request prepared

  -- Submit publishes that no analysis is available, and goes on.
  unfoldable pub analyse : Request → Time → Bool → M bolt deps Reply
  analyse request t true = after_analysis request t (ok tt)
  analyse request t false = do
    published ←
        ask bolt deps (publish (analysis_unavailable request.incident_id request.idempotency_key))
    after_analysis request t published

  -- Submit after the clock was read.
  unfoldable pub submit_at : Request → Result Time → M bolt deps Reply
  submit_at request (err e) = pure (failed e)
  submit_at request (ok t) =
      if not (ltb t request.expires_at)
      then pure (
          reply (record {
            command = none;
            outcome = some outcome_expired;
            decision = none;
            duplicate = false;
          }))
      else analyse request t request.policy_input.analysis_available

  unfoldable pub submit_checked : Request → Result (Unit {0}) → M bolt deps Reply
  submit_checked request (err e) = pure (failed e)
  submit_checked request (ok _) = do t ← now bolt sha256_hex codec deps; submit_at request t

  unfoldable pub submit : Request → M bolt deps Reply
  submit request = submit_checked request (validate_request request)
