-- ===== src/Recovery/Approval/Plan.antt =====
-- The callback of Decide in internal/recovery/approval.go up to its call of appendAudit, which stands
-- last on every branch, and LoadApproval.

use pulse_agent.Prelude.{
  ltb, String, Bool, true, false, not, ◌||◌, ◌&&◌, Option, none, some, ◌==◌, if◌then◌else◌,
}
use pulse_agent.Prelude.Result.{
  Error, Result, ok, err, corrupt_journal, invalid_approval_options, invalid_decision,
  command_not_found, decision_conflict, command_expired, ◌>>=◌, ◌>>◌, fail_if, or_error, is_ok,
}
use pulse_agent.Contract.{
  Time, Approval, RecoveryCommand, recovery_pending, eq_recovery_command_state, approval_denied,
  eq_approval_decision, schema_version_v1,
}
use pulse_agent.Store.{Bolt, bucket_approvals, put, get}
use pulse_agent.Recovery.Types.{JournalRecord, Codec, phase_awaiting_approval}
use pulse_agent.Recovery.Record.{valid_token, max_command_id_length}
use pulse_agent.Recovery.Journal.{StoredRecord, find_record_by_command_id, put_record}
use pulse_agent.Recovery.Transitions.{eq_phase, transition_to_denied, transition_to_expired}
use pulse_agent.Recovery.Approval.Types.{
  DecisionRequest, AuditStep, approval_record_key, approval_command_key, validate_approval,
}

abbrev is_present {ℓ} : {A : Type ℓ} → Option A → Bool
is_present none = false
is_present (some a) = true

-- Waiting for an approval, with none recorded.
unfoldable pub is_undecided : JournalRecord → Bool
is_undecided r =
    eq_phase r.phase phase_awaiting_approval
    && eq_recovery_command_state r.command.state recovery_pending
    && r.command.approval_id == ""

abbrev pub new_approval : DecisionRequest → Time → String → RecoveryCommand → Approval
new_approval request now approval_id command = record {
  schema_version = schema_version_v1;
  approval_id = approval_id;
  command_id = command.command_id;
  decision = request.decision;
  approver_identity = request.actor_identity;
  reason = request.reason_code;
  created_at = now;
  expires_at = request.expires_at;
}

-- The record with its approval, denied at once if that is the decision.
unfoldable pub associated : JournalRecord → Approval → Result JournalRecord
associated r approval =
    let r' = record r { command = record r.command { approval_id = approval.approval_id } } in
    if eq_approval_decision approval.decision approval_denied
    then transition_to_denied r'
    else ok r'

module _ (bolt : Bolt) (sha256_hex : String → String) (journal : Codec JournalRecord)
    (approvals : Codec Approval) where
  open bolt use {Tx}

  unfoldable pub rejection : String → Error → Result (AuditStep bolt)
  rejection reason e =
      ok (record { audit_result = "rejected"; reason = reason; mutation = none; answer = err e })

  unfoldable pub store_approval : String → JournalRecord → Approval → String → Tx → Result Tx
  store_approval key r approval document tx = do
    tx1 ← put bolt tx bucket_approvals (approval_record_key approval.approval_id) document
    tx2 ←
        put bolt tx1 bucket_approvals (approval_command_key approval.command_id)
          approval.approval_id
    put_record bolt sha256_hex journal tx2 key r

  module _ (request : DecisionRequest) (now : Time) (approval_id : String) where
    unfoldable pub plan_accepted : StoredRecord → Result (AuditStep bolt)
    unfolding associated store_approval
    plan_accepted s = do
      let approval = new_approval request now approval_id s.stored.command
      fail_if (not (is_ok (validate_approval approval))) invalid_decision
      r ← associated s.stored approval
      document ← approvals.marshal approval
      ok (record {
        audit_result = "accepted";
        reason = request.reason_code;
        mutation = some (store_approval s.key r approval document);
        answer = ok (record { approval = approval; command = r.command });
      })

    unfoldable pub plan_expired : StoredRecord → Result (AuditStep bolt)
    plan_expired s = do
      r ← transition_to_expired s.stored
      ok (record {
        audit_result = "rejected";
        reason = "command_expired";
        mutation = some (λ tx. put_record bolt sha256_hex journal tx s.key r);
        answer = err command_expired;
      })

    -- By whether the command has a decision already.
    unfoldable pub plan_once : StoredRecord → Option String → Result (AuditStep bolt)
    unfolding rejection plan_accepted
    plan_once s (some decided) = rejection "decision_conflict" decision_conflict
    plan_once s none = plan_accepted s

    unfoldable pub plan_new : Tx → StoredRecord → Result (AuditStep bolt)
    unfolding plan_once
    plan_new tx s = do
      existing ← get bolt tx bucket_approvals (approval_record_key approval_id)
      fail_if (is_present existing) invalid_approval_options
      decided ← get bolt tx bucket_approvals (approval_command_key request.command_id)
      plan_once s decided

    unfoldable pub plan_found : Tx → Option StoredRecord → Result (AuditStep bolt)
    unfolding rejection plan_expired plan_new is_undecided
    plan_found tx none = rejection "command_not_found" command_not_found
    plan_found tx (some s) =
        if not (is_undecided s.stored)
        then rejection "decision_conflict" decision_conflict
        else if not (ltb now s.stored.command.expires_at) || not (ltb now request.expires_at)
        then plan_expired s
        else if ltb s.stored.command.expires_at request.expires_at
        then rejection "invalid_approval" invalid_decision
        else plan_new tx s

    unfoldable pub plan : Tx → Result (AuditStep bolt)
    unfolding plan_found
    plan tx = do
      found ← find_record_by_command_id bolt sha256_hex journal tx request.command_id
      plan_found tx found

  unfoldable pub checked_approval : String → String → String → Result Approval
  checked_approval command_id approval_id document = do
    a ← or_error (approvals.decode document) corrupt_journal
    fail_if (not (is_ok (validate_approval a))) corrupt_journal
    fail_if (not (a.command_id == command_id) || not (a.approval_id == approval_id)) corrupt_journal
    ok a

  unfoldable pub present_approval : String → String → Option String → Result (Option Approval)
  unfolding checked_approval
  present_approval command_id approval_id none = err corrupt_journal
  present_approval command_id approval_id (some document) = do
    a ← checked_approval command_id approval_id document
    ok (some a)

  unfoldable pub indexed_approval : Tx → String → Option String → Result (Option Approval)
  unfolding present_approval
  indexed_approval tx command_id none = ok none
  indexed_approval tx command_id (some approval_id) = do
    document ← get bolt tx bucket_approvals (approval_record_key approval_id)
    present_approval command_id approval_id document

  unfoldable pub load_approval : Tx → String → Result (Option Approval)
  unfolding indexed_approval
  load_approval tx command_id = do
    fail_if (not (valid_token command_id max_command_id_length)) invalid_decision
    indexed ← get bolt tx bucket_approvals (approval_command_key command_id)
    indexed_approval tx command_id indexed
