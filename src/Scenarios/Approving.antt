-- ===== src/Scenarios/Approving.antt =====
-- One command that is granted, then denied in vain, and the theorems on decisions at these inputs.

use pulse_agent.Prelude.{true, ℕ, zero, suc, String, ◌≡◌, refl, [], ◌∷◌, some}
use native.Mathlib.Decide.{ℕ_discrete}
use pulse_agent.Prelude.Result.{Result, ok, err, decision_conflict}
use pulse_agent.Contract.{Approval, approval_granted, approval_denied}
use pulse_agent.Store.{bucket_command_journal}
use pulse_agent.Audit.{AuditEvent, CanonicalEvent, AuditCodec}
use pulse_agent.Recovery.Types.{JournalRecord, Codec, phase_awaiting_approval}
use pulse_agent.Recovery.Keys.{record_key}
use pulse_agent.Recovery.Approval.{
  with_approval, load_with_approval, DecisionRequest, DecisionResult, ApprovalDeps,
  approval_record_key, approval_command_key, valid_approval_reason, valid_audit_request,
  valid_decision_request, validate_approval, is_undecided, associated, rejection, store_approval,
  plan_accepted, plan_expired, plan_once, plan_new, plan_found, plan, checked_approval,
  present_approval, indexed_approval, load_approval, decision_event, Office, manager_now, appended,
  append_step, record_at, record_with, record_step, record_rejected, decide_planned, decide_with,
  decide_at, decide_invalid, decide,
}
use pulse_agent.Recovery.Approval.Kept.{decide-load_approval}
use pulse_agent.Recovery.Approval.Accepted.{Accepted, decide-Accepted}
use pulse_agent.Recovery.Coordinator.Deps.{ExecutionState}
use pulse_agent.Recovery.Approval.Attached.{load_with_approval-decide}
use pulse_agent.Scenarios.Memory.{memory, String-discrete}
use pulse_agent.Scenarios.Samples.{
  sample, sample_target, sample_policy, sample_input, JournalRecord-discrete,
}
use pulse_agent.Scenarios.Codecs.{two_codec, marshal_two-len}
use pulse_agent.Scenarios.Auditing.{zero_digest, audit_codec_of, audit_open}
use pulse_agent.Scenarios.Tests.{coordinator_open}

unfoldable Approval-discrete : Discrete Approval
Approval-discrete = hlevel (String-discrete, ℕ_discrete)

abbrev waiting_record : JournalRecord
waiting_record =
    let r = sample phase_awaiting_approval in
    record r { command = record r.command { issued_at = 1; expires_at = 9 } }

abbrev granted_record : JournalRecord
granted_record = record waiting_record {
  command = record waiting_record.command { approval_id = "approval-1" };
}

abbrev grant_request : DecisionRequest
grant_request = record {
  command_id = "command-1";
  decision = approval_granted;
  actor_identity = "uid:1000";
  request_id = "request-9";
  reason_code = "reviewed";
  expires_at = 7;
}

abbrev deny_request : DecisionRequest
deny_request = record grant_request { decision = approval_denied }

abbrev grant : Approval
grant = record {
  schema_version = "v1";
  approval_id = "approval-1";
  command_id = "command-1";
  decision = approval_granted;
  approver_identity = "uid:1000";
  reason = "reviewed";
  created_at = 3;
  expires_at = 7;
}

abbrev granted_event : AuditEvent
granted_event =
    record (decision_event (λ s. zero_digest) grant_request "accepted" "reviewed" "event-1" 3) {
      digest = zero_digest;
    }

abbrev conflict_event : AuditEvent
conflict_event =
    record (decision_event (λ s. zero_digest) deny_request "rejected" "decision_conflict" "event-2"
      3) { previous_digest = zero_digest; digest = zero_digest }

abbrev canonical_of : AuditEvent → CanonicalEvent
canonical_of e = record {
  schema_version = e.schema_version;
  event_id = e.event_id;
  aggregate_type = e.aggregate_type;
  aggregate_id = e.aggregate_id;
  actor_identity = e.actor_identity;
  action = e.action;
  result = e.result;
  reason_code = e.reason_code;
  occurred_at = "|||";
  previous_digest = e.previous_digest;
}

abbrev decision_audit : AuditCodec
decision_audit =
    audit_codec_of granted_event conflict_event (canonical_of granted_event)
      (canonical_of conflict_event)

abbrev record_codec : Codec JournalRecord
record_codec = two_codec JournalRecord-discrete waiting_record granted_record

abbrev approval_codec : Codec Approval
approval_codec = two_codec Approval-discrete grant grant

event_number : ℕ → String
event_number zero = "event-1"
event_number (suc n) = "event-2"

-- The time is 3; the number of event IDs so far.
abbrev decision_deps : ApprovalDeps
decision_deps = record {
  Outside = ℕ;
  clock_now = λ n. (3, n);
  new_approval_id = λ n. (ok "approval-1", n);
  new_audit_event_id = λ n. (ok (event_number n), suc n);
}

abbrev at_first : Office memory decision_audit record_codec approval_codec decision_deps
at_first =
    ((bucket_command_journal, record_key (λ s. zero_digest) waiting_record.command, "one") ∷ [], 0)

abbrev run_decision :
    DecisionRequest
    → Office memory decision_audit record_codec approval_codec decision_deps
    → Result DecisionResult × Office memory decision_audit record_codec approval_codec decision_deps
run_decision = decide memory decision_audit record_codec approval_codec decision_deps

unfoldable approving_open : Unit {0}
unfolding coordinator_open audit_open event_number Approval-discrete approval_record_key
    approval_command_key valid_approval_reason valid_audit_request valid_decision_request
    validate_approval is_undecided associated rejection store_approval plan_accepted plan_expired
    plan_once plan_new plan_found plan checked_approval present_approval indexed_approval
    load_approval manager_now appended append_step record_at record_with record_step record_rejected
    decide_planned decide_with decide_at decide_invalid decide
approving_open = tt

granted :
    (run_decision grant_request at_first).0
    ≡ ok (record { approval = grant; command = granted_record.command })
unfolding approving_open
granted = refl

denied_in_vain :
    (run_decision deny_request (run_decision grant_request at_first).1).0 ≡ err decision_conflict
unfolding approving_open
denied_in_vain = refl

stored_grant :
    load_approval memory decision_audit.sha256_hex record_codec approval_codec
      (run_decision grant_request at_first).1.0
      "command-1"
    ≡ ok (some grant)
unfolding approving_open
stored_grant = refl

decide-load_approval_example :
    load_approval memory decision_audit.sha256_hex record_codec approval_codec
      (run_decision deny_request (run_decision grant_request at_first).1).1.0
      "command-1"
    ≡ ok (some grant)
decide-load_approval_example =
    decide-load_approval memory decision_audit record_codec approval_codec decision_deps
      deny_request (run_decision grant_request at_first).1 "command-1" grant stored_grant

decide-Accepted_example :
    Accepted memory decision_audit record_codec approval_codec decision_deps grant_request
      at_first.0
      (run_decision grant_request at_first).1.0
      (record { approval = grant; command = granted_record.command })
decide-Accepted_example =
    decide-Accepted memory decision_audit record_codec approval_codec decision_deps grant_request
      at_first (record { approval = grant; command = granted_record.command })
      (marshal_two-len Approval-discrete grant grant) granted

sample_execution : ExecutionState
sample_execution = record {
  target = sample_target;
  policy_snapshot = sample_policy true;
  policy_input = sample_input;
}

load_with_approval-decide_example :
    load_with_approval memory decision_audit.sha256_hex record_codec approval_codec
      (λ command (n : ℕ). (ok sample_execution, suc n))
      (run_decision grant_request at_first).1.0
      granted_record.command
      0
    ≡ (ok (with_approval sample_execution grant sample_execution.policy_input.approval_revoked), 1)
load_with_approval-decide_example =
    load_with_approval-decide memory decision_audit record_codec approval_codec decision_deps
      (λ command (n : ℕ). (ok sample_execution, suc n)) grant_request at_first
      (record { approval = grant; command = granted_record.command }) sample_execution 0 1
      (marshal_two-len Approval-discrete grant grant) refl granted refl
