-- ===== src/Recovery/Approval/Types.antt =====
-- The records of internal/recovery/approval.go, its checks and its keys.
use Prim.Native.String.{len, ◌++◌}
use pulse_agent.Prelude.{ℕ, ltb, String, Bool, not, ◌&&◌, ◌||◌, all, Option, ◌==◌}
use pulse_agent.Prelude.Text.{codes}
use pulse_agent.Prelude.Result.{Result, invalid_decision, fail_if}
use pulse_agent.Contract.{
  Time, is_zero, Approval, RecoveryCommand, ApprovalDecision, approval_granted, approval_denied,
  eq_approval_decision, schema_version_v1,
}
use pulse_agent.Store.{Bolt}
use pulse_agent.Audit.{is_audit_character}
use pulse_agent.Recovery.Record.{valid_token, max_command_id_length}

pub record DecisionRequest : Type 0 where
  pub command_id : String
  pub decision : ApprovalDecision
  pub actor_identity : String
  pub request_id : String
  pub reason_code : String
  pub expires_at : Time

pub record DecisionResult : Type 0 where
  pub approval : Approval
  pub command : RecoveryCommand

-- The clock and the ID generators.
pub record ApprovalDeps : Type 1 where
  pub Outside : Type 0
  pub clock_now : Outside → Time × Outside
  pub new_approval_id : Outside → Result String × Outside
  pub new_audit_event_id : Outside → Result String × Outside

-- What the callback of Decide hands to appendAudit, and what Decide returns once that is done.
pub record AuditStep (bolt : Bolt) : Type 0 where
  pub audit_result : String
  pub reason : String
  pub mutation : Option (bolt.Tx → Result bolt.Tx)
  pub answer : Result DecisionResult

abbrev pub approval_record_prefix : String
approval_record_prefix = "record/"

abbrev pub approval_command_prefix : String
approval_command_prefix = "command/"

unfoldable pub approval_record_key : String → String
approval_record_key approval_id = approval_record_prefix ++ approval_id

unfoldable pub approval_command_key : String → String
approval_command_key command_id = approval_command_prefix ++ command_id

abbrev pub max_approval_reason_length : ℕ
max_approval_reason_length = 96

unfoldable pub valid_approval_reason : String → Bool
unfolding is_audit_character
valid_approval_reason value =
    not (value == "" || ltb max_approval_reason_length (len value))
    && all is_audit_character (codes value)

unfoldable pub valid_audit_request : DecisionRequest → Bool
unfolding valid_token valid_approval_reason
valid_audit_request r =
    valid_token r.command_id max_command_id_length
    && valid_token r.actor_identity max_command_id_length
    && valid_token r.request_id max_command_id_length
    && valid_approval_reason r.reason_code

abbrev pub is_decision : ApprovalDecision → Bool
is_decision d = eq_approval_decision d approval_granted || eq_approval_decision d approval_denied

unfoldable pub valid_decision_request : DecisionRequest → Bool
unfolding valid_audit_request
valid_decision_request r =
    valid_audit_request r && is_decision r.decision && not (is_zero r.expires_at)

unfoldable pub validate_approval : Approval → Result (Unit {0})
unfolding valid_token valid_approval_reason
validate_approval a =
    fail_if
      (not (a.schema_version == schema_version_v1)
        || not (valid_token a.approval_id max_command_id_length)
        || not (valid_token a.command_id max_command_id_length)
        || not (is_decision a.decision)
        || not (valid_token a.approver_identity max_command_id_length)
        || not (valid_approval_reason a.reason)
        || is_zero a.created_at
        || is_zero a.expires_at
        || not (ltb a.created_at a.expires_at))
      invalid_decision
