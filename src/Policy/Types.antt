-- ===== src/Policy/Types.antt =====
-- The verdicts, reasons and records of internal/policy/policy.go. `verdict_none` and `reason_none`
-- are Go's zero values, the empty strings of a zero Decision.
use pulse_agent.Prelude.{String, Bool, Option, List}
use pulse_agent.Prelude.Int.{ℤ}
use pulse_agent.Contract.{Time, Approval, Runbook, ConfidenceLabel, NotificationRecommendation}

pub data Verdict : Type 0 where
  verdict_none verdict_allow verdict_await_approval verdict_deny : Verdict

pub data ReasonCode : Type 0 where
  reason_none reason_allowed reason_approval_required reason_unregistered_runbook : ReasonCode
  reason_forged_digest reason_target_mismatch reason_action_invalid : ReasonCode
  reason_analysis_unavailable reason_analysis_mismatch reason_precondition_failed : ReasonCode
  reason_cooldown_active reason_retry_exhausted reason_stabilization_invalid : ReasonCode
  reason_approval_expired reason_approval_revoked reason_approval_denied : ReasonCode
  reason_invalid_policy : ReasonCode
  reason_other : String → ReasonCode

pub record RegisteredRunbook : Type 0 where
  pub runbook : Runbook
  pub target_id : String
  pub analysis_required : Bool

pub record Snapshot : Type 0 where
  pub runbooks : List RegisteredRunbook
  pub authorized_approvers : List String

-- The map of preconditions is an association list; a missing key reads as false.
pub record Input : Type 0 where
  pub runbook_id : String
  pub runbook_digest : String
  pub target_id : String
  pub action_index : ℤ
  pub command_id : String
  pub analysis_available : Bool
  pub analysis_candidate_ids : List String
  pub analysis_confidence : List ConfidenceLabel
  pub notification_suggestion : NotificationRecommendation
  pub preconditions : List (String × Bool)
  pub last_attempt_at : Time
  pub now : Time
  pub attempt_count : ℤ
  pub approval : Option Approval
  pub approval_revoked : Bool

pub record Decision : Type 0 where
  pub verdict : Verdict
  pub reason_code : ReasonCode

abbrev pub deny : ReasonCode → Decision
deny reason = record { verdict = verdict_deny; reason_code = reason }
