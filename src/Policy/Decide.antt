-- ===== src/Policy/Decide.antt =====
-- `Evaluate`, `approval` and `needsApproval` of internal/policy/policy.go.
use pulse_agent.Prelude.{
  String, Bool, true, false, not, ◌&&◌, ◌||◌, List, Option, none, some, ltb, ◌==◌, get_elem?,
  if◌then◌else◌,
}
use pulse_agent.Prelude.Int.{ℤ, pos, negsuc, ltb_ℤ, leb_ℤ}
use pulse_agent.Contract.{
  is_zero, Approval, approval_granted, approval_denied, eq_approval_decision, Runbook, TypedAction,
  risk_low, eq_risk_tier, schema_version_v1,
}
use pulse_agent.Policy.Types.{
  verdict_none, verdict_allow, verdict_await_approval, ReasonCode, reason_none, reason_allowed,
  reason_approval_required, reason_forged_digest, reason_target_mismatch, reason_action_invalid,
  reason_analysis_unavailable, reason_analysis_mismatch, reason_precondition_failed,
  reason_cooldown_active, reason_retry_exhausted, reason_stabilization_invalid,
  reason_approval_expired, reason_approval_revoked, reason_approval_denied, RegisteredRunbook,
  Snapshot, Input, Decision, deny,
}
use pulse_agent.Policy.Search.{contains}
use pulse_agent.Policy.Facts.{
  registration, refusal, registered_runbook, preconditions_met, cooldown_elapsed, valid_snapshot,
  find_runbook,
}

unfoldable pub approval_of : List String → Input → Approval → Decision
approval_of authorized input approval =
    if input.approval_revoked || not (contains authorized approval.approver_identity)
    then deny reason_approval_revoked
    else if eq_approval_decision approval.decision approval_denied
    then deny reason_approval_denied
    else if not (approval.schema_version == schema_version_v1)
        || approval.approval_id == ""
        || not (eq_approval_decision approval.decision approval_granted)
        || not (approval.command_id == input.command_id)
        || is_zero approval.created_at
        || is_zero approval.expires_at
        || not (ltb approval.created_at approval.expires_at)
        || is_zero input.now
        || not (ltb input.now approval.expires_at)
    then deny reason_approval_expired
    else record { verdict = verdict_allow; reason_code = reason_allowed }

-- The zero Decision stands for "no approval was given".
unfoldable pub approval : List String → Input → Decision
approval authorized input = elim input.approval [
  | none ↦ record { verdict = verdict_none; reason_code = reason_none }
  | some given ↦ approval_of authorized input given
]

unfoldable pub needs_approval : Runbook → Bool
needs_approval runbook =
    not (eq_risk_tier runbook.risk_tier risk_low)
    || runbook.approval_policy.required
    || not runbook.auto_execute

-- TypedActions[ActionIndex], and none where Evaluate's bounds test fails.
unfoldable pub action_at : List TypedAction → ℤ → Option TypedAction
action_at actions (pos n) = get_elem? actions n
action_at actions (negsuc n) = none

-- decision.ReasonCode != ""
unfoldable pub has_reason : ReasonCode → Bool
has_reason reason_none = false
has_reason _ = true

-- The end of Evaluate: what the approval and the runbook's risk leave to decide.
unfoldable pub approval_step : Snapshot → Input → Runbook → Decision
approval_step snapshot input runbook =
    let approval_decision = approval snapshot.authorized_approvers input in
    if has_reason approval_decision.reason_code
    then approval_decision
    else if needs_approval runbook
    then record { verdict = verdict_await_approval; reason_code = reason_approval_required }
    else record { verdict = verdict_allow; reason_code = reason_allowed }

-- Evaluate's tests from the preconditions on, for the selected action.
unfoldable pub evaluate_action : Snapshot → Input → Runbook → TypedAction → Decision
evaluate_action snapshot input runbook action =
    if not (preconditions_met runbook.preconditions input.preconditions)
    then deny reason_precondition_failed
    else if not (cooldown_elapsed action.cooldown input.last_attempt_at input.now)
    then deny reason_cooldown_active
    else if ltb_ℤ input.attempt_count (pos 0)
        || leb_ℤ runbook.retry_policy.max_attempts input.attempt_count
    then deny reason_retry_exhausted
    else if ltb_ℤ runbook.stabilization_policy.recovery_samples (pos 1)
        || leb_ℤ runbook.stabilization_policy.window (pos 0)
    then deny reason_stabilization_invalid
    else approval_step snapshot input runbook

-- Evaluate's tests of one registration.
unfoldable pub evaluate_registered : Snapshot → Input → RegisteredRunbook → Decision
evaluate_registered snapshot input registered =
    let runbook = registered.runbook in
    if not (input.runbook_digest == runbook.digest)
    then deny reason_forged_digest
    else if not (input.target_id == registered.target_id)
    then deny reason_target_mismatch
    else elim (action_at runbook.typed_actions input.action_index) [
      | none ↦ deny reason_action_invalid
      | some action ↦
          if registered.analysis_required && not input.analysis_available
          then deny reason_analysis_unavailable
          else if registered.analysis_required
              && not (contains input.analysis_candidate_ids runbook.runbook_id)
          then deny reason_analysis_mismatch
          else evaluate_action snapshot input runbook action
    ]

unfoldable pub evaluate : Snapshot → Input → Decision
evaluate snapshot input = elim (registered_runbook snapshot input) [
  | refusal reason ↦ deny reason
  | registration registered ↦ evaluate_registered snapshot input registered
]

-- Opens all of Evaluate, for evaluation at a concrete input.
unfoldable pub evaluate_open : Unit {0}
unfolding approval_of approval has_reason needs_approval approval_step evaluate_action action_at
    registered_runbook evaluate_registered evaluate valid_snapshot find_runbook preconditions_met
    cooldown_elapsed contains
evaluate_open = tt
