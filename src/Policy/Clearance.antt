-- ===== src/Policy/Clearance.antt =====
-- The facts that internal/policy/policy.go's Evaluate asks of a request before its approval counts.
use pulse_agent.Prelude.{
  String, ◌≡◌, ◌≢◌, ◌⊎◌, inl, inr, true, false, not, ◌||◌, List, some, ◌<◌, ◌==◌, Bool-cases,
  Option-cases, arith,
}
use pulse_agent.Prelude.Int.{pos, ◌<ℤ◌, ◌≤ℤ◌}
use pulse_agent.Contract.{Approval, approval_granted, TypedAction, schema_version_v1}
use pulse_agent.Policy.Types.{
  verdict_allow, verdict_await_approval, verdict_deny, reason_allowed, RegisteredRunbook, Snapshot,
  Input,
}
use pulse_agent.Policy.Search.{contains}
use pulse_agent.Policy.Facts.{
  valid_snapshot, find_runbook, registered_runbook, preconditions_met, cooldown_elapsed,
}
use pulse_agent.Policy.Decide.{
  approval_of, action_at, has_reason, approval_step, evaluate_action, evaluate_registered, evaluate,
}

-- What an approval has to be for it to authorize a request.
pub record Grants (authorized : List String) (input : Input) (given : Approval) : Type 0 where
  pub not_revoked : input.approval_revoked ≡ false
  pub known_approver : contains authorized given.approver_identity ≡ true
  pub granted : given.decision ≡ approval_granted
  pub same_command : (given.command_id == input.command_id) ≡ true
  pub version : (given.schema_version == schema_version_v1) ≡ true
  pub named : (given.approval_id == "") ≡ false
  pub created : 0 < given.created_at
  pub created_first : given.created_at < given.expires_at
  pub clock_set : 0 < input.now
  pub not_expired : input.now < given.expires_at

pub approval_of_allow :
    (authorized : List String) (input : Input) (given : Approval)
    → (approval_of authorized input given).verdict ≡ verdict_allow
    → Grants authorized input given
unfolding approval_of
approval_of_allow authorized input given h = ground arith

pub approval_of-Grants :
    (authorized : List String) (input : Input) (given : Approval)
    → Grants authorized input given
    → approval_of authorized input given
      ≡ record { verdict = verdict_allow; reason_code = reason_allowed }
unfolding approval_of
approval_of-Grants authorized input given g = ground arith

pub approval_of-has_reason :
    (authorized : List String) (input : Input) (given : Approval)
    → has_reason (approval_of authorized input given).reason_code ≡ true
unfolding approval_of has_reason
approval_of-has_reason authorized input given = ground arith

pub approval_of_never_awaits :
    (authorized : List String) (input : Input) (given : Approval)
    → (approval_of authorized input given).verdict ≢ verdict_await_approval
unfolding approval_of
approval_of_never_awaits authorized input given = ground arith

-- The facts about a request that do not concern approvals.
pub record Cleared (snapshot : Snapshot) (input : Input) (registered : RegisteredRunbook)
    (action : TypedAction) : Type 0 where
  pub snapshot_valid : valid_snapshot snapshot ≡ true
  pub has_runbook : (input.runbook_id == "") ≡ false
  pub has_digest : (input.runbook_digest == "") ≡ false
  pub has_target : (input.target_id == "") ≡ false
  pub has_command : (input.command_id == "") ≡ false
  pub is_registered : find_runbook snapshot.runbooks input.runbook_id ≡ some registered
  pub same_digest : (input.runbook_digest == registered.runbook.digest) ≡ true
  pub same_target : (input.target_id == registered.target_id) ≡ true
  pub at_index : action_at registered.runbook.typed_actions input.action_index ≡ some action
  pub analysed : registered.analysis_required ≡ true → input.analysis_available ≡ true
  pub recommended :
      registered.analysis_required ≡ true
      → contains input.analysis_candidate_ids registered.runbook.runbook_id ≡ true
  pub preconditions_hold :
      preconditions_met registered.runbook.preconditions input.preconditions ≡ true
  pub cooled_down : cooldown_elapsed action.cooldown input.last_attempt_at input.now ≡ true
  pub attempts_valid : pos 0 ≤ℤ input.attempt_count
  pub attempts_left : input.attempt_count <ℤ registered.runbook.retry_policy.max_attempts
  pub samples_positive : pos 0 <ℤ registered.runbook.stabilization_policy.recovery_samples
  pub window_positive : pos 0 <ℤ registered.runbook.stabilization_policy.window

module _ (snapshot : Snapshot) (input : Input) where
  pub evaluate-Cleared :
      (registered : RegisteredRunbook) (action : TypedAction)
      → Cleared snapshot input registered action
      → evaluate snapshot input ≡ approval_step snapshot input registered.runbook
  unfolding evaluate registered_runbook evaluate_registered evaluate_action
  evaluate-Cleared registered action c = ground arith

  registered_cases :
      ((registered : RegisteredRunbook) × (find_runbook snapshot.runbooks input.runbook_id
          ≡ some registered)
        × (evaluate snapshot input ≡ evaluate_registered snapshot input registered)
        × (valid_snapshot snapshot ≡ true)
        × ((input.runbook_id == "") ≡ false)
        × ((input.runbook_digest == "") ≡ false)
        × ((input.target_id == "") ≡ false)
        × ((input.command_id == "") ≡ false))
      ⊎ ((evaluate snapshot input).verdict ≡ verdict_deny)
  unfolding evaluate registered_runbook
  registered_cases = elim (Option-cases (find_runbook snapshot.runbooks input.runbook_id)) [
    | inl gone ↦ inr (ground arith)
    | inr (registered, e) ↦
        elim (Bool-cases (
          not (valid_snapshot snapshot)
          || input.runbook_id == ""
          || input.runbook_digest == ""
          || input.target_id == ""
          || input.command_id == "")) [
            | inl bad ↦ inr (ground arith)
            | inr good ↦ inl (
              registered,
              e,
              ground arith,
              ground arith,
              ground arith,
              ground arith,
              ground arith,
              ground arith,
            )
          ]
  ]

  pub Cleared-evaluate :
      (evaluate snapshot input).verdict ≢ verdict_deny
      → (registered : RegisteredRunbook) × (action : TypedAction) × Cleared snapshot input
          registered action
  unfolding evaluate_registered evaluate_action
  Cleared-evaluate h = elim registered_cases [
    | inr denied ↦ absurd (h denied)
    | inl (registered, e, same, valid, a, b, c, d) ↦
        elim (Option-cases (action_at registered.runbook.typed_actions input.action_index)) [
          | inl gone ↦ absurd (h (ground arith))
          | inr (action, at) ↦ (
            registered,
            action,
            record {
              snapshot_valid = valid;
              has_runbook = a;
              has_digest = b;
              has_target = c;
              has_command = d;
              is_registered = e;
              same_digest = ground arith;
              same_target = ground arith;
              at_index = at;
              analysed = ground arith;
              recommended = ground arith;
              preconditions_hold = ground arith;
              cooled_down = ground arith;
              attempts_valid = ground arith;
              attempts_left = ground arith;
              samples_positive = ground arith;
              window_positive = ground arith;
            },
          )
        ]
  ]
