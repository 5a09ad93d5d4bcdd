-- ===== src/Recovery/Approval/Source.antt =====
-- ApprovalStateSource.Load of internal/recovery/approval.go. The wrapped source answers from, and
-- changes, a state of its own.
use pulse_agent.Prelude.{String, Bool, true, not, ◌||◌, Option, none, some, ◌==◌, if◌then◌else◌}
use pulse_agent.Prelude.Result.{Result, ok, err, ◌>>=◌}
use pulse_agent.Contract.{Approval, RecoveryCommand, approval_other}
use pulse_agent.Store.{Bolt}
use pulse_agent.Recovery.Types.{JournalRecord, Codec}
use pulse_agent.Recovery.Coordinator.Deps.{ExecutionState}
use pulse_agent.Recovery.Approval.Plan.{load_approval}

abbrev pub zero_approval : Approval
zero_approval = record {
  schema_version = "";
  approval_id = "";
  command_id = "";
  decision = approval_other "";
  approver_identity = "";
  reason = "";
  created_at = 0;
  expires_at = 0;
}

abbrev pub with_approval : ExecutionState → Approval → Bool → ExecutionState
with_approval state a revoked = record state {
  policy_input = record state.policy_input { approval = some a; approval_revoked = revoked };
}

unfoldable pub attach : RecoveryCommand → ExecutionState → Option Approval → ExecutionState
attach command state none = with_approval state zero_approval true
attach command state (some a) =
    if not (a.approval_id == command.approval_id) || not (a.command_id == command.command_id)
    then with_approval state zero_approval true
    else with_approval state a state.policy_input.approval_revoked

module _ (bolt : Bolt) (sha256_hex : String → String) (journal : Codec JournalRecord)
    (approvals : Codec Approval) where
  open bolt use {Tx}

  unfoldable pub attach_approval : Tx → RecoveryCommand → ExecutionState → Result ExecutionState
  unfolding attach
  attach_approval tx command state = if command.approval_id == "" then ok state else (do
    found ← load_approval bolt sha256_hex journal approvals tx command.command_id
    ok (attach command state found))

  unfoldable pub after_source : Tx → RecoveryCommand → Result ExecutionState → Result ExecutionState
  unfolding attach_approval
  after_source tx command (err e) = err e
  after_source tx command (ok state) = attach_approval tx command state

  module _ {Outside : Type 0}
      (source : RecoveryCommand → Outside → Result ExecutionState × Outside) where
    -- ApprovalStateSource.Load
    unfoldable pub load_with_approval :
        Tx → RecoveryCommand → Outside → Result ExecutionState × Outside
    unfolding after_source
    load_with_approval tx command o =
        let (loaded, o') = source command o in (after_source tx command loaded, o')
