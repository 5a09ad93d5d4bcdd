-- ===== src/Recovery/Approval/Attached.antt =====
-- Decide and then ApprovalStateSource.Load of internal/recovery/approval.go.
use pulse_agent.Prelude.{
  String, ◌≡◌, sym, ap, ◌∙◌, subst, false, some, ◌==◌, eq_iff, Bool-cases, inl, inr, arith,
}
use pulse_agent.Prelude.Result.{Result, ok}
use pulse_agent.Contract.{Approval, RecoveryCommand, approval_granted}
use pulse_agent.Store.{Bolt}
use pulse_agent.Audit.{AuditCodec}
use pulse_agent.Recovery.Types.{JournalRecord, Codec}
use pulse_agent.Recovery.Record.{valid_token, max_command_id_length}
use pulse_agent.Recovery.Coordinator.Deps.{ExecutionState}
use pulse_agent.Recovery.Approval.Types.{
  DecisionRequest, DecisionResult, ApprovalDeps, validate_approval,
}
use pulse_agent.Recovery.Approval.Plan.{associated, load_approval}
use pulse_agent.Recovery.Approval.Source.{
  with_approval, attach, attach_approval, after_source, load_with_approval,
}
use pulse_agent.Recovery.Approval.Decide.{Office, decide}
use pulse_agent.Recovery.Approval.Accepted.{Fits, decide-Accepted}

-- A valid decision has an ID.
validate_approval-named :
    (a : Approval) → validate_approval a ≡ ok tt → (a.approval_id == "") ≡ false
validate_approval-named a v = elim (Bool-cases (a.approval_id == "")) [
  | inr e ↦ e
  | inl e ↦
      let t : valid_token a.approval_id max_command_id_length ≡ false =
        unfold valid_token in ground (arith, e) in
      absurd (unfold validate_approval in ground (arith, t))
]

-- A granted command has the ID of its decision, and is otherwise as it was.
associated-granted :
    (r r' : JournalRecord) (a : Approval)
    → a.decision ≡ approval_granted
    → associated r a ≡ ok r'
    → (a.approval_id ≡ r'.command.approval_id) × (r.command.command_id ≡ r'.command.command_id)
associated-granted r r' a g h =
    let same : record r { command = record r.command { approval_id = a.approval_id } } ≡ r' =
      unfold associated in ground arith in
    (
      ap (λ (x : JournalRecord). x.command.approval_id) same,
      ap (λ (x : JournalRecord). x.command.command_id) same,
    )

module _ (bolt : Bolt) (audit : AuditCodec) (journal : Codec JournalRecord)
    (approvals : Codec Approval) (deps : ApprovalDeps) {Outside : Type 0}
    (source : RecoveryCommand → Outside → Result ExecutionState × Outside) where
  open bolt use {Tx}

  attach_approval-loaded :
      (tx : Tx) (command : RecoveryCommand) (state : ExecutionState) (a : Approval)
      → (a.approval_id == "") ≡ false
      → a.approval_id ≡ command.approval_id
      → a.command_id ≡ command.command_id
      → load_approval bolt audit.sha256_hex journal approvals tx a.command_id ≡ ok (some a)
      → attach_approval bolt audit.sha256_hex journal approvals tx command state
        ≡ ok (with_approval state a state.policy_input.approval_revoked)
  attach_approval-loaded tx command state a n i c l =
      let named : (command.approval_id == "") ≡ false = rw (← i) n in
      let loaded : load_approval bolt audit.sha256_hex journal approvals tx command.command_id
          ≡ ok (some a) =
        rw (← c) l in
      unfold attach_approval attach in
      ground (
        arith,
        named,
        loaded,
        (eq_iff a.approval_id command.approval_id).1 i,
        (eq_iff a.command_id command.command_id).1 c,
      )

  -- After Decide has returned a grant, Load gives the state of the wrapped source for the returned
  -- command with exactly that grant in the policy's input.
  pub load_with_approval-decide :
      (request : DecisionRequest) (w : Office bolt audit journal approvals deps)
      (r : DecisionResult) (state : ExecutionState) (o o' : Outside)
      → Fits bolt audit journal approvals deps request
      → request.decision ≡ approval_granted
      → (decide bolt audit journal approvals deps request w).0 ≡ ok r
      → source r.command o ≡ (ok state, o')
      → load_with_approval bolt audit.sha256_hex journal approvals source
          (decide bolt audit journal approvals deps request w).1.0
          r.command
          o
        ≡ (ok (with_approval state r.approval state.policy_input.approval_revoked), o')
  unfolding load_with_approval after_source
  load_with_approval-decide request w r state o o' fits g h s =
      let a = decide-Accepted bolt audit journal approvals deps request w r fits h in
      let granted : r.approval.decision ≡ approval_granted =
        ap (λ (x : Approval). x.decision) a.approval ∙ g in
      let (i, c) =
        associated-granted a.before_decision.stored a.after_decision r.approval granted
          a.is_after in
      let command_id : r.approval.command_id ≡ r.command.command_id =
        ap (λ (x : Approval). x.command_id) a.approval
        ∙ c
        ∙ ap (λ (x : RecoveryCommand). x.command_id) (sym a.command) in
      let approval_id : r.approval.approval_id ≡ r.command.approval_id =
        i ∙ ap (λ (x : RecoveryCommand). x.approval_id) (sym a.command) in
      let loaded =
        attach_approval-loaded (decide bolt audit journal approvals deps request w).1.0 r.command
          state r.approval (validate_approval-named r.approval a.valid) approval_id command_id
          (subst
            (λ (x : String).
              load_approval bolt audit.sha256_hex journal approvals
                (decide bolt audit journal approvals deps request w).1.0 x
              ≡ ok (some r.approval))
            (sym a.same_command) a.loaded) in
      rw s (ap (λ x. (x, o')) loaded)
