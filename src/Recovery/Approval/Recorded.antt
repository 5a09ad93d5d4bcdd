-- ===== src/Recovery/Approval/Recorded.antt =====
-- What appendAudit of internal/recovery/approval.go leaves in the store when it succeeds.

use pulse_agent.Prelude.{String, ◌≡◌, inl, inr, Bool-cases, arith}
use pulse_agent.Prelude.Result.{Result, ok, err, Result-cases}
use pulse_agent.Contract.{Time, Approval}
use pulse_agent.Store.{Bolt, update}
use pulse_agent.Store.Laws.{update-ok}
use pulse_agent.Audit.{AuditEvent, AuditCodec, append}
use pulse_agent.Audit.Change.{changed, append-changed, AgreesOutsideAudit}
use pulse_agent.Recovery.Types.{JournalRecord, Codec}
use pulse_agent.Recovery.Record.{valid_token, max_command_id_length}
use pulse_agent.Recovery.Approval.Types.{DecisionRequest, ApprovalDeps, AuditStep}
use pulse_agent.Recovery.Approval.Decide.{
  decision_event, Office, manager_now, appended, append_step, record_at, record_with, record_step,
}

module _ (bolt : Bolt) (audit : AuditCodec) (journal : Codec JournalRecord)
    (approvals : Codec Approval) (deps : ApprovalDeps) where
  open bolt use {Tx}

  -- The step's change is made, and beside it the audit bucket alone may differ.
  abbrev pub Recorded : AuditStep bolt → Tx → Tx → Type 0
  Recorded step tx tx' =
      (tx1 : Tx) × (changed audit bolt step.mutation tx ≡ ok tx1)
      × AgreesOutsideAudit audit bolt tx1 tx'

  appended-Recorded :
      (step : AuditStep bolt) (event : AuditEvent) (tx tx' : Tx)
      → appended bolt audit journal approvals deps (append audit bolt tx event step.mutation)
        ≡ ok (tt, tx')
      → Recorded step tx tx'
  appended-Recorded step event tx tx' h =
      elim (Result-cases (append audit bolt tx event step.mutation)) [
        | inr (x, a) ↦ absurd (unfold appended in ground arith)
        | inl ((e, t), a) ↦
            let same : t ≡ tx' = unfold appended in ground arith in
            append-changed audit bolt tx tx' event e step.mutation (rw (← same) a)
      ]

  module _ (request : DecisionRequest) where
    record_at-Recorded :
        (step : AuditStep bolt) (event_id : String) (now : Result Time)
        (w : Office bolt audit journal approvals deps)
        → (record_at bolt audit journal approvals deps request step event_id now w).0 ≡ ok tt
        → Recorded step w.0
            (record_at bolt audit journal approvals deps request step event_id now w).1.0
    unfolding record_at
    record_at-Recorded step event_id (err e) w h = absurd (cc h)
    record_at-Recorded step event_id (ok now) w h =
        appended-Recorded step
          (decision_event audit.sha256_hex request step.audit_result step.reason event_id now) w.0
          (update bolt (append_step bolt audit journal approvals deps request step event_id now)
            w.0).1
          (unfold append_step in
            update-ok bolt (append_step bolt audit journal approvals deps request step event_id now)
              w.0 h)

    record_with-Recorded :
        (step : AuditStep bolt) (event_id : Result String)
        (w : Office bolt audit journal approvals deps)
        → (record_with bolt audit journal approvals deps request step event_id w).0 ≡ ok tt
        → Recorded step w.0
            (record_with bolt audit journal approvals deps request step event_id w).1.0
    unfolding record_with manager_now
    record_with-Recorded step (err e) w h = absurd (cc h)
    record_with-Recorded step (ok event_id) w h =
        elim (Bool-cases (valid_token event_id max_command_id_length)) [
          | inr e ↦ absurd (ground (arith, e, h))
          | inl e ↦
              rw e (record_at-Recorded step event_id _ (w.0, (deps.clock_now w.1).1) (rw e at h))
        ]

    pub record_step-Recorded :
        (step : AuditStep bolt) (w : Office bolt audit journal approvals deps)
        → (record_step bolt audit journal approvals deps request step w).0 ≡ ok tt
        → Recorded step w.0 (record_step bolt audit journal approvals deps request step w).1.0
    unfolding record_step
    record_step-Recorded step w h =
        record_with-Recorded step (deps.new_audit_event_id w.1).0
          (w.0, (deps.new_audit_event_id w.1).1) h
