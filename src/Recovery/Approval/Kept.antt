-- ===== src/Recovery/Approval/Kept.antt =====
-- Decide of internal/recovery/approval.go and the decisions that are stored.
use pulse_agent.Prelude.{String, ◌≡◌, refl, inl, inr, Option, none, some, Bool-cases, arith}
use pulse_agent.Prelude.Result.{Error, Result, ok, err, Result-cases, invalid_decision}
use pulse_agent.Contract.{Time, Approval}
use pulse_agent.Store.{Bolt, bucket_approvals, get, update, committed, settle}
use pulse_agent.Audit.{AuditEvent, AuditCodec, append}
use pulse_agent.Audit.Change.{append-changed}
use pulse_agent.Recovery.Types.{JournalRecord, Codec}
use pulse_agent.Recovery.Record.{valid_token, max_command_id_length}
use pulse_agent.Recovery.Approval.Types.{
  DecisionRequest, ApprovalDeps, AuditStep, approval_record_key, approval_command_key,
  valid_audit_request, valid_decision_request,
}
use pulse_agent.Recovery.Approval.Plan.{plan, load_approval, indexed_approval, present_approval}
use pulse_agent.Recovery.Approval.Decide.{
  decision_event, Office, manager_now, appended, append_step, record_at, record_with, record_step,
  record_rejected, decide_planned, decide_with, decide_at, decide_invalid, decide,
}
use pulse_agent.Recovery.Approval.Immutable.{Held, Held-agrees, Keeps, Keeps-none, plan-Keeps}

module _ (bolt : Bolt) (audit : AuditCodec) (journal : Codec JournalRecord)
    (approvals : Codec Approval) (deps : ApprovalDeps) where
  open bolt use {Tx, commit_error}

  module _ (command_id id document : String) where
    abbrev Holds : Tx → Type 0
    Holds tx = Held bolt audit journal approvals command_id id document tx

    committed-Held :
        (o : Option Error) (tx tx' : Tx)
        → Holds tx'
        → Holds tx
        → Holds (committed {0} bolt o tt tx tx').1
    committed-Held none tx tx' k h = k
    committed-Held (some e) tx tx' k h = h

    settle-Held :
        (tx : Tx) (r : Result (Unit {0} × Tx))
        → ((tx' : Tx) → r ≡ ok (tt, tx') → Holds tx')
        → Holds tx
        → Holds (settle bolt tx r).1
    settle-Held tx (ok (tt, tx')) f h = committed-Held (commit_error tx') tx tx' (f tx' refl) h
    settle-Held tx (err e) f h = h

    appended-ok :
        (r : Result (AuditEvent × Tx)) (tx' : Tx)
        → appended bolt audit journal approvals deps r ≡ ok (tt, tx')
        → (e : AuditEvent) × (r ≡ ok (e, tx'))
    unfolding appended
    appended-ok (ok (e, t)) tx' h = (e, ground arith)
    appended-ok (err e) tx' h = absurd (cc h)

    append_step-Held :
        (request : DecisionRequest) (step : AuditStep bolt) (event_id : String) (now : Time)
        (tx tx' : Tx)
        → Keeps bolt audit journal approvals command_id id document tx step
        → append_step bolt audit journal approvals deps request step event_id now tx ≡ ok (tt, tx')
        → Holds tx
        → Holds tx'
    unfolding append_step
    append_step-Held request step event_id now tx tx' keeps h held =
        let event =
          decision_event audit.sha256_hex request step.audit_result step.reason event_id now in
        let (e, a) = appended-ok (append audit bolt tx event step.mutation) tx' h in
        let (tx1, c, same) = append-changed audit bolt tx tx' event e step.mutation a in
        Held-agrees bolt audit journal approvals command_id id document tx1 tx'
          (λ k. same bucket_approvals k (λ n. cc n)) (keeps tx1 c held)

    abbrev rejected_step : String → AuditStep bolt
    rejected_step reason = record {
      audit_result = "rejected";
      reason = reason;
      mutation = none;
      answer = err invalid_decision;
    }

    module _ (request : DecisionRequest) where
      record_at-Held :
          (step : AuditStep bolt) (event_id : String) (now : Result Time)
          (w : Office bolt audit journal approvals deps)
          → Keeps bolt audit journal approvals command_id id document w.0 step
          → Holds w.0
          → Holds (record_at bolt audit journal approvals deps request step event_id now w).1.0
      unfolding record_at update
      record_at-Held step event_id (err e) w keeps h = h
      record_at-Held step event_id (ok now) w keeps h =
          settle-Held w.0
            (append_step bolt audit journal approvals deps request step event_id now w.0)
            (λ tx' a. append_step-Held request step event_id now w.0 tx' keeps a h) h

      record_with-Held :
          (step : AuditStep bolt) (event_id : Result String)
          (w : Office bolt audit journal approvals deps)
          → Keeps bolt audit journal approvals command_id id document w.0 step
          → Holds w.0
          → Holds (record_with bolt audit journal approvals deps request step event_id w).1.0
      unfolding record_with manager_now
      record_with-Held step (err e) w keeps h = h
      record_with-Held step (ok event_id) w keeps h =
          elim (Bool-cases (valid_token event_id max_command_id_length)) [
            | inr e ↦ rw e h
            | inl e ↦ rw e (record_at-Held step event_id _ (w.0, (deps.clock_now w.1).1) keeps h)
          ]

      record_step-Held :
          (step : AuditStep bolt) (w : Office bolt audit journal approvals deps)
          → Keeps bolt audit journal approvals command_id id document w.0 step
          → Holds w.0
          → Holds (record_step bolt audit journal approvals deps request step w).1.0
      unfolding record_step
      record_step-Held step w keeps h =
          record_with-Held step (deps.new_audit_event_id w.1).0
            (w.0, (deps.new_audit_event_id w.1).1) keeps h

      record_rejected-Held :
          (reason : String) (w : Office bolt audit journal approvals deps)
          → Holds w.0
          → Holds (record_rejected bolt audit journal approvals deps request reason w).1.0
      unfolding record_rejected
      record_rejected-Held reason w h = elim (Bool-cases (valid_audit_request request)) [
        | inr e ↦ rw e h
        | inl e ↦ rw e (
            record_step-Held (rejected_step reason) w
              (Keeps-none bolt audit journal approvals command_id id document w.0
                (rejected_step reason) refl)
              h)
      ]

      decide_planned-Held :
          (step : Result (AuditStep bolt)) (w : Office bolt audit journal approvals deps)
          → ((s : AuditStep bolt)
              → step ≡ ok s
              → Keeps bolt audit journal approvals command_id id document w.0 s)
          → Holds w.0
          → Holds (decide_planned bolt audit journal approvals deps request step w).1.0
      unfolding decide_planned
      decide_planned-Held (err e) w keeps h = h
      decide_planned-Held (ok step) w keeps h = record_step-Held step w (keeps step refl) h

      decide_with-Held :
          (now : Time) (approval_id : Result String) (w : Office bolt audit journal approvals deps)
          → Holds w.0
          → Holds (decide_with bolt audit journal approvals deps request now approval_id w).1.0
      unfolding decide_with
      decide_with-Held now (err e) w h = h
      decide_with-Held now (ok approval_id) w h =
          elim (Bool-cases (valid_token approval_id max_command_id_length)) [
            | inr e ↦ rw e h
            | inl e ↦ rw e (
                decide_planned-Held
                  (plan bolt audit.sha256_hex journal approvals request now approval_id w.0) w
                  (plan-Keeps bolt audit journal approvals command_id id document request now
                    approval_id w.0)
                  h)
          ]

      decide_at-Held :
          (now : Result Time) (w : Office bolt audit journal approvals deps)
          → Holds w.0
          → Holds (decide_at bolt audit journal approvals deps request now w).1.0
      unfolding decide_at
      decide_at-Held (err e) w h = h
      decide_at-Held (ok now) w h =
          decide_with-Held now (deps.new_approval_id w.1).0 (w.0, (deps.new_approval_id w.1).1) h

      decide-Held :
          (w : Office bolt audit journal approvals deps)
          → Holds w.0
          → Holds (decide bolt audit journal approvals deps request w).1.0
      unfolding decide decide_invalid manager_now
      decide-Held w h = elim (Bool-cases (valid_decision_request request)) [
        | inr e ↦ rw e (record_rejected-Held "invalid_approval" w h)
        | inl e ↦ rw e (decide_at-Held _ (w.0, (deps.clock_now w.1).1) h)
      ]

  -- LoadApproval reads the two entries of the decision only.
  load_approval-Held :
      (command_id : String) (tx tx' : Tx) (a : Approval)
      → ((id document : String)
          → Held bolt audit journal approvals command_id id document tx
          → Held bolt audit journal approvals command_id id document tx')
      → load_approval bolt audit.sha256_hex journal approvals tx command_id ≡ ok (some a)
      → load_approval bolt audit.sha256_hex journal approvals tx' command_id ≡ ok (some a)
  load_approval-Held command_id tx tx' a kept h =
      elim (Result-cases (get bolt tx bucket_approvals (approval_command_key command_id))) [
        | inr (x, g) ↦ absurd (unfold load_approval in ground arith)
        | inl (none, g) ↦ absurd (unfold load_approval indexed_approval in ground arith)
        | inl (some id, g) ↦
            elim (Result-cases (get bolt tx bucket_approvals (approval_record_key id))) [
              | inr (x, r) ↦ absurd (unfold load_approval indexed_approval in ground arith)
              | inl (none, r) ↦
                  absurd (unfold load_approval indexed_approval present_approval in ground arith)
              | inl (some document, r) ↦
                  let k = kept id document (record { indexed = g; present = r }) in
                  unfold load_approval indexed_approval in ground (arith, k.indexed, k.present)
            ]
      ]

  -- A decision that LoadApproval returns for a command is returned unchanged after any later call of
  -- Decide, for that or any other command, whatever the call returns.
  pub decide-load_approval :
      (request : DecisionRequest) (w : Office bolt audit journal approvals deps)
      (command_id : String) (a : Approval)
      → load_approval bolt audit.sha256_hex journal approvals w.0 command_id ≡ ok (some a)
      → load_approval bolt audit.sha256_hex journal approvals
          (decide bolt audit journal approvals deps request w).1.0
          command_id
        ≡ ok (some a)
  decide-load_approval request w command_id a h =
      load_approval-Held command_id w.0 (decide bolt audit journal approvals deps request w).1.0 a
        (λ id document held. decide-Held command_id id document request w held) h
