-- ===== src/Recovery/Approval/Accepted.antt =====
-- Decide of internal/recovery/approval.go where it accepts, and LoadApproval after it.
use Prim.Native.String.{len}
use pulse_agent.Prelude.{
  ◌≤◌, ◌<◌, String, ◌≡◌, refl, sym, subst, ap, ◌∙◌, inl, inr, true, none, some, Bool-cases, arith,
}
use pulse_agent.Prelude.Result.{Result, ok, err, Result-cases}
use pulse_agent.Contract.{Time, Approval}
use pulse_agent.Store.{Bolt, bucket_approvals, get}
use pulse_agent.Audit.{AuditCodec}
use pulse_agent.Audit.Change.{changed}
use pulse_agent.Recovery.Types.{JournalRecord, Codec}
use pulse_agent.Recovery.Record.{valid_token, max_command_id_length}
use pulse_agent.Recovery.Journal.{StoredRecord, find_record_by_command_id}
use pulse_agent.Recovery.Approval.Types.{
  DecisionRequest, DecisionResult, ApprovalDeps, AuditStep, approval_record_key,
  approval_command_key, valid_audit_request, valid_decision_request, validate_approval,
}
use pulse_agent.Recovery.Approval.Plan.{
  is_undecided, new_approval, associated, plan, store_approval, load_approval,
}
use pulse_agent.Recovery.Approval.Decide.{
  Office, manager_now, record_step, record_rejected, decide_planned, decide_with, decide_at,
  decide_invalid, decide, after_recorded,
}
use pulse_agent.Recovery.Approval.Matched.{find_record-command_id}
use pulse_agent.Recovery.Approval.Stored.{Entered, store_approval-Entered, load_approval-Entered}
use pulse_agent.Recovery.Approval.Chosen.{Chosen, plan-Accepting}
use pulse_agent.Recovery.Approval.Recorded.{Recorded, record_step-Recorded}

module _ (bolt : Bolt) (audit : AuditCodec) (journal : Codec JournalRecord)
    (approvals : Codec Approval) (deps : ApprovalDeps) where
  open bolt use {Tx}

  module _ (request : DecisionRequest) where
    -- An accepted decision: what held of the command, what it is, and how it is read back.
    pub record Accepted (tx tx' : Tx) (r : DecisionResult) : Type 0 where
      pub before_decision : StoredRecord
      pub after_decision : JournalRecord
      pub is_before :
          find_record_by_command_id bolt audit.sha256_hex journal tx request.command_id
          ≡ ok (some before_decision)
      pub undecided : is_undecided before_decision.stored ≡ true
      pub no_decision :
          get bolt tx bucket_approvals (approval_command_key request.command_id) ≡ ok none
      pub before_expiry : r.approval.created_at < before_decision.stored.command.expires_at
      pub before_end : r.approval.created_at < request.expires_at
      pub within : request.expires_at ≤ before_decision.stored.command.expires_at
      pub approval :
          r.approval
          ≡ new_approval request r.approval.created_at r.approval.approval_id
              before_decision.stored.command
      pub valid : validate_approval r.approval ≡ ok tt
      pub same_command : r.approval.command_id ≡ request.command_id
      pub is_after : associated before_decision.stored r.approval ≡ ok after_decision
      pub command : r.command ≡ after_decision.command
      pub loaded :
          load_approval bolt audit.sha256_hex journal approvals tx' request.command_id
          ≡ ok (some r.approval)

    -- Documents of decisions fit the decoder's limit.
    abbrev pub Fits : Type 0
    Fits =
        (a : Approval) (text : String) → approvals.marshal a ≡ ok text → len text ≤ approvals.limit

    module _ (fits : Fits)
        (valid_id : valid_token request.command_id max_command_id_length ≡ true) where
      loaded_after :
          (tx tx' : Tx) (s : StoredRecord) (now : Time) (approval_id : String)
          (step : AuditStep bolt) (r : DecisionResult)
          → r.approval.command_id ≡ request.command_id
          → Chosen bolt audit.sha256_hex journal approvals request now approval_id s step r
          → Recorded bolt audit journal approvals deps step tx tx'
          → load_approval bolt audit.sha256_hex journal approvals tx' request.command_id
            ≡ ok (some r.approval)
      loaded_after tx tx' s now approval_id step r same c (tx1, made, agrees) =
          let stored : store_approval bolt audit.sha256_hex journal approvals s.key c.left
                r.approval c.text tx
              ≡ ok tx1 =
            subst (λ x. changed audit bolt x tx ≡ ok tx1) c.stores made in
          let entered =
            store_approval-Entered bolt audit.sha256_hex journal approvals tx tx1 s.key c.left
              r.approval c.text stored in
          let still : Entered bolt audit.sha256_hex journal approvals tx' r.approval c.text =
            record {
              indexed =
                  agrees bucket_approvals (approval_command_key r.approval.command_id) (λ n. cc n)
                  ∙ entered.indexed;
              present =
                  agrees bucket_approvals (approval_record_key r.approval.approval_id) (λ n. cc n)
                  ∙ entered.present;
            } in
          subst
            (λ (x : String).
              load_approval bolt audit.sha256_hex journal approvals tx' x ≡ ok (some r.approval))
            same
            (load_approval-Entered bolt audit.sha256_hex journal approvals tx' r.approval c.text
              still c.marshalled (fits r.approval c.text c.marshalled) c.valid (rw same valid_id))

      planned-Accepted :
          (now : Time) (approval_id : String) (step : AuditStep bolt) (tx tx' : Tx)
          (r : DecisionResult)
          → plan bolt audit.sha256_hex journal approvals request now approval_id tx ≡ ok step
          → step.answer ≡ ok r
          → Recorded bolt audit journal approvals deps step tx tx'
          → Accepted tx tx' r
      planned-Accepted now approval_id step tx tx' r p e recorded =
          let (s, f, a) =
            plan-Accepting bolt audit.sha256_hex journal approvals request now approval_id tx step r
              p e in
          let made : r.approval.created_at ≡ now =
            ap (λ (x : Approval). x.created_at) a.chosen.approval in
          let named : r.approval.approval_id ≡ approval_id =
            ap (λ (x : Approval). x.approval_id) a.chosen.approval in
          let same : r.approval.command_id ≡ request.command_id =
            ap (λ (x : Approval). x.command_id) a.chosen.approval
            ∙ find_record-command_id bolt audit.sha256_hex journal request.command_id tx s f in
          record {
            before_decision = s;
            after_decision = a.chosen.left;
            is_before = f;
            undecided = a.undecided;
            no_decision = a.no_decision;
            before_expiry = rw made a.before_expiry;
            before_end = rw made a.before_end;
            within = a.within;
            approval = a.chosen.approval ∙ cc (made, named);
            is_after = a.chosen.is_left;
            valid = a.chosen.valid;
            same_command = same;
            command = a.chosen.command;
            loaded = loaded_after tx tx' s now approval_id step r same a.chosen recorded;
          }

      decide_planned-Accepted :
          (now : Time) (approval_id : String) (planned : Result (AuditStep bolt))
          (w : Office bolt audit journal approvals deps) (r : DecisionResult)
          → plan bolt audit.sha256_hex journal approvals request now approval_id w.0 ≡ planned
          → (decide_planned bolt audit journal approvals deps request planned w).0 ≡ ok r
          → Accepted w.0 (decide_planned bolt audit journal approvals deps request planned w).1.0 r
      unfolding decide_planned
      decide_planned-Accepted now approval_id (err e) w r p h = absurd (cc h)
      decide_planned-Accepted now approval_id (ok step) w r p h =
          elim (Result-cases (record_step bolt audit journal approvals deps request step w).0) [
            | inr (x, c) ↦ absurd (cc (c, h, ap (after_recorded step.answer) c))
            | inl (tt, c) ↦
                planned-Accepted now approval_id step w.0
                  (record_step bolt audit journal approvals deps request step w).1.0 r p
                  (sym (ap (after_recorded step.answer) c) ∙ h)
                  (record_step-Recorded bolt audit journal approvals deps request step w c)
          ]

      decide_with-Accepted :
          (now : Time) (approval_id : Result String) (w : Office bolt audit journal approvals deps)
          (r : DecisionResult)
          → (decide_with bolt audit journal approvals deps request now approval_id w).0 ≡ ok r
          → Accepted w.0
              (decide_with bolt audit journal approvals deps request now approval_id w).1.0
              r
      unfolding decide_with
      decide_with-Accepted now (err e) w r h = absurd (cc h)
      decide_with-Accepted now (ok approval_id) w r h =
          elim (Bool-cases (valid_token approval_id max_command_id_length)) [
            | inr e ↦ absurd (ground (arith, e, h))
            | inl e ↦ rw e (
                decide_planned-Accepted now approval_id
                  (plan bolt audit.sha256_hex journal approvals request now approval_id w.0) w r
                  refl (rw e at h))
          ]

      decide_at-Accepted :
          (now : Result Time) (w : Office bolt audit journal approvals deps) (r : DecisionResult)
          → (decide_at bolt audit journal approvals deps request now w).0 ≡ ok r
          → Accepted w.0 (decide_at bolt audit journal approvals deps request now w).1.0 r
      unfolding decide_at
      decide_at-Accepted (err e) w r h = absurd (cc h)
      decide_at-Accepted (ok now) w r h =
          decide_with-Accepted now (deps.new_approval_id w.1).0 (w.0, (deps.new_approval_id w.1).1)
            r h

    -- Decide returns a result only for a command that awaits a decision and has none, at a time
    -- before the command's end and before the end of the decision, which is not after the
    -- command's; the result is the decision that was asked for, and LoadApproval returns it from
    -- the store that Decide leaves. The documents of decisions have to fit the decoder's size limit.
    pub decide-Accepted :
        (w : Office bolt audit journal approvals deps) (r : DecisionResult)
        → Fits
        → (decide bolt audit journal approvals deps request w).0 ≡ ok r
        → Accepted w.0 (decide bolt audit journal approvals deps request w).1.0 r
    unfolding decide decide_invalid manager_now
    decide-Accepted w r fits h = elim (Bool-cases (valid_decision_request request)) [
      | inr e ↦
          elim (Result-cases
            (record_rejected bolt audit journal approvals deps request "invalid_approval" w).0) [
              | inl (tt, c) ↦ absurd (ground (arith, e, h, c))
              | inr (x, c) ↦ absurd (ground (arith, e, h, c))
            ]
      | inl e ↦
          let valid_id : valid_token request.command_id max_command_id_length ≡ true =
            unfold valid_decision_request valid_audit_request in ground (arith, e) in
          rw e (decide_at-Accepted fits valid_id _ (w.0, (deps.clock_now w.1).1) r (rw e at h))
    ]
