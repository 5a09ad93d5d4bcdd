-- ===== src/Recovery/Approval/Decide.antt =====
-- Decide, recordRejected and appendAudit of internal/recovery/approval.go. The callback of Decide
-- writes nothing before it calls appendAudit, so the event ID and the time that appendAudit asks for
-- are asked for before the transaction that writes.
use Prim.Native.String.{◌++◌}
use pulse_agent.Prelude.{String, not, none, if◌then◌else◌}
use pulse_agent.Prelude.Result.{Result, ok, err, invalid_approval_options, invalid_decision}
use pulse_agent.Contract.{Time, is_zero, Approval, schema_version_v1}
use pulse_agent.Store.{Bolt, update}
use pulse_agent.Audit.{AuditEvent, AuditCodec, append}
use pulse_agent.Recovery.Types.{JournalRecord, Codec}
use pulse_agent.Recovery.Record.{valid_token, max_command_id_length}
use pulse_agent.Recovery.Coordinator.Deps.{◌>>=◌, pure}
use pulse_agent.Recovery.Approval.Types.{
  DecisionRequest, DecisionResult, ApprovalDeps, AuditStep, valid_audit_request,
  valid_decision_request,
}
use pulse_agent.Recovery.Approval.Plan.{plan}

abbrev pub decision_event :
    (String → String) → DecisionRequest → String → String → String → Time → AuditEvent
decision_event sha256_hex request result reason event_id now = record {
  schema_version = schema_version_v1;
  event_id = event_id;
  aggregate_type = "recovery_approval";
  aggregate_id = "command-" ++ sha256_hex request.command_id;
  actor_identity = request.actor_identity;
  action = "approval.decide";
  result = result;
  reason_code = reason;
  occurred_at = now;
  previous_digest = "";
  digest = "";
}

-- What Decide returns after appendAudit.
abbrev pub after_recorded : Result DecisionResult → Result (Unit {0}) → Result DecisionResult
after_recorded answer (err e) = err e
after_recorded answer (ok _) = answer

module _ (bolt : Bolt) (audit : AuditCodec) (journal : Codec JournalRecord)
    (approvals : Codec Approval) (deps : ApprovalDeps) where
  open bolt use {Tx}
  open deps use {Outside, clock_now, new_approval_id, new_audit_event_id}

  abbrev pub Office : Type 0
  Office = Tx × Outside

  abbrev pub O {ℓ} : Type ℓ → Type ℓ
  O A = Office → A × Office

  abbrev pub consult {ℓ} : {A : Type ℓ} → (Outside → A × Outside) → O A
  consult f w = let (a, o) = f w.1 in (a, (w.0, o))

  abbrev pub commit {ℓ} : {A : Type ℓ} → (Tx → A × Tx) → O A
  commit f w = let (a, t) = f w.0 in (a, (t, w.1))

  -- ApprovalManager.now
  unfoldable pub manager_now : O (Result Time)
  manager_now = do
    t ← consult clock_now
    pure (if is_zero t then err invalid_approval_options else ok t)

  unfoldable pub appended : Result (AuditEvent × Tx) → Result (Unit {0} × Tx)
  appended (err e) = err e
  appended (ok (event, tx)) = ok (tt, tx)

  unfoldable pub append_step :
      DecisionRequest → AuditStep bolt → String → Time → Tx → Result (Unit {0} × Tx)
  unfolding appended
  append_step request step event_id now tx = appended (
      append audit bolt tx
        (decision_event audit.sha256_hex request step.audit_result step.reason event_id now)
        step.mutation)

  unfoldable pub record_at :
      DecisionRequest → AuditStep bolt → String → Result Time → O (Result (Unit {0}))
  record_at request step event_id (err e) = pure (err e)
  record_at request step event_id (ok now) =
      commit (update bolt (append_step request step event_id now))

  unfoldable pub record_with :
      DecisionRequest → AuditStep bolt → Result String → O (Result (Unit {0}))
  unfolding record_at manager_now
  record_with request step (err e) = pure (err invalid_approval_options)
  record_with request step (ok event_id) =
      if not (valid_token event_id max_command_id_length)
      then pure (err invalid_approval_options)
      else (do now ← manager_now; record_at request step event_id now)

  -- appendAudit
  unfoldable pub record_step : DecisionRequest → AuditStep bolt → O (Result (Unit {0}))
  unfolding record_with
  record_step request step = do
    event_id ← consult new_audit_event_id
    record_with request step event_id

  unfoldable pub record_rejected : DecisionRequest → String → O (Result (Unit {0}))
  unfolding record_step
  record_rejected request reason =
      if not (valid_audit_request request)
      then pure (ok tt)
      else record_step request (record {
        audit_result = "rejected";
        reason = reason;
        mutation = none;
        answer = err invalid_decision;
      })

  unfoldable pub decide_planned :
      DecisionRequest → Result (AuditStep bolt) → O (Result DecisionResult)
  unfolding record_step
  decide_planned request (err e) = pure (err e)
  decide_planned request (ok step) = do
    recorded ← record_step request step
    pure (after_recorded step.answer recorded)

  unfoldable pub decide_with : DecisionRequest → Time → Result String → O (Result DecisionResult)
  unfolding decide_planned plan
  decide_with request now (err e) w = (err invalid_approval_options, w)
  decide_with request now (ok approval_id) w =
      if not (valid_token approval_id max_command_id_length)
      then (err invalid_approval_options, w)
      else decide_planned request
          (plan bolt audit.sha256_hex journal approvals request now approval_id w.0) w

  unfoldable pub decide_at : DecisionRequest → Result Time → O (Result DecisionResult)
  unfolding decide_with
  decide_at request (err e) = pure (err e)
  decide_at request (ok now) = do
    approval_id ← consult new_approval_id
    decide_with request now approval_id

  unfoldable pub decide_invalid : DecisionRequest → O (Result DecisionResult)
  unfolding record_rejected
  decide_invalid request = do
    recorded ← record_rejected request "invalid_approval"
    pure (after_recorded (err invalid_decision) recorded)

  -- Decide
  unfoldable pub decide : DecisionRequest → O (Result DecisionResult)
  unfolding decide_at decide_invalid manager_now
  decide request =
      if not (valid_decision_request request)
      then decide_invalid request
      else (do now ← manager_now; decide_at request now)
