-- ===== src/Recovery/Approval/Immutable.antt =====
-- A stored decision of internal/recovery/approval.go through any later call of Decide.
use pulse_agent.Prelude.{
  ltb, String, ◌≡◌, ◌≢◌, subst, ap, ◌∙◌, inl, inr, not, Option, none, some, Bool-cases, arith, ◌||◌,
}
use pulse_agent.Prelude.Result.{
  decision_conflict, invalid_decision, command_not_found, Error, Result, ok, Result-cases,
}
use pulse_agent.Contract.{Time, Approval}
use pulse_agent.Store.{Bolt, bucket_approvals, bucket_command_journal, put, get}
use pulse_agent.Store.Laws.{get-put_ne}
use pulse_agent.Audit.{AuditCodec}
use pulse_agent.Audit.Change.{changed}
use pulse_agent.Recovery.Types.{JournalRecord, Codec}
use pulse_agent.Recovery.Journal.{StoredRecord, find_record_by_command_id, put_record}
use pulse_agent.Recovery.Transitions.{transition_to_expired}
use pulse_agent.Recovery.Approval.Types.{
  DecisionRequest, AuditStep, approval_record_key, approval_command_key,
}
use pulse_agent.Recovery.Approval.Plan.{
  is_undecided, new_approval, associated, rejection, store_approval, plan_accepted, plan_expired,
  plan_once, plan_new, plan_found, plan,
}
use pulse_agent.Recovery.Approval.Matched.{find_record-command_id}

module _ (bolt : Bolt) (audit : AuditCodec) (journal : Codec JournalRecord)
    (approvals : Codec Approval) (command_id id document : String) where
  open bolt use {Tx, commit_error}

  -- The index entry of a command and the decision that it names.
  pub record Held (tx : Tx) : Type 0 where
    pub indexed : get bolt tx bucket_approvals (approval_command_key command_id) ≡ ok (some id)
    pub present : get bolt tx bucket_approvals (approval_record_key id) ≡ ok (some document)

  pub Held-agrees :
      (tx tx' : Tx)
      → ((k : String) → get bolt tx' bucket_approvals k ≡ get bolt tx bucket_approvals k)
      → Held tx
      → Held tx'
  Held-agrees tx tx' same h = record {
    indexed = same (approval_command_key command_id) ∙ h.indexed;
    present = same (approval_record_key id) ∙ h.present;
  }

  -- A key without a value is not one of the two.
  record IsOther (key : String) : Type 0 where
    other_index : approval_command_key command_id ≢ key
    other_record : approval_record_key id ≢ key

  absent-IsOther :
      (tx : Tx) (key : String) → Held tx → get bolt tx bucket_approvals key ≡ ok none → IsOther key
  absent-IsOther tx key h n = record {
    other_index = λ e. cc (h.indexed, n, ap (get bolt tx bucket_approvals) e);
    other_record = λ e. cc (h.present, n, ap (get bolt tx bucket_approvals) e);
  }

  Held-put :
      (tx tx' : Tx) (key value : String)
      → put bolt tx bucket_approvals key value ≡ ok tx'
      → IsOther key
      → Held tx
      → Held tx'
  Held-put tx tx' key value p o h = record {
    indexed =
        get-put_ne bolt tx tx' bucket_approvals bucket_approvals key value _ p (inr o.other_index)
        ∙ h.indexed;
    present =
        get-put_ne bolt tx tx' bucket_approvals bucket_approvals key value _ p (inr o.other_record)
        ∙ h.present;
  }

  Held-put_record :
      (tx tx' : Tx) (key : String) (r : JournalRecord)
      → put_record bolt audit.sha256_hex journal tx key r ≡ ok tx'
      → Held tx
      → Held tx'
  Held-put_record tx tx' key r p h = elim (Result-cases (journal.marshal r)) [
    | inr (x, m) ↦ absurd (unfold put_record in ground arith)
    | inl (text, m) ↦
        let written : put bolt tx bucket_command_journal key text ≡ ok tx' =
          unfold put_record in ground arith in
        Held-agrees tx tx'
          (λ k.
            get-put_ne bolt tx tx' bucket_command_journal bucket_approvals key text k written
              (inl (λ e. cc e)))
          h
  ]

  Held-store_approval :
      (tx tx' : Tx) (key : String) (r : JournalRecord) (a : Approval) (text : String)
      → store_approval bolt audit.sha256_hex journal approvals key r a text tx ≡ ok tx'
      → IsOther (approval_record_key a.approval_id)
      → IsOther (approval_command_key a.command_id)
      → Held tx
      → Held tx'
  Held-store_approval tx tx' key r a text s o p h =
      elim (Result-cases (put bolt tx bucket_approvals (approval_record_key a.approval_id) text)) [
        | inr (x, e) ↦ absurd (unfold store_approval in ground arith)
        | inl (tx1, e) ↦
            elim (Result-cases
              (put bolt tx1 bucket_approvals (approval_command_key a.command_id) a.approval_id)) [
                | inr (x, f) ↦ absurd (unfold store_approval in ground arith)
                | inl (tx2, f) ↦
                    Held-put_record tx2 tx' key r (unfold store_approval in ground arith)
                      (Held-put tx1 tx2 _ _ f p (Held-put tx tx1 _ _ e o h))
              ]
      ]

  -- A step whose change keeps the decision.
  abbrev pub Keeps : Tx → AuditStep bolt → Type 0
  Keeps tx step = (tx1 : Tx) → changed audit bolt step.mutation tx ≡ ok tx1 → Held tx → Held tx1

  pub Keeps-none : (tx : Tx) (step : AuditStep bolt) → step.mutation ≡ none → Keeps tx step
  Keeps-none tx step e tx1 c h =
      let same : tx ≡ tx1 = unchanged tx tx1 step.mutation e c in subst Held same h
    where
      unchanged :
          (tx tx1 : Tx) (m : Option (Tx → Result Tx))
          → m ≡ none
          → changed audit bolt m tx ≡ ok tx1
          → tx ≡ tx1
      unchanged tx tx1 none e c = ground arith
      unchanged tx tx1 (some f) e c = absurd (cc e)

  module _ (request : DecisionRequest) (now : Time) (approval_id : String) where
    rejection-Keeps :
        (tx : Tx) (reason : String) (e : Error) (step : AuditStep bolt)
        → rejection bolt audit.sha256_hex journal approvals reason e ≡ ok step
        → Keeps tx step
    rejection-Keeps tx reason e step h = Keeps-none tx step (unfold rejection in ground arith)

    plan_accepted-Keeps :
        (tx : Tx) (s : StoredRecord) (step : AuditStep bolt)
        → s.stored.command.command_id ≡ request.command_id
        → get bolt tx bucket_approvals (approval_record_key approval_id) ≡ ok none
        → get bolt tx bucket_approvals (approval_command_key request.command_id) ≡ ok none
        → plan_accepted bolt audit.sha256_hex journal approvals request now approval_id s ≡ ok step
        → Keeps tx step
    plan_accepted-Keeps tx s step same fresh undecided h tx1 c held =
        let approval = new_approval request now approval_id s.stored.command in
        elim (Result-cases (associated s.stored approval)) [
          | inr (x, r) ↦ absurd (unfold plan_accepted in ground arith)
          | inl (r, ra) ↦ elim (Result-cases (approvals.marshal approval)) [
            | inr (x, m) ↦ absurd (unfold plan_accepted in ground arith)
            | inl (text, m) ↦
                let stores : step.mutation
                    ≡ some (
                        store_approval bolt audit.sha256_hex journal approvals s.key r approval
                          text) =
                  unfold plan_accepted in ground arith in
                let stored : store_approval bolt audit.sha256_hex journal approvals s.key r approval
                      text tx
                    ≡ ok tx1 =
                  subst (λ x. changed audit bolt x tx ≡ ok tx1) stores c in
                Held-store_approval tx tx1 s.key r approval text stored
                  (absent-IsOther tx (approval_record_key approval_id) held fresh)
                  (absent-IsOther tx (approval_command_key s.stored.command.command_id) held
                    (rw same undecided))
                  held
          ]
        ]

    plan_expired-Keeps :
        (tx : Tx) (s : StoredRecord) (step : AuditStep bolt)
        → plan_expired bolt audit.sha256_hex journal approvals request now approval_id s ≡ ok step
        → Keeps tx step
    plan_expired-Keeps tx s step h tx1 c held =
        elim (Result-cases (transition_to_expired s.stored)) [
          | inr (x, r) ↦ absurd (unfold plan_expired in ground arith)
          | inl (r, t) ↦
              let stores : step.mutation
                  ≡ some (λ (tx : Tx). put_record bolt audit.sha256_hex journal tx s.key r) =
                unfold plan_expired in ground arith in
              Held-put_record tx tx1 s.key r
                (subst (λ x. changed audit bolt x tx ≡ ok tx1) stores c) held
        ]

    plan_once-Keeps :
        (tx : Tx) (s : StoredRecord) (decided : Option String) (step : AuditStep bolt)
        → s.stored.command.command_id ≡ request.command_id
        → get bolt tx bucket_approvals (approval_record_key approval_id) ≡ ok none
        → get bolt tx bucket_approvals (approval_command_key request.command_id) ≡ ok decided
        → plan_once bolt audit.sha256_hex journal approvals request now approval_id s decided
          ≡ ok step
        → Keeps tx step
    unfolding plan_once
    plan_once-Keeps tx s (some d) step same fresh g h =
        rejection-Keeps tx "decision_conflict" decision_conflict step h
    plan_once-Keeps tx s none step same fresh g h = plan_accepted-Keeps tx s step same fresh g h

    plan_new-Keeps :
        (tx : Tx) (s : StoredRecord) (step : AuditStep bolt)
        → s.stored.command.command_id ≡ request.command_id
        → plan_new bolt audit.sha256_hex journal approvals request now approval_id tx s ≡ ok step
        → Keeps tx step
    plan_new-Keeps tx s step same h =
        elim (Result-cases (get bolt tx bucket_approvals (approval_record_key approval_id))) [
          | inr (x, g) ↦ absurd (unfold plan_new in ground arith)
          | inl (some d, g) ↦ absurd (unfold plan_new in ground arith)
          | inl (none, g) ↦
              elim (Result-cases
                (get bolt tx bucket_approvals (approval_command_key request.command_id))) [
                  | inr (x, k) ↦ absurd (unfold plan_new in ground arith)
                  | inl (decided, k) ↦
                      plan_once-Keeps tx s decided step same g k (unfold plan_new in ground arith)
                ]
        ]

    plan_found-Keeps :
        (tx : Tx) (found : Option StoredRecord) (step : AuditStep bolt)
        → find_record_by_command_id bolt audit.sha256_hex journal tx request.command_id ≡ ok found
        → plan_found bolt audit.sha256_hex journal approvals request now approval_id tx found
          ≡ ok step
        → Keeps tx step
    unfolding plan_found
    plan_found-Keeps tx none step f h =
        rejection-Keeps tx "command_not_found" command_not_found step h
    plan_found-Keeps tx (some s) step f h = elim (Bool-cases (is_undecided s.stored)) [
      | inr a ↦ rejection-Keeps tx "decision_conflict" decision_conflict step (ground (arith, a))
      | inl a ↦
          elim (Bool-cases
            (not (ltb now s.stored.command.expires_at) || not (ltb now request.expires_at))) [
              | inl b ↦ plan_expired-Keeps tx s step (ground (arith, a, b))
              | inr b ↦ elim (Bool-cases (ltb s.stored.command.expires_at request.expires_at)) [
                | inl d ↦
                    rejection-Keeps tx "invalid_approval" invalid_decision step
                      (ground (arith, a, b, d))
                | inr d ↦
                    plan_new-Keeps tx s step
                      (find_record-command_id bolt audit.sha256_hex journal request.command_id tx s
                        f)
                      (ground (arith, a, b, d))
              ]
            ]
    ]

    pub plan-Keeps :
        (tx : Tx) (step : AuditStep bolt)
        → plan bolt audit.sha256_hex journal approvals request now approval_id tx ≡ ok step
        → Keeps tx step
    plan-Keeps tx step h =
        elim (Result-cases
          (find_record_by_command_id bolt audit.sha256_hex journal tx request.command_id)) [
            | inr (x, f) ↦ absurd (unfold plan in ground arith)
            | inl (found, f) ↦ plan_found-Keeps tx found step f (unfold plan in ground arith)
          ]
