-- ===== src/Recovery/Approval/Chosen.antt =====
-- The branch of Decide in internal/recovery/approval.go that accepts a decision.
use pulse_agent.Prelude.{
  ◌≤◌, ◌<◌, ltb, String, ◌≡◌, refl, sym, ap, ◌∙◌, inl, inr, true, not, ◌||◌, Option, none, some,
  Bool-cases, arith,
}
use pulse_agent.Prelude.Result.{
  Error, ok, Result-cases, is_ok, decision_conflict, invalid_decision, command_not_found,
}
use pulse_agent.Contract.{Time, Approval}
use pulse_agent.Store.{Bolt, bucket_approvals, get}
use pulse_agent.Recovery.Types.{JournalRecord, Codec}
use pulse_agent.Recovery.Journal.{StoredRecord, find_record_by_command_id}
use pulse_agent.Recovery.Transitions.{transition_to_expired}
use pulse_agent.Recovery.Approval.Types.{
  DecisionRequest, DecisionResult, AuditStep, approval_record_key, approval_command_key,
  validate_approval,
}
use pulse_agent.Recovery.Approval.Plan.{
  is_undecided, new_approval, associated, rejection, store_approval, plan_accepted, plan_expired,
  plan_once, plan_new, plan_found, plan,
}

module _ (bolt : Bolt) (sha256_hex : String → String) (journal : Codec JournalRecord)
    (approvals : Codec Approval) (request : DecisionRequest) (now : Time)
    (approval_id : String) where
  open bolt use {Tx}

  -- The decision is made for this record and this step stores it.
  pub record Chosen (s : StoredRecord) (step : AuditStep bolt) (r : DecisionResult) : Type 0 where
    pub left : JournalRecord
    pub text : String
    pub approval : r.approval ≡ new_approval request now approval_id s.stored.command
    pub valid : validate_approval r.approval ≡ ok tt
    pub is_left : associated s.stored r.approval ≡ ok left
    pub command : r.command ≡ left.command
    pub marshalled : approvals.marshal r.approval ≡ ok text
    pub stores :
        step.mutation
        ≡ some (store_approval bolt sha256_hex journal approvals s.key left r.approval text)

  validated : (a : Approval) → is_ok (validate_approval a) ≡ true → validate_approval a ≡ ok tt
  validated a h = elim (Result-cases (validate_approval a)) [
    | inl (tt, e) ↦ e
    | inr (x, e) ↦ absurd (ground (arith, e))
  ]

  rejection-refuses :
      (reason : String) (e : Error) (step : AuditStep bolt) (r : DecisionResult)
      → rejection bolt sha256_hex journal approvals reason e ≡ ok step
      → step.answer ≡ ok r
      → ⊥
  rejection-refuses reason e step r h a = unfold rejection in ground arith

  plan_accepted-Chosen :
      (s : StoredRecord) (step : AuditStep bolt) (r : DecisionResult)
      → plan_accepted bolt sha256_hex journal approvals request now approval_id s ≡ ok step
      → step.answer ≡ ok r
      → Chosen s step r
  plan_accepted-Chosen s step r h e =
      let approval = new_approval request now approval_id s.stored.command in
      elim (Result-cases (associated s.stored approval)) [
        | inr (x, a) ↦ absurd (unfold plan_accepted in ground arith)
        | inl (left, a) ↦ elim (Result-cases (approvals.marshal approval)) [
          | inr (x, m) ↦ absurd (unfold plan_accepted in ground arith)
          | inl (text, m) ↦
              let v : validate_approval approval ≡ ok tt =
                validated approval (unfold plan_accepted in ground arith) in
              let same : approval ≡ r.approval = unfold plan_accepted in ground arith in
              record {
                left = left;
                text = text;
                approval = sym same;
                valid = rw (← same) v;
                is_left = rw (← same) a;
                command = unfold plan_accepted in ground arith;
                marshalled = rw (← same) m;
                stores = rw (← same) (unfold plan_accepted in ground arith);
              }
        ]
      ]

  -- What holds of the record, of the times and of the store when a decision is accepted.
  pub record Accepting (tx : Tx) (s : StoredRecord) (step : AuditStep bolt) (r : DecisionResult)
      : Type 0 where
    pub undecided : is_undecided s.stored ≡ true
    pub before_expiry : now < s.stored.command.expires_at
    pub before_end : now < request.expires_at
    pub within : request.expires_at ≤ s.stored.command.expires_at
    pub new_id : get bolt tx bucket_approvals (approval_record_key approval_id) ≡ ok none
    pub no_decision :
        get bolt tx bucket_approvals (approval_command_key request.command_id) ≡ ok none
    pub chosen : Chosen s step r

  plan_once-Chosen :
      (s : StoredRecord) (decided : Option String) (step : AuditStep bolt) (r : DecisionResult)
      → plan_once bolt sha256_hex journal approvals request now approval_id s decided ≡ ok step
      → step.answer ≡ ok r
      → (decided ≡ none) × Chosen s step r
  unfolding plan_once
  plan_once-Chosen s (some d) step r h e =
      absurd (rejection-refuses "decision_conflict" decision_conflict step r h e)
  plan_once-Chosen s none step r h e = (refl, plan_accepted-Chosen s step r h e)

  plan_new-Accepting :
      (tx : Tx) (s : StoredRecord) (step : AuditStep bolt) (r : DecisionResult)
      → is_undecided s.stored ≡ true
      → now < s.stored.command.expires_at
      → now < request.expires_at
      → request.expires_at ≤ s.stored.command.expires_at
      → plan_new bolt sha256_hex journal approvals request now approval_id tx s ≡ ok step
      → step.answer ≡ ok r
      → Accepting tx s step r
  plan_new-Accepting tx s step r u b c d h e =
      elim (Result-cases (get bolt tx bucket_approvals (approval_record_key approval_id))) [
        | inr (x, g) ↦ absurd (unfold plan_new in ground arith)
        | inl (some d, g) ↦ absurd (unfold plan_new in ground arith)
        | inl (none, g) ↦
            elim (Result-cases
              (get bolt tx bucket_approvals (approval_command_key request.command_id))) [
                | inr (x, k) ↦ absurd (unfold plan_new in ground arith)
                | inl (decided, k) ↦
                    let (n, chosen) =
                      plan_once-Chosen s decided step r (unfold plan_new in ground arith) e in
                    record {
                      undecided = u;
                      before_expiry = b;
                      before_end = c;
                      within = d;
                      new_id = g;
                      no_decision = k ∙ ap ok n;
                      chosen = chosen;
                    }
              ]
      ]

  plan_expired-refuses :
      (s : StoredRecord) (step : AuditStep bolt) (r : DecisionResult)
      → plan_expired bolt sha256_hex journal approvals request now approval_id s ≡ ok step
      → step.answer ≡ ok r
      → ⊥
  plan_expired-refuses s step r h e = elim (Result-cases (transition_to_expired s.stored)) [
    | inr (x, t) ↦ unfold plan_expired in ground arith
    | inl (left, t) ↦ unfold plan_expired in ground arith
  ]

  plan_found-Accepting :
      (tx : Tx) (s : StoredRecord) (step : AuditStep bolt) (r : DecisionResult)
      → plan_found bolt sha256_hex journal approvals request now approval_id tx (some s) ≡ ok step
      → step.answer ≡ ok r
      → Accepting tx s step r
  unfolding plan_found
  plan_found-Accepting tx s step r h e = elim (Bool-cases (is_undecided s.stored)) [
    | inr a ↦
        absurd
          (rejection-refuses "decision_conflict" decision_conflict step r (ground (arith, a)) e)
    | inl a ↦
        elim (Bool-cases
          (not (ltb now s.stored.command.expires_at) || not (ltb now request.expires_at))) [
            | inl b ↦ absurd (plan_expired-refuses s step r (ground (arith, a, b)) e)
            | inr b ↦ elim (Bool-cases (ltb s.stored.command.expires_at request.expires_at)) [
              | inl d ↦ absurd (
                  rejection-refuses "invalid_approval" invalid_decision step r
                    (ground (arith, a, b, d)) e)
              | inr d ↦
                  plan_new-Accepting tx s step r a (ground arith) (ground arith) (ground arith)
                    (ground (arith, a, b, d)) e
            ]
          ]
  ]

  pub plan-Accepting :
      (tx : Tx) (step : AuditStep bolt) (r : DecisionResult)
      → plan bolt sha256_hex journal approvals request now approval_id tx ≡ ok step
      → step.answer ≡ ok r
      → (s : StoredRecord) × (find_record_by_command_id bolt sha256_hex journal tx
            request.command_id
          ≡ ok (some s))
        × Accepting tx s step r
  plan-Accepting tx step r h e =
      elim (Result-cases
        (find_record_by_command_id bolt sha256_hex journal tx request.command_id)) [
          | inr (x, f) ↦ absurd (unfold plan in ground arith)
          | inl (none, f) ↦ absurd (
              rejection-refuses "command_not_found" command_not_found step r
                (unfold plan plan_found in ground arith) e)
          | inl (some s, f) ↦
              (s, f, plan_found-Accepting tx s step r (unfold plan in ground arith) e)
        ]
