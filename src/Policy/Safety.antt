-- ===== src/Policy/Safety.antt =====
-- When internal/policy/policy.go's Evaluate allows, waits or denies.
use pulse_agent.Prelude.{
  ◌≡◌, refl, ◌≢◌, ◌↔◌, ◌⊎◌, inl, inr, true, false, ◌∙◌, List, none, some, Option-cases, arith,
}
use pulse_agent.Contract.{
  Approval, Runbook, TypedAction, ConfidenceLabel, NotificationRecommendation,
}
use pulse_agent.Policy.Types.{
  Verdict, verdict_none, verdict_allow, verdict_await_approval, verdict_deny, reason_allowed,
  reason_approval_required, RegisteredRunbook, Snapshot, Input, Decision,
}
use pulse_agent.Policy.Decide.{
  approval_of, approval, needs_approval, has_reason, approval_step, evaluate, evaluate_open,
}
use pulse_agent.Policy.Clearance.{
  Grants, approval_of_allow, approval_of-Grants, approval_of-has_reason, approval_of_never_awaits,
  Cleared, evaluate-Cleared, Cleared-evaluate,
}

abbrev pub allowed : Decision
allowed = record { verdict = verdict_allow; reason_code = reason_allowed }

abbrev pub awaits : Decision
awaits = record { verdict = verdict_await_approval; reason_code = reason_approval_required }

-- A granting approval, or none where the runbook needs none.
abbrev pub Approved : Snapshot → Input → RegisteredRunbook → Type 0
Approved snapshot input registered =
    ((given : Approval) × (input.approval ≡ some given)
      × Grants snapshot.authorized_approvers input given)
    ⊎ ((input.approval ≡ none) × (needs_approval registered.runbook ≡ false))

module _ (snapshot : Snapshot) (input : Input) (registered : RegisteredRunbook) where
  approval_step-Approved :
      Approved snapshot input registered → approval_step snapshot input registered.runbook ≡ allowed
  unfolding approval_step approval has_reason
  approval_step-Approved (inl (given, e, g)) =
      ground (arith, approval_of-Grants snapshot.authorized_approvers input given g)
  approval_step-Approved (inr (e, n)) = ground arith

  Approved-step :
      (approval_step snapshot input registered.runbook).verdict ≡ verdict_allow
      → Approved snapshot input registered
  unfolding approval_step approval
  Approved-step h = elim (Option-cases input.approval) [
    | inl e ↦ inr (e, unfold has_reason in ground arith)
    | inr (given, e) ↦ inl (
      given,
      e,
      approval_of_allow snapshot.authorized_approvers input given
          (ground (arith, approval_of-has_reason snapshot.authorized_approvers input given)),
    )
  ]

  await_of_step :
      (approval_step snapshot input registered.runbook).verdict ≡ verdict_await_approval
      → (input.approval ≡ none) × (needs_approval registered.runbook ≡ true)
  unfolding approval_step approval
  await_of_step h = elim (Option-cases input.approval) [
    | inl e ↦ (e, unfold has_reason in ground arith)
    | inr (given, e) ↦ absurd (
        approval_of_never_awaits snapshot.authorized_approvers input given
          (ground (arith, approval_of-has_reason snapshot.authorized_approvers input given)))
  ]

  step_of_none :
      input.approval ≡ none
      → needs_approval registered.runbook ≡ true
      → approval_step snapshot input registered.runbook ≡ awaits
  unfolding approval_step approval has_reason
  step_of_none e n = ground arith

module _ (snapshot : Snapshot) (input : Input) where
  -- Evaluate allows a request exactly when some registration and action clear it and it is
  -- approved: by a granting approval, or with none given where the runbook needs none.
  pub evaluate-allow_iff : (evaluate snapshot input ≡ allowed) ↔ (
      (registered : RegisteredRunbook) × (action : TypedAction) × Cleared snapshot input registered
        action
      × Approved snapshot input registered)
  evaluate-allow_iff = (
    λ h.
        let (registered, action, c) = Cleared-evaluate snapshot input (λ d. cc (h, d)) in
        (
          registered,
          action,
          c,
          Approved-step snapshot input registered
              (cc (h, evaluate-Cleared snapshot input registered action c)),
        ),
    λ p.
        evaluate-Cleared snapshot input p.0 p.1 p.2 ∙ approval_step-Approved snapshot input p.0 p.3,
  )

  -- Evaluate asks for an approval exactly when some registration and action clear the request, the
  -- runbook needs an approval and none was given; an approval that was given is never waited for.
  pub evaluate-await_iff : (evaluate snapshot input ≡ awaits) ↔ (
      (registered : RegisteredRunbook) × (action : TypedAction) × Cleared snapshot input registered
        action
      × (input.approval ≡ none)
      × (needs_approval registered.runbook ≡ true))
  evaluate-await_iff = (
    λ h.
        let (registered, action, c) = Cleared-evaluate snapshot input (λ d. cc (h, d)) in
        let (given, needed) =
          await_of_step snapshot input registered
            (cc (h, evaluate-Cleared snapshot input registered action c)) in
        (registered, action, c, given, needed),
    λ p. evaluate-Cleared snapshot input p.0 p.1 p.2 ∙ step_of_none snapshot input p.0 p.3 p.4,
  )

  -- The confidence labels and the notification suggestion of a model's analysis never change the
  -- decision.
  pub evaluate-advice :
      (labels : List ConfidenceLabel) (suggestion : NotificationRecommendation)
      → evaluate snapshot
          (record input { analysis_confidence = labels; notification_suggestion = suggestion })
        ≡ evaluate snapshot input
  unfolding evaluate_open
  evaluate-advice labels suggestion = refl

  approval_step_cases :
      (runbook : Runbook)
      → (approval_step snapshot input runbook ≡ allowed)
        ⊎ (approval_step snapshot input runbook ≡ awaits)
        ⊎ ((approval_step snapshot input runbook).verdict ≡ verdict_deny)
  unfolding approval_step approval approval_of has_reason
  approval_step_cases runbook = ground arith

  Verdict-cases : (v : Verdict) → (v ≡ verdict_deny) ⊎ (v ≢ verdict_deny)
  Verdict-cases verdict_deny = inl refl
  Verdict-cases verdict_none = inr (λ e. cc)
  Verdict-cases verdict_allow = inr (λ e. cc)
  Verdict-cases verdict_await_approval = inr (λ e. cc)

  -- Every decision is `allowed`, `awaits` or a denial: Evaluate never returns the zero Decision.
  pub evaluate_cases :
      (evaluate snapshot input ≡ allowed)
      ⊎ (evaluate snapshot input ≡ awaits)
      ⊎ ((evaluate snapshot input).verdict ≡ verdict_deny)
  evaluate_cases = elim (Verdict-cases (evaluate snapshot input).verdict) [
    | inl d ↦ inr (inr d)
    | inr n ↦
        let (registered, action, c) = Cleared-evaluate snapshot input n in
        rw (evaluate-Cleared snapshot input registered action c)
          (approval_step_cases registered.runbook)
  ]
