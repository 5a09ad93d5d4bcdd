-- ===== src/Scenarios/Decisions.antt =====
-- The theorems on the policy and on the contract's lifecycles, at concrete inputs.
use pulse_agent.Prelude.{ℕ, ◌≤◌, ◌≡◌, refl, ◌⊎◌, ◌↔◌, true, false, [], ◌∷◌, any, none, ◌==◌}
use pulse_agent.Contract.{
  recovery_pending, recovery_approved, recovery_executing, recovery_stabilizing, recovery_succeeded,
  incident_open, incident_analyzing, incident_closed, can_transition_to, incident_can_transition_to,
  terminal_incident, confidence_low, notification_other, TypedAction,
}
use pulse_agent.Contract.Lifecycle.{
  CommandWalk, IncidentWalk, CommandWalk-bounded, success_has_four_steps, IncidentWalk-bounded,
  terminal_incident_final,
}
use pulse_agent.Policy.{Input, RegisteredRunbook, verdict_deny, evaluate, needs_approval, contains}
use pulse_agent.Policy.Clearance.{Cleared}
use pulse_agent.Policy.Safety.{
  Approved, allowed, awaits, evaluate-allow_iff, evaluate-await_iff, evaluate-advice,
  evaluate_cases,
}
use pulse_agent.Policy.Bisect.{contains-any}
use pulse_agent.Scenarios.Samples.{sample_policy, sample_input}

-- The sample's input with the command ID and the clock that Submit fills in.
abbrev decided_input : Input
decided_input = record sample_input { command_id = "command-1"; now = 1500 }

evaluate-allow_iff_example : (evaluate (sample_policy false) decided_input ≡ allowed) ↔ (
    (registered : RegisteredRunbook) × (action : TypedAction) × Cleared
      (sample_policy false)
      decided_input
      registered
      action
    × Approved (sample_policy false) decided_input registered)
evaluate-allow_iff_example = evaluate-allow_iff (sample_policy false) decided_input

evaluate-await_iff_example : (evaluate (sample_policy true) decided_input ≡ awaits) ↔ (
    (registered : RegisteredRunbook) × (action : TypedAction) × Cleared
      (sample_policy true)
      decided_input
      registered
      action
    × (decided_input.approval ≡ none)
    × (needs_approval registered.runbook ≡ true))
evaluate-await_iff_example = evaluate-await_iff (sample_policy true) decided_input

evaluate-advice_example :
    evaluate (sample_policy false) (record decided_input {
      analysis_confidence = confidence_low ∷ [];
      notification_suggestion = notification_other "page";
    })
    ≡ evaluate (sample_policy false) decided_input
evaluate-advice_example =
    evaluate-advice (sample_policy false) decided_input (confidence_low ∷ [])
      (notification_other "page")

evaluate_cases_example :
    (evaluate (sample_policy true) decided_input ≡ allowed)
    ⊎ (evaluate (sample_policy true) decided_input ≡ awaits)
    ⊎ ((evaluate (sample_policy true) decided_input).verdict ≡ verdict_deny)
evaluate_cases_example = evaluate_cases (sample_policy true) decided_input

contains-any_example :
    contains ("restart-worker" ∷ "restart-api" ∷ "restart-db" ∷ []) "restart-api"
    ≡ any (λ x. x == "restart-api") ("restart-worker" ∷ "restart-api" ∷ "restart-db" ∷ [])
contains-any_example =
    contains-any ("restart-worker" ∷ "restart-api" ∷ "restart-db" ∷ []) "restart-api"

successful_walk : CommandWalk recovery_pending recovery_succeeded 4
unfolding can_transition_to
successful_walk = CommandWalk.move {s = recovery_approved} refl (
    CommandWalk.move {s = recovery_executing} refl (
      CommandWalk.move {s = recovery_stabilizing} refl
        (CommandWalk.move {s = recovery_succeeded} refl CommandWalk.stay)))

CommandWalk-bounded_example : 4 ≤ 4
CommandWalk-bounded_example = CommandWalk-bounded successful_walk

success_has_four_steps_example : ◌≡◌ {A = ℕ} 4 4
success_has_four_steps_example = success_has_four_steps successful_walk

closed_walk : IncidentWalk incident_open incident_closed 2
unfolding incident_can_transition_to
closed_walk =
    IncidentWalk.move {j = incident_analyzing} refl
      (IncidentWalk.move {j = incident_closed} refl IncidentWalk.stay)

IncidentWalk-bounded_example : 2 ≤ 5
IncidentWalk-bounded_example = IncidentWalk-bounded closed_walk

stays_closed : IncidentWalk incident_closed incident_closed 0
stays_closed = IncidentWalk.stay

terminal_incident_final_example : ◌≡◌ {A = ℕ} 0 0
unfolding terminal_incident
terminal_incident_final_example = terminal_incident_final {i = incident_closed} refl stays_closed
