-- ===== src/Contract/Lifecycle.antt =====
-- The two lifecycles of internal/contract/contracts.go, walked by any number of transitions.
use pulse_agent.Prelude.{ℕ, zero, suc, ◌≡◌, refl, ◌≤◌, ◌<◌, ◌+◌, true, arith}
use pulse_agent.Contract.Enums.{
  IncidentState, incident_open, incident_analyzing, incident_awaiting_approval, incident_recovering,
  incident_stabilizing, RecoveryCommandState, recovery_pending, recovery_approved,
  recovery_executing, recovery_stabilizing, recovery_succeeded,
}
use pulse_agent.Contract.States.{can_transition_to, incident_can_transition_to}
use pulse_agent.Contract.Validate.{terminal_incident}

-- `n` transitions that CanTransitionTo allows lead from one command state to another.
pub data CommandWalk : RecoveryCommandState → RecoveryCommandState → ℕ → Type 0 where
  stay : {r : RecoveryCommandState} → CommandWalk r r zero
  move :
      {r s t : RecoveryCommandState} {n : ℕ}
      → can_transition_to r s ≡ true
      → CommandWalk s t n
      → CommandWalk r t (suc n)

pub data IncidentWalk : IncidentState → IncidentState → ℕ → Type 0 where
  stay : {i : IncidentState} → IncidentWalk i i zero
  move :
      {i j k : IncidentState} {n : ℕ}
      → incident_can_transition_to i j ≡ true
      → IncidentWalk j k n
      → IncidentWalk i k (suc n)

-- How far a state lies from `pending`; a final state other than `succeeded` lies furthest.
rank : RecoveryCommandState → ℕ
rank recovery_pending = 0
rank recovery_approved = 1
rank recovery_executing = 2
rank recovery_stabilizing = 3
rank recovery_succeeded = 4
rank _ = 5

rank-lt : (r s : RecoveryCommandState) → can_transition_to r s ≡ true → rank r < rank s
unfolding rank can_transition_to
rank-lt r s h = ground arith

rank_step :
    (r s : RecoveryCommandState) → can_transition_to r s ≡ true → rank s ≤ 4 → rank s ≡ rank r + 1
unfolding rank can_transition_to
rank_step r s h b = ground arith

rank_mono : {r s : RecoveryCommandState} {n : ℕ} → CommandWalk r s n → rank r + n ≤ rank s
rank_mono stay = omega arith
rank_mono (move {r = r} {s = s} h w) = omega (arith, rank-lt r s h, rank_mono w)

rank-le-five : (r : RecoveryCommandState) → rank r ≤ 5
unfolding rank
rank-le-five r = ground arith

rank_exact :
    {r s : RecoveryCommandState} {n : ℕ} → CommandWalk r s n → rank s ≤ 4 → rank r + n ≡ rank s
rank_exact stay b = omega arith
rank_exact (move {r = r} {s = s} h w) b =
    omega (arith, rank_step r s h, rank_mono w, rank_exact w b)

level : RecoveryCommandState → ℕ
level recovery_pending = 0
level recovery_approved = 1
level recovery_executing = 2
level recovery_stabilizing = 3
level _ = 4

level-lt : (r s : RecoveryCommandState) → can_transition_to r s ≡ true → level r < level s
unfolding level can_transition_to
level-lt r s h = ground arith

level_mono : {r s : RecoveryCommandState} {n : ℕ} → CommandWalk r s n → level r + n ≤ level s
level_mono stay = omega arith
level_mono (move {r = r} {s = s} h w) = omega (arith, level-lt r s h, level_mono w)

level-le-four : (r : RecoveryCommandState) → level r ≤ 4
unfolding level
level-le-four r = ground arith

rank-succeeded : (s : RecoveryCommandState) → s ≡ recovery_succeeded → rank s ≡ 4
unfolding rank
rank-succeeded s e = rw e

-- Every walk through the recovery command lifecycle from `pending` ends after at most four
-- transitions.
pub CommandWalk-bounded :
    {s : RecoveryCommandState} {n : ℕ} → CommandWalk recovery_pending s n → n ≤ 4
unfolding level
CommandWalk-bounded {s} w = omega (arith, level_mono w, level-le-four s)

-- A command that succeeds has made exactly four transitions: no walk from `pending` to `succeeded`
-- skips a state.
pub success_has_four_steps : {n : ℕ} → CommandWalk recovery_pending recovery_succeeded n → n ≡ 4
unfolding rank
success_has_four_steps w =
    omega (arith, rank_exact w (rw (rank-succeeded recovery_succeeded refl) (omega arith)))

height : IncidentState → ℕ
height incident_open = 0
height incident_analyzing = 1
height incident_awaiting_approval = 2
height incident_recovering = 3
height incident_stabilizing = 4
height _ = 5

height-lt : (i j : IncidentState) → incident_can_transition_to i j ≡ true → height i < height j
unfolding height incident_can_transition_to
height-lt i j h = ground arith

height_mono : {i j : IncidentState} {n : ℕ} → IncidentWalk i j n → height i + n ≤ height j
height_mono stay = omega arith
height_mono (move {i = i} {j = j} h w) = omega (arith, height-lt i j h, height_mono w)

height-le-five : (i : IncidentState) → height i ≤ 5
unfolding height
height-le-five i = ground arith

height-terminal : (i : IncidentState) → terminal_incident i ≡ true → height i ≡ 5
unfolding height terminal_incident
height-terminal i h = ground arith

-- From any incident state at most five transitions follow.
pub IncidentWalk-bounded : {i j : IncidentState} {n : ℕ} → IncidentWalk i j n → n ≤ 5
IncidentWalk-bounded {i} {j} w = omega (arith, height_mono w, height-le-five j)

-- No transition leaves a terminal incident state.
pub terminal_incident_final :
    {i j : IncidentState} {n : ℕ} → terminal_incident i ≡ true → IncidentWalk i j n → n ≡ 0
terminal_incident_final {i} {j} t w =
    omega (arith, height_mono w, height-le-five j, height-terminal i t)
