-- ===== src/Policy/Facts.antt =====
-- The checks of a snapshot and the tests on single facts in internal/policy/policy.go.
use pulse_agent.Prelude.{
  ◌-◌, String, Bool, true, false, not, ◌&&◌, ◌||◌, List, [], ◌∷◌, Option, none, some, ltb, eqb,
  ◌==◌, any, all, min, length, if◌then◌else◌,
}
use pulse_agent.Prelude.Int.{pos, ltb_ℤ, leb_ℤ, max_int64}
use pulse_agent.Contract.{
  Time, is_zero, Duration, TypedAction, eq_action_type, action_docker_container_restart,
  action_docker_compose_service_restart, eq_risk_tier, risk_low, risk_medium, risk_high,
  schema_version_v1,
}
use pulse_agent.Policy.Types.{
  ReasonCode, reason_invalid_policy, reason_unregistered_runbook, RegisteredRunbook, Snapshot,
  Input,
}

-- A key of one of the `seen` maps of the loops below.
abbrev pub seen_before : List String → String → Bool
seen_before seen value = any (λ s. s == value) seen

-- The loop of uniqueNonEmpty over the values not yet read.
unfoldable pub unique_from : List String → List String → Bool
unique_from seen [] = true
unique_from seen (value ∷ values) =
    let rest = unique_from (value ∷ seen) values in
    if value == "" then false else if seen_before seen value then false else rest

unfoldable pub unique_non_empty : List String → Bool
unfolding unique_from
unique_non_empty values = unique_from [] values

unfoldable pub valid_action : TypedAction → Bool
valid_action action = not (
    (not (eq_action_type action.action_type action_docker_container_restart)
      && not (eq_action_type action.action_type action_docker_compose_service_restart))
    || action.target_selector == ""
    || leb_ℤ action.stop_timeout (pos 0)
    || ltb_ℤ action.cooldown (pos 0))

-- The long condition at the head of validSnapshot's loop body.
unfoldable pub valid_registration : RegisteredRunbook → Bool
valid_registration registered =
    let runbook = registered.runbook in
    not (
      registered.target_id == ""
      || not (runbook.schema_version == schema_version_v1)
      || runbook.runbook_id == ""
      || runbook.digest == ""
      || eqb (length runbook.typed_actions) 0
      || ltb_ℤ runbook.retry_policy.max_attempts (pos 1)
      || (not (eq_risk_tier runbook.risk_tier risk_low)
          && not (eq_risk_tier runbook.risk_tier risk_medium)
          && not (eq_risk_tier runbook.risk_tier risk_high)))

unfoldable pub valid_runbooks_from : List String → List RegisteredRunbook → Bool
unfolding valid_registration valid_action
valid_runbooks_from seen [] = true
valid_runbooks_from seen (registered ∷ rest) =
    let later = valid_runbooks_from (registered.runbook.runbook_id ∷ seen) rest in
    if not (valid_registration registered)
    then false
    else if not (all valid_action registered.runbook.typed_actions)
    then false
    else if seen_before seen registered.runbook.runbook_id
    then false
    else later

unfoldable pub valid_snapshot : Snapshot → Bool
unfolding valid_runbooks_from unique_non_empty
valid_snapshot snapshot =
    if eqb (length snapshot.runbooks) 0
    then false
    else if not (valid_runbooks_from [] snapshot.runbooks)
    then false
    else unique_non_empty snapshot.authorized_approvers

-- The first registration of a runbook: the loop at the end of registeredRunbook.
unfoldable pub find_runbook : List RegisteredRunbook → String → Option RegisteredRunbook
find_runbook [] runbook_id = none
find_runbook (registered ∷ rest) runbook_id =
    let later = find_runbook rest runbook_id in
    if registered.runbook.runbook_id == runbook_id then some registered else later

-- registeredRunbook's pair: a registration with an empty reason, or a reason.
pub data Lookup : Type 0 where
  registration : RegisteredRunbook → Lookup
  refusal : ReasonCode → Lookup

abbrev pub found_or_refused : Option RegisteredRunbook → Lookup
found_or_refused none = refusal reason_unregistered_runbook
found_or_refused (some registered) = registration registered

unfoldable pub registered_runbook : Snapshot → Input → Lookup
registered_runbook snapshot input =
    if not (valid_snapshot snapshot)
      || input.runbook_id == ""
      || input.runbook_digest == ""
      || input.target_id == ""
      || input.command_id == ""
    then refusal reason_invalid_policy
    else found_or_refused (find_runbook snapshot.runbooks input.runbook_id)

-- observed[condition]
unfoldable pub observed_value : List (String × Bool) → String → Bool
observed_value [] condition = false
observed_value ((key, value) ∷ rest) condition =
    let later = observed_value rest condition in if key == condition then value else later

unfoldable pub preconditions_met : List String → List (String × Bool) → Bool
unfolding unique_non_empty observed_value
preconditions_met required observed =
    if not (unique_non_empty required)
    then false
    else all (λ condition. observed_value observed condition) required

-- now.Sub(previous) where now is not before previous: it stops at the largest int64.
abbrev pub sub_time : Time → Time → Duration
sub_time now previous = pos (min (now - previous) max_int64)

unfoldable pub cooldown_elapsed : Duration → Time → Time → Bool
cooldown_elapsed cooldown previous now =
    if ltb_ℤ cooldown (pos 0) || is_zero previous
    then leb_ℤ (pos 0) cooldown
    else not (is_zero now) && not (ltb now previous) && leb_ℤ cooldown (sub_time now previous)
