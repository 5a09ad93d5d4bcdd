-- ===== src/Recovery/Coordinator/Deps.antt =====
-- The coordinator's dependencies, state and results (internal/recovery/coordinator.go). The Docker
-- adapter, the state source, the clock, the ID generator and the publisher answer from, and change,
-- a state of their own.
use pulse_agent.Prelude.{String, Bool, List, Option, none, some}
use pulse_agent.Prelude.Result.{Error, Result}
use pulse_agent.Contract.{Time, RecoveryCommand, ServiceTarget, TypedAction}
use pulse_agent.Policy.{Input, Snapshot, Decision, ReasonCode}
use pulse_agent.Store.{Bolt}
use pulse_agent.Recovery.Types.{DockerSnapshot}

pub record ExecutionState : Type 0 where
  pub target : ServiceTarget
  pub policy_snapshot : Snapshot
  pub policy_input : Input

-- The four methods of LifecyclePublisher, with what they are given.
pub data Notice : Type 0 where
  analysis_unavailable : String → String → Notice
  policy_denied : String → String → ReasonCode → Notice
  approval_requested : RecoveryCommand → Notice
  recovery_started : RecoveryCommand → Notice

-- A nil publisher is one whose `publish` always returns nil.
pub record Deps : Type 1 where
  pub Outside : Type 0
  pub clock_now : Outside → Time × Outside
  pub new_command_id : Outside → Result String × Outside
  pub load : RecoveryCommand → Outside → Result ExecutionState × Outside
  pub validate_action : ServiceTarget → TypedAction → Outside → Result (Unit {0}) × Outside
  pub execute_action : ServiceTarget → TypedAction → Outside → Result (Unit {0}) × Outside
  pub verify : ServiceTarget → Outside → Result DockerSnapshot × Outside
  pub publish : Notice → Outside → Result (Unit {0}) × Outside

-- One call of Adapter.Execute, with the store as it stood when the call was made.
pub record AdapterCall (bolt : Bolt) : Type 0 where
  pub target : ServiceTarget
  pub action : TypedAction
  pub store : bolt.Tx

-- The store, the dependencies' state, and the calls of Adapter.Execute so far, the last one first.
pub record World (bolt : Bolt) (deps : Deps) : Type 0 where
  pub db : bolt.Tx
  pub outside : deps.Outside
  pub calls : List (AdapterCall bolt)

pub data Outcome : Type 0 where
  outcome_executed outcome_stabilizing outcome_denied outcome_expired : Outcome
  outcome_await_approval outcome_duplicate outcome_verify_and_notify : Outcome

-- Result; an absent command or decision is Go's zero value.
pub record SubmitResult : Type 0 where
  pub command : Option RecoveryCommand
  pub outcome : Option Outcome
  pub decision : Option Decision
  pub duplicate : Bool

-- The pair (Result, error); an absent result is the zero Result.
pub record Reply : Type 0 where
  pub result : Option SubmitResult
  pub error : Option Error

abbrev pub failed : Error → Reply
failed e = record { result = none; error = some e }

abbrev pub reply : SubmitResult → Reply
reply r = record { result = some r; error = none }

-- What is submitted: the incident, the initial authorization context and the idempotency key.
pub record Request : Type 0 where
  pub incident_id : String
  pub target : ServiceTarget
  pub policy_snapshot : Snapshot
  pub policy_input : Input
  pub expires_at : Time
  pub idempotency_key : String

-- revalidate's results: an error with the decision returned beside it, an expired command, or a
-- decision and the time at which it was taken.
pub data Revalidation : Type 0 where
  refused : Option Decision → Error → Revalidation
  lapsed : Revalidation
  judged : Decision → Time → Revalidation

-- Actions on a world.
module _ (bolt : Bolt) (deps : Deps) where
  abbrev pub M {ℓ} : Type ℓ → Type ℓ
  M A = World bolt deps → A × World bolt deps

infixl 5 ◌>>=◌
abbrev pub ◌>>=◌ {ℓ κ} :
    {W : Type 0} {A : Type ℓ} {B : Type κ} → (W → A × W) → (A → W → B × W) → W → B × W
◌>>=◌ m f w = let (a, w') = m w in f a w'

abbrev pub pure {ℓ} : {W : Type 0} {A : Type ℓ} → A → W → A × W
pure a w = (a, w)

module _ (bolt : Bolt) (deps : Deps) where
  open deps use {Outside}

  -- A call of a dependency.
  abbrev pub ask {ℓ} : {A : Type ℓ} → (Outside → A × Outside) → M bolt deps A
  ask f w = let (a, o) = f w.outside in (a, record w { outside = o })

  -- A transaction of the store.
  abbrev pub transact {ℓ} : {A : Type ℓ} → (bolt.Tx → A × bolt.Tx) → M bolt deps A
  transact f w = let (a, t) = f w.db in (a, record w { db = t })
