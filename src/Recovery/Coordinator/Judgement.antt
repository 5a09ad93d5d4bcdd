-- ===== src/Recovery/Coordinator/Judgement.antt =====
-- What one revalidation of internal/recovery/coordinator.go establishes, and the steps of execute that
-- leave the adapter alone.

use pulse_agent.Prelude.{
  String, ◌≡◌, refl, inl, inr, true, List, ◌∷◌, Option, some, ltb, Bool-cases, arith,
}
use pulse_agent.Prelude.Result.{Error, Result, ok, err, Result-cases}
use pulse_agent.Contract.{Time}
use pulse_agent.Policy.{Decision, verdict_allow}
use pulse_agent.Store.{Bolt}
use pulse_agent.Recovery.Types.{JournalRecord, Codec, phase_executing}
use pulse_agent.Recovery.Keys.{record_key}
use pulse_agent.Recovery.Transitions.{to_executing}
use pulse_agent.Recovery.Journal
use pulse_agent.Recovery.Coordinator.Deps.{
  recovery_started, ExecutionState, Deps, World, AdapterCall, judged,
}
use pulse_agent.Recovery.Coordinator.Check.{revalidate_state}
use pulse_agent.Recovery.Coordinator.Execute.{
  checked_time, judge, now, judge_loaded, revalidate, deny_after_revalidation, expire_command,
  after_adapter,
}

module _ (bolt : Bolt) (sha256_hex : String → String) (codec : Codec JournalRecord)
    (deps : Deps) where
  open deps use {Outside, clock_now, load, validate_action, publish}

  -- The outside state after a revalidation that loads a state and reads the clock.
  abbrev pub asked : JournalRecord → Outside → Outside
  asked r o = (clock_now (load r.command o).1).1

  -- The outside state after ValidateAction, which follows the first revalidation.
  abbrev pub checked : JournalRecord → Outside → Outside
  checked r o = (validate_action r.target r.action (asked r o)).1

  -- A revalidation in an outside state: the state source gives a state, the clock is read next, it
  -- reads a time before the command expires, and the decision is taken on that state at that time.
  pub record Judged (r : JournalRecord) (o : Outside) (decision : Decision) : Type 0 where
    pub state : ExecutionState
    pub at : Time
    pub loaded : (load r.command o).0 ≡ ok state
    pub read : checked_time (clock_now (load r.command o).1).0 ≡ ok at
    pub in_time : ltb at r.command.expires_at ≡ true
    pub decided : revalidate_state state r at ≡ decision

  -- The first revalidation allows the command, and the adapter accepts the action.
  pub record Checked (r : JournalRecord) (o : Outside) : Type 0 where
    pub first : Decision
    pub first_taken : Judged r o first
    pub first_allowed : first.verdict ≡ verdict_allow
    pub validated : (validate_action r.target r.action (asked r o)).0 ≡ ok tt

  -- The second revalidation, after that, allows it too, and its start is published.
  pub record Cleared (r : JournalRecord) (o : Outside) : Type 0 where
    pub accepted : Checked r o
    pub decision : Decision
    pub taken : Judged r (checked r o) decision
    pub allowed : decision.verdict ≡ verdict_allow
    pub announced : (publish (recovery_started r.command) (asked r (checked r o))).0 ≡ ok tt

  -- The calls are the earlier ones and one more, made for a record that is cleared from an outside
  -- state on, when the store held it, claimed, under the key of its command.
  pub record Called (r : JournalRecord) (o : Outside) (earlier calls : List (AdapterCall bolt))
      : Type 0 where
    pub call : AdapterCall bolt
    pub added : calls ≡ call ∷ earlier
    pub cleared : Cleared r o
    pub executing : JournalRecord
    pub stored :
        Journal.load_record bolt sha256_hex codec call.store (record_key sha256_hex r.command)
        ≡ ok (some executing)
    pub claimed : executing.phase ≡ phase_executing
    pub target : call.target ≡ executing.target
    pub action : call.action ≡ executing.action

  judge-Judged :
      (r : JournalRecord) (state : ExecutionState) (o : Outside) (time : Result Time)
      (decision : Decision) (t : Time)
      → (load r.command o).0 ≡ ok state
      → checked_time (clock_now (load r.command o).1).0 ≡ time
      → judge state r time ≡ judged decision t
      → Judged r o decision
  unfolding judge
  judge-Judged r state o (err e) decision t loaded read h = absurd (ground arith)
  judge-Judged r state o (ok at) decision t loaded read h =
      elim (Bool-cases (ltb at r.command.expires_at)) [
        | inr late ↦ absurd (ground arith)
        | inl early ↦ record {
          state = state;
          at = at;
          loaded = loaded;
          read = read;
          in_time = early;
          decided = ground arith;
        }
      ]

  judge_loaded-Judged :
      (r : JournalRecord) (answer : Result ExecutionState) (w : World bolt deps)
      (decision : Decision) (t : Time)
      → (load r.command w.outside).0 ≡ answer
      → (judge_loaded bolt sha256_hex codec deps r answer
          (record w { outside = (load r.command w.outside).1 })).0
        ≡ judged decision t
      → Judged r w.outside decision
        × ((judge_loaded bolt sha256_hex codec deps r answer
              (record w { outside = (load r.command w.outside).1 })).1.outside
            ≡ asked r w.outside)
  unfolding judge_loaded now
  judge_loaded-Judged r (err e) w decision t loaded h = absurd (ground arith)
  judge_loaded-Judged r (ok state) w decision t loaded h =
      (judge-Judged r state w.outside _ decision t loaded refl h, refl)

  -- A revalidation that ends in a decision.
  pub revalidate-Judged :
      (r : JournalRecord) (w : World bolt deps) (decision : Decision) (t : Time)
      → (revalidate bolt sha256_hex codec deps r w).0 ≡ judged decision t
      → Judged r w.outside decision
        × ((revalidate bolt sha256_hex codec deps r w).1.outside ≡ asked r w.outside)
  unfolding revalidate
  revalidate-Judged r w decision t h =
      judge_loaded-Judged r (load r.command w.outside).0 w decision t refl h

  pub revalidate-calls :
      (r : JournalRecord) (w : World bolt deps)
      → (revalidate bolt sha256_hex codec deps r w).1.calls ≡ w.calls
  revalidate-calls r w = elim (Result-cases (load r.command w.outside).0) [
    | inr (e, failed) ↦ unfold revalidate judge_loaded now in rw failed refl
    | inl (state, loaded) ↦ unfold revalidate judge_loaded now in rw loaded refl
  ]

  pub deny-calls :
      (r : JournalRecord) (decision : Option Decision) (cause : Option Error) (w : World bolt deps)
      → (deny_after_revalidation bolt sha256_hex codec deps r decision cause w).1.calls ≡ w.calls
  deny-calls r decision cause w = unfold deny_after_revalidation in refl

  pub expire-calls :
      (r : JournalRecord) (w : World bolt deps)
      → (expire_command bolt sha256_hex codec deps r w).1.calls ≡ w.calls
  expire-calls r w = unfold expire_command in refl

  pub after_adapter-calls :
      (r : JournalRecord) (decision : Decision) (t : Time) (answer : Result (Unit {0}))
      (w : World bolt deps)
      → (after_adapter bolt sha256_hex codec deps r decision t answer w).1.calls ≡ w.calls
  after_adapter-calls r decision t (err e) w = unfold after_adapter in refl
  after_adapter-calls r decision t (ok _) w = unfold after_adapter in refl

  pub to_executing-claims :
      (r r' : JournalRecord) → to_executing r ≡ ok r' → r'.phase ≡ phase_executing
  unfolding to_executing
  to_executing-claims r r' h = ground arith
