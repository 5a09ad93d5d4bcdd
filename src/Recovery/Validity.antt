-- ===== src/Recovery/Validity.antt =====
-- Updates of internal/recovery/journal.go keep a record valid for validateRecord.
use pulse_agent.Prelude.{
  String, ◌≡◌, refl, subst, inl, inr, Bool, true, false, not, ◌&&◌, some, eqb, ◌==◌, if◌then◌else◌,
  Bool-cases, arith,
}
use pulse_agent.Prelude.Result.{ok}
use pulse_agent.Contract.{
  Time, RecoveryCommandState, recovery_approved, recovery_executing, recovery_stabilizing,
  recovery_denied, recovery_expired, eq_recovery_command_state, command_validate,
  valid_recovery_state,
}
use pulse_agent.Recovery.Types.{
  Phase, phase_approved, phase_executing, phase_stabilizing, phase_completed,
  phase_verify_and_notify, DockerSnapshot, empty_snapshot, JournalRecord,
}
use pulse_agent.Recovery.Record.{
  valid_record_phase, is_empty_snapshot, valid_reconciliation, valid_for_phase, valid_command,
  valid_target, valid_action, validate_record, is_reconcilable_phase,
}
use pulse_agent.Recovery.Transitions.{eq_phase, set_state, reconciled, to_verify_and_notify}
use pulse_agent.Recovery.Phases.{
  Update, deny, expire, approve, start_execution, finish_execution, complete_stabilization,
  mark_verify_and_notify, apply_update, updates_open,
}

set_state-valid_command :
    (r : JournalRecord) (s : RecoveryCommandState) (p : Phase)
    → valid_recovery_state s ≡ true
    → valid_command r ≡ true
    → valid_command (set_state r s p) ≡ true
unfolding valid_command command_validate
set_state-valid_command r s p v h = ground arith

-- What a caller of markVerifyAndNotify provides: a set clock, and a snapshot only when verified.
abbrev pub IsWellFormed : Update → Type 0
IsWellFormed (mark_verify_and_notify snapshot verified now) =
    (eqb now 0 ≡ false) × (verified ≡ false → is_empty_snapshot snapshot ≡ true)
IsWellFormed _ = Unit {0}

-- The four tests of validateRecord.
record Valid (r : JournalRecord) : Type 0 where
  command : valid_command r ≡ true
  target : valid_target r ≡ true
  action : valid_action r.action r.target.selector ≡ true
  phase : valid_record_phase r.phase r.command.state ≡ true
  reconciled : valid_for_phase r.phase r.reconciliation r.command.target_id ≡ true

Valid-validate : (r : JournalRecord) → validate_record r ≡ ok tt → Valid r
unfolding validate_record
Valid-validate r h = ground arith

validate_of : (r : JournalRecord) → Valid r → validate_record r ≡ ok tt
unfolding validate_record
validate_of r v = ground arith

-- Moving to a state and a phase that fit keeps a record valid, unless it was reconciled.
set_state-Valid :
    (r : JournalRecord) (s : RecoveryCommandState) (p : Phase)
    → valid_recovery_state s ≡ true
    → valid_record_phase p s ≡ true
    → eq_phase p phase_verify_and_notify ≡ false
    → eq_phase r.phase phase_verify_and_notify ≡ false
    → Valid r
    → Valid (set_state r s p)
unfolding valid_target valid_for_phase
set_state-Valid r s p vs vp np nr v = record {
  command = set_state-valid_command r s p vs v.command;
  target = v.target;
  action = v.action;
  phase = vp;
  reconciled = ground (arith, v.reconciled);
}

-- What a successful update other than a reconciliation did.
record Moved (r r' : JournalRecord) : Type 0 where
  to_state : RecoveryCommandState
  to_phase : Phase
  result : set_state r to_state to_phase ≡ r'
  state_known : valid_recovery_state to_state ≡ true
  fits : valid_record_phase to_phase to_state ≡ true
  not_reconciled : eq_phase to_phase phase_verify_and_notify ≡ false
  was_not_reconciled : eq_phase r.phase phase_verify_and_notify ≡ false

moved :
    (r r' : JournalRecord) (s : RecoveryCommandState) (p : Phase)
    → set_state r s p ≡ r'
    → (valid_recovery_state s ≡ true)
      × (valid_record_phase p s ≡ true)
      × (eq_phase p phase_verify_and_notify ≡ false)
      × (eq_phase r.phase phase_verify_and_notify ≡ false)
    → Moved r r'
moved r r' s p e (a, b, c, d) = record {
  to_state = s;
  to_phase = p;
  result = e;
  state_known = a;
  fits = b;
  not_reconciled = c;
  was_not_reconciled = d;
}

Moved-valid :
    (r r' : JournalRecord) → Moved r r' → validate_record r ≡ ok tt → validate_record r' ≡ ok tt
Moved-valid r r' m v =
    subst (λ x. validate_record x ≡ ok tt) m.result
      (validate_of (set_state r m.to_state m.to_phase) (
        set_state-Valid r m.to_state m.to_phase m.state_known m.fits m.not_reconciled
          m.was_not_reconciled (Valid-validate r v)))

to_completed-valid :
    (next : RecoveryCommandState) (r r' : JournalRecord)
    → validate_record r ≡ ok tt
    → apply_update (complete_stabilization next) r ≡ ok r'
    → validate_record r' ≡ ok tt
unfolding updates_open
to_completed-valid next r r' v h =
    elim (Bool-cases
      (eq_phase r.phase phase_completed && eq_recovery_command_state r.command.state next)) [
        | inl done ↦ subst (λ x. validate_record x ≡ ok tt) (ground arith) v
        | inr open_record ↦
            Moved-valid r r'
              (moved r r' next phase_completed (ground arith)
                (unfold valid_recovery_state valid_record_phase in ground arith))
              v
      ]

kept_snapshot-valid :
    (snapshot : DockerSnapshot) (verified same : Bool) (now : Time) (target_id : String)
    → (snapshot.target_id == target_id) ≡ same
    → eqb now 0 ≡ false
    → (verified ≡ false → is_empty_snapshot snapshot ≡ true)
    → valid_reconciliation
        (some (record {
          observed_at = now;
          verified = verified && not (verified && not same);
          snapshot = if verified && not same then empty_snapshot else snapshot;
        }))
        target_id
      ≡ true
unfolding valid_reconciliation is_empty_snapshot
kept_snapshot-valid snapshot true true now target_id e z w = ground arith
kept_snapshot-valid snapshot true false now target_id e z w = ground arith
kept_snapshot-valid snapshot false same now target_id e z w = ground (arith, w refl)

reconciled-Valid :
    (snapshot : DockerSnapshot) (verified : Bool) (now : Time) (r : JournalRecord)
    → IsWellFormed (mark_verify_and_notify snapshot verified now)
    → is_reconcilable_phase r.phase ≡ true
    → Valid r
    → Valid (reconciled snapshot verified now r)
unfolding valid_command valid_target valid_record_phase is_reconcilable_phase valid_for_phase
reconciled-Valid snapshot verified now r w p v = record {
  command = v.command;
  target = v.target;
  action = v.action;
  phase = ground (arith, v.phase);
  reconciled =
      kept_snapshot-valid snapshot verified (snapshot.target_id == r.command.target_id) now
        r.command.target_id refl w.0 w.1;
}

to_verify_and_notify-valid :
    (snapshot : DockerSnapshot) (verified : Bool) (now : Time) (r r' : JournalRecord)
    → IsWellFormed (mark_verify_and_notify snapshot verified now)
    → validate_record r ≡ ok tt
    → to_verify_and_notify snapshot verified now r ≡ ok r'
    → validate_record r' ≡ ok tt
unfolding to_verify_and_notify
to_verify_and_notify-valid snapshot verified now r r' w v h =
    subst (λ x. validate_record x ≡ ok tt) (ground arith)
      (validate_of (reconciled snapshot verified now r)
        (reconciled-Valid snapshot verified now r w (ground arith) (Valid-validate r v)))

-- A successful update of a valid record gives a valid record. Of markVerifyAndNotify this is said
-- only for a call with a clock time that is set and with the empty snapshot where nothing was
-- verified.
pub apply_update-valid :
    (u : Update) (r r' : JournalRecord)
    → IsWellFormed u
    → validate_record r ≡ ok tt
    → apply_update u r ≡ ok r'
    → validate_record r' ≡ ok tt
unfolding updates_open valid_recovery_state valid_record_phase
apply_update-valid deny r r' w v h =
    Moved-valid r r' (moved r r' recovery_denied phase_completed (ground arith) (ground arith)) v
apply_update-valid expire r r' w v h =
    Moved-valid r r' (moved r r' recovery_expired phase_completed (ground arith) (ground arith)) v
apply_update-valid approve r r' w v h =
    Moved-valid r r' (moved r r' recovery_approved phase_approved (ground arith) (ground arith)) v
apply_update-valid start_execution r r' w v h =
    Moved-valid r r' (moved r r' recovery_executing phase_executing (ground arith) (ground arith)) v
apply_update-valid (finish_execution next) r r' w v h =
    Moved-valid r r'
      (moved r r' next
        (if eq_recovery_command_state next recovery_stabilizing
          then phase_stabilizing
          else phase_completed)
        (ground arith) (ground arith))
      v
apply_update-valid (complete_stabilization next) r r' w v h = to_completed-valid next r r' v h
apply_update-valid (mark_verify_and_notify snapshot verified now) r r' w v h =
    to_verify_and_notify-valid snapshot verified now r r' w v h
