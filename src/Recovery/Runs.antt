-- ===== src/Recovery/Runs.antt =====
-- Any number of updates of internal/recovery/journal.go, one after another, on one record.
use pulse_agent.Prelude.{
  ℕ, ◌+◌, ◌≤◌, ◌≡◌, refl, ◌⊎◌, Bool, true, false, List, [], ◌∷◌, ◌==◌, if◌then◌else◌, arith,
}
use pulse_agent.Prelude.Result.{Result, ok, err}
use pulse_agent.Recovery.Types.{
  Phase, phase_pending, phase_awaiting_approval, phase_approved, phase_completed, JournalRecord,
}
use pulse_agent.Recovery.Phases.{
  Update, deny, expire, approve, start_execution, finish_execution, complete_stabilization,
  mark_verify_and_notify, apply_update, updates_open,
}

-- An update that fails leaves the record as it was: its transaction is rolled back.
unfoldable pub after : Result JournalRecord → JournalRecord → JournalRecord
after (ok r') r = r'
after (err e) r = r

unfoldable pub is_start : Update → Bool
is_start start_execution = true
is_start _ = false

-- 1 where startExecution succeeds, which the coordinator does before it calls Adapter.Execute.
abbrev started : Update → Result JournalRecord → ℕ
started u (ok r') = if is_start u then 1 else 0
started u (err e) = 0

unfoldable pub run_updates : List Update → JournalRecord → JournalRecord
unfolding after
run_updates [] r = r
run_updates (u ∷ us) r = run_updates us (after (apply_update u r) r)

-- How many calls of startExecution succeed in a run.
unfoldable pub count_starts : List Update → JournalRecord → ℕ
unfolding after is_start
count_starts [] r = 0
count_starts (u ∷ us) r =
    started u (apply_update u r) + count_starts us (after (apply_update u r) r)

-- How many executions a phase still leaves room for.
room : Phase → ℕ
room phase_pending = 1
room phase_awaiting_approval = 1
room phase_approved = 1
room _ = 0

room_step :
    (u : Update) (r : JournalRecord)
    → started u (apply_update u r) + room (after (apply_update u r) r).phase ≤ room r.phase
unfolding updates_open after is_start room
room_step deny r = ground arith
room_step expire r = ground arith
room_step approve r = ground arith
room_step start_execution r = ground arith
room_step (finish_execution next) r = ground arith
room_step (complete_stabilization next) r = ground arith
room_step (mark_verify_and_notify snapshot verified now) r = ground arith

count_starts-le-room : (us : List Update) (r : JournalRecord) → count_starts us r ≤ room r.phase
unfolding count_starts after
count_starts-le-room [] r = omega arith
count_starts-le-room (u ∷ us) r =
    omega (arith, room_step u r, count_starts-le-room us (after (apply_update u r) r))

room-le-one : (p : Phase) → room p ≤ 1
unfolding room
room-le-one p = ground arith

-- Whatever updates are tried on a record, in whatever order, at most one of them starts the
-- execution of its command.
pub executes_at_most_once : (us : List Update) (r : JournalRecord) → count_starts us r ≤ 1
executes_at_most_once us r = omega (arith, count_starts-le-room us r, room-le-one r.phase)

-- A record that waits for an approval it does not have, or that was settled without one.
abbrev pub Unapproved : JournalRecord → Type 0
Unapproved r =
    ((r.command.approval_id == "") ≡ true)
    × ((r.phase ≡ phase_awaiting_approval) ⊎ (r.phase ≡ phase_completed))

Unapproved-step :
    (u : Update) (r : JournalRecord) → Unapproved r → Unapproved (after (apply_update u r) r)
unfolding updates_open after
Unapproved-step deny r h = ground arith
Unapproved-step expire r h = ground arith
Unapproved-step approve r h = ground arith
Unapproved-step start_execution r h = ground arith
Unapproved-step (finish_execution next) r h = ground arith
Unapproved-step (complete_stabilization next) r h = ground arith
Unapproved-step (mark_verify_and_notify snapshot verified now) r h = ground arith

Unapproved-start :
    (u : Update) (r : JournalRecord) → Unapproved r → started u (apply_update u r) ≡ 0
unfolding updates_open is_start
Unapproved-start deny r h = ground arith
Unapproved-start expire r h = ground arith
Unapproved-start approve r h = ground arith
Unapproved-start start_execution r h = ground arith
Unapproved-start (finish_execution next) r h = ground arith
Unapproved-start (complete_stabilization next) r h = ground arith
Unapproved-start (mark_verify_and_notify snapshot verified now) r h = ground arith

-- A command that awaits an approval and has none recorded is never executed by any run of updates:
-- its record still waits or is completed, and no execution starts.
pub Unapproved-never_executes :
    (us : List Update) (r : JournalRecord)
    → Unapproved r
    → Unapproved (run_updates us r) × (count_starts us r ≡ 0)
unfolding run_updates count_starts after
Unapproved-never_executes [] r h = (h, refl)
Unapproved-never_executes (u ∷ us) r h =
    let (last, none_later) =
      Unapproved-never_executes us (after (apply_update u r) r) (Unapproved-step u r h) in
    (last, omega (arith, none_later, Unapproved-start u r h))
