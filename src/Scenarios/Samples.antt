-- ===== src/Scenarios/Samples.antt =====
-- One incident's command, its runbook and target, the documents of its record in each phase, and
-- dependencies that answer without an error.
use Prim.Native.String.{len}
use pulse_agent.Prelude.{
  ◌≤◌, String, ◌≡◌, refl, sym, ap, Bool, true, false, [], ◌∷◌, Option, none, some, ◌==◌,
  if◌then◌else◌, arith,
}
use native.Mathlib.Decide.{ℕ_discrete}
use pulse_agent.Prelude.Int.{pos}
use pulse_agent.Prelude.Result.{Result, ok, err, invalid_contract, invalid_request}
use pulse_agent.Contract.{
  ServiceTarget, TypedAction, action_docker_container_restart, Runbook, risk_low,
  RecoveryCommandState, recovery_pending, recovery_approved, recovery_executing,
  recovery_stabilizing, recovery_succeeded, notification_other,
}
use pulse_agent.Policy.{Snapshot, Input}
use pulse_agent.Recovery.Types.{
  Phase, phase_pending, phase_awaiting_approval, phase_approved, phase_executing, phase_stabilizing,
  phase_completed, phase_verify_and_notify, phase_other, empty_snapshot, Reconciliation,
  JournalRecord, Codec,
}
use pulse_agent.Recovery.Keys.{record_key, idempotency_index_key}
use pulse_agent.Recovery.Coordinator.Deps.{Deps, World, Request}
use pulse_agent.Store.{bucket_command_journal}
use pulse_agent.Scenarios.Memory.{memory, Pairs, String-discrete}

abbrev pub sample_target : ServiceTarget
sample_target = record {
  schema_version = "v1";
  target_id = "api";
  adapter_type = "docker";
  selector = "api-container";
  probe_rules = [];
  evidence_policy = record { redaction_profile = "default"; max_bytes = pos 4096 };
  stabilization_policy = record { recovery_samples = pos 3; window = pos 60 };
  enabled = true;
}

abbrev pub sample_action : TypedAction
sample_action = record {
  action_type = action_docker_container_restart;
  target_selector = "api-container";
  stop_timeout = pos 10;
  cooldown = pos 0;
}

abbrev pub sample_runbook : Bool → Runbook
sample_runbook approval_needed = record {
  schema_version = "v1";
  runbook_id = "restart-api";
  version = "1";
  digest = "digest";
  adapter_type = "docker";
  target_constraints = [];
  typed_actions = sample_action ∷ [];
  risk_tier = risk_low;
  auto_execute = true;
  approval_policy = record { required = approval_needed };
  preconditions = [];
  retry_policy = record { max_attempts = pos 2 };
  stabilization_policy = record { recovery_samples = pos 3; window = pos 60 };
}

abbrev pub sample_policy : Bool → Snapshot
sample_policy approval_needed = record {
  runbooks =
      (record {
        runbook = sample_runbook approval_needed;
        target_id = "api";
        analysis_required = false;
      })
      ∷ [];
  authorized_approvers = "uid:1000" ∷ [];
}

abbrev pub sample_input : Input
sample_input = record {
  runbook_id = "restart-api";
  runbook_digest = "digest";
  target_id = "api";
  action_index = pos 0;
  command_id = "";
  analysis_available = true;
  analysis_candidate_ids = [];
  analysis_confidence = [];
  notification_suggestion = notification_other "";
  preconditions = [];
  last_attempt_at = 0;
  now = 0;
  attempt_count = pos 0;
  approval = none;
  approval_revoked = false;
}

abbrev pub sample_state : Phase → RecoveryCommandState
sample_state phase_approved = recovery_approved
sample_state phase_executing = recovery_executing
sample_state phase_stabilizing = recovery_stabilizing
sample_state phase_completed = recovery_succeeded
sample_state _ = recovery_pending

abbrev pub sample_reconciliation : Phase → Option Reconciliation
sample_reconciliation phase_verify_and_notify =
    some (record { observed_at = 1000; verified = false; snapshot = empty_snapshot })
sample_reconciliation _ = none

abbrev pub sample : Phase → JournalRecord
sample phase = record {
  schema_version = "v1";
  command = record {
    schema_version = "v1";
    command_id = "command-1";
    incident_id = "incident-1";
    runbook_id = "restart-api";
    runbook_digest = "digest";
    target_id = "api";
    action_index = pos 0;
    risk_tier = risk_low;
    approval_id = "";
    issued_at = 1500;
    expires_at = 2000;
    idempotency_key = "request-1";
    state = sample_state phase;
  };
  target = sample_target;
  action = sample_action;
  phase = phase;
  reconciliation = sample_reconciliation phase;
}

-- None where a record in that phase has no document.
abbrev pub phase_text : Phase → Option String
phase_text phase_pending = some "pending"
phase_text phase_awaiting_approval = some "awaiting_approval"
phase_text phase_approved = some "approved"
phase_text phase_executing = some "executing"
phase_text phase_stabilizing = some "stabilizing"
phase_text phase_completed = some "completed"
phase_text phase_verify_and_notify = some "verify_and_notify"
phase_text (phase_other s) = none

some-inj : {a b : String} → ◌≡◌ {A = Option String} (some a) (some b) → a ≡ b
some-inj h = cc h

abbrev pub some_text : Option String → String
some_text none = ""
some_text (some s) = s

unfoldable pub JournalRecord-discrete : Discrete JournalRecord
JournalRecord-discrete = hlevel (String-discrete, ℕ_discrete)

abbrev pub phase_of_text : String → Phase
phase_of_text s =
    if s == "pending"
    then phase_pending
    else if s == "awaiting_approval"
    then phase_awaiting_approval
    else if s == "approved"
    then phase_approved
    else if s == "executing"
    then phase_executing
    else if s == "stabilizing"
    then phase_stabilizing
    else if s == "completed"
    then phase_completed
    else phase_verify_and_notify

abbrev pub marshal_if {ℓ} : {A : Type ℓ} → Dec A → Option String → Result String
marshal_if (yes e) (some text) = ok text
marshal_if _ _ = err invalid_contract

unfoldable pub marshal_sample : JournalRecord → Result String
marshal_sample r = marshal_if (JournalRecord-discrete r (sample r.phase)) (phase_text r.phase)

unfoldable pub decode_sample : String → Option JournalRecord
decode_sample d = some (sample (phase_of_text d))

phase_of_text-phase_text : (p : Phase) (d : String) → phase_text p ≡ some d → phase_of_text d ≡ p
phase_of_text-phase_text phase_pending d h = rw (← some-inj h) refl
phase_of_text-phase_text phase_awaiting_approval d h = rw (← some-inj h) refl
phase_of_text-phase_text phase_approved d h = rw (← some-inj h) refl
phase_of_text-phase_text phase_executing d h = rw (← some-inj h) refl
phase_of_text-phase_text phase_stabilizing d h = rw (← some-inj h) refl
phase_of_text-phase_text phase_completed d h = rw (← some-inj h) refl
phase_of_text-phase_text phase_verify_and_notify d h = rw (← some-inj h) refl
phase_of_text-phase_text (phase_other s) d h = absurd (cc h)

marshal_if-ok {ℓ} :
    {A : Type ℓ} (t : Dec A) (o : Option String) (d : String)
    → marshal_if t o ≡ ok d
    → A × (o ≡ some d)
marshal_if-ok (yes e) (some text) d h = (e, cc h)
marshal_if-ok (yes e) none d h = absurd (cc h)
marshal_if-ok (no n) (some text) d h = absurd (cc h)
marshal_if-ok (no n) none d h = absurd (cc h)

pub decode-marshal_sample :
    (r : JournalRecord) (d : String)
    → marshal_sample r ≡ ok d
    → len d ≤ 65536
    → decode_sample d ≡ some r
unfolding marshal_sample decode_sample
decode-marshal_sample r d h fits =
    let (same, text) =
      marshal_if-ok (JournalRecord-discrete r (sample r.phase)) (phase_text r.phase) d h in
    rw (phase_of_text-phase_text r.phase d text) (ap some (sym same))

phase_text-len : (p : Phase) (d : String) → phase_text p ≡ some d → len d ≤ 65536
phase_text-len phase_pending d h = rw (← some-inj h) (omega arith)
phase_text-len phase_awaiting_approval d h = rw (← some-inj h) (omega arith)
phase_text-len phase_approved d h = rw (← some-inj h) (omega arith)
phase_text-len phase_executing d h = rw (← some-inj h) (omega arith)
phase_text-len phase_stabilizing d h = rw (← some-inj h) (omega arith)
phase_text-len phase_completed d h = rw (← some-inj h) (omega arith)
phase_text-len phase_verify_and_notify d h = rw (← some-inj h) (omega arith)
phase_text-len (phase_other s) d h = absurd (cc h)

pub marshal_sample-len : (r : JournalRecord) (d : String) → marshal_sample r ≡ ok d → len d ≤ 65536
unfolding marshal_sample
marshal_sample-len r d h =
    phase_text-len r.phase d
      (marshal_if-ok (JournalRecord-discrete r (sample r.phase)) (phase_text r.phase) d h).1

abbrev pub sample_codec : Codec JournalRecord
sample_codec = record {
  limit = 65536;
  marshal = marshal_sample;
  decode = decode_sample;
  decode-marshal = decode-marshal_sample;
}

-- Stands for SHA-256 in hexadecimal.
abbrev pub no_hash : String → String
no_hash s = s

-- A store that holds the record in one phase, with its index entry.
abbrev pub stored_in : Phase → Pairs
stored_in phase =
    let r = sample phase in
    (bucket_command_journal, record_key no_hash r.command, some_text (phase_text phase))
    ∷ (
      bucket_command_journal,
      idempotency_index_key no_hash r.command.idempotency_key,
      record_key no_hash r.command,
    )
    ∷ []

-- The clock reads 1500, nothing fails, and the state source gives the sample's policy.
abbrev pub sample_deps : Deps
sample_deps = record {
  Outside = Unit {0};
  clock_now = λ o. (1500, o);
  new_command_id = λ o. (ok "command-1", o);
  load = λ command o. (
    ok (record {
      target = sample_target;
      policy_snapshot = sample_policy false;
      policy_input = sample_input;
    }),
    o,
  );
  validate_action = λ target action o. (ok tt, o);
  execute_action = λ target action o. (ok tt, o);
  verify = λ target o. (err invalid_request, o);
  publish = λ notice o. (ok tt, o);
}

abbrev pub sample_world : Phase → World memory sample_deps
sample_world phase = record { db = stored_in phase; outside = tt; calls = [] }

abbrev pub empty_world : World memory sample_deps
empty_world = record { db = []; outside = tt; calls = [] }

abbrev pub sample_request : Request
sample_request = record {
  incident_id = "incident-1";
  target = sample_target;
  policy_snapshot = sample_policy false;
  policy_input = sample_input;
  expires_at = 2000;
  idempotency_key = "request-1";
}
