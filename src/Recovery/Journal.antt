-- ===== src/Recovery/Journal.antt =====
-- The journal's transactions in internal/recovery/journal.go, and findRecordByCommandID of
-- approval.go. The JSON documents go through `codec`, the keys through `sha256_hex`.
use pulse_agent.Prelude.{
  String, Bool, true, false, not, ◌&&◌, ◌||◌, List, [], ◌∷◌, ◌++◌, Option, none, some, ◌==◌,
  if◌then◌else◌,
}
use text.Mathlib.Text.{starts_with}
use pulse_agent.Prelude.Result.{
  Result, ok, err, corrupt_journal, idempotency_conflict, invalid_request, ◌>>=◌, ◌>>◌, fail_if,
  or_error, is_ok,
}
use pulse_agent.Contract.{
  Time, RecoveryCommandState, recovery_stabilizing, recovery_failed, recovery_succeeded,
  eq_recovery_command_state,
}
use pulse_agent.Store.{Bolt, bucket_command_journal, put, get, for_each, update}
use pulse_agent.Recovery.Types.{JournalRecord, Codec, DockerSnapshot}
use pulse_agent.Recovery.Keys.{record_key, idempotency_index_key, journal_record_prefix}
use pulse_agent.Recovery.Record.{validate_record, is_reconcilable_phase}
use pulse_agent.Recovery.Transitions.{
  transition_to_denied, transition_to_expired, to_approved, to_executing, to_finished, to_completed,
  to_verify_and_notify,
}

pub record StoredRecord : Type 0 where
  pub key : String
  pub stored : JournalRecord

module _ (bolt : Bolt) (sha256_hex : String → String) (codec : Codec JournalRecord) where
  open bolt use {Tx}

  unfoldable pub decode_record : String → Result JournalRecord
  decode_record document = do
    r ← or_error (codec.decode document) corrupt_journal
    fail_if (not (is_ok (validate_record r))) corrupt_journal
    ok r

  -- The record under a key, checked against the key that its command has.
  unfoldable pub checked_record : String → String → Result JournalRecord
  checked_record key document = do
    r ← decode_record document
    fail_if (not (record_key sha256_hex r.command == key)) corrupt_journal
    ok r

  unfoldable pub load_document : String → Option String → Result (Option JournalRecord)
  load_document key none = ok none
  load_document key (some document) = do r ← checked_record key document; ok (some r)

  unfoldable pub load_record : Tx → String → Result (Option JournalRecord)
  load_record tx key = do
    document ← get bolt tx bucket_command_journal key
    load_document key document

  unfoldable pub put_record : Tx → String → JournalRecord → Result Tx
  put_record tx key r = do
    fail_if (not (record_key sha256_hex r.command == key) || not (is_ok (validate_record r)))
        corrupt_journal
    document ← codec.marshal r
    put bolt tx bucket_command_journal key document

  -- persistPending where the record exists but its index entry does not: the entry is repaired.
  unfoldable pub persist_unindexed :
      Tx
      → String
      → String
      → JournalRecord
      → Option JournalRecord
      → Result ((JournalRecord × Bool) × Tx)
  persist_unindexed tx key index_key r (some existing) = do
    tx' ← put bolt tx bucket_command_journal index_key key
    ok ((existing, true), tx')
  persist_unindexed tx key index_key r none = do
    tx' ← put_record tx key r
    tx'' ← put bolt tx' bucket_command_journal index_key key
    ok ((r, false), tx'')

  -- The callback of persistPending: what was persisted, and whether it was a duplicate.
  unfoldable pub persist_indexed :
      Tx → String → String → JournalRecord → Option String → Result ((JournalRecord × Bool) × Tx)
  persist_indexed tx key index_key r (some indexed) = do
    fail_if (not (indexed == key)) idempotency_conflict
    found ← load_record tx key
    existing ← or_error found corrupt_journal
    ok ((existing, true), tx)
  persist_indexed tx key index_key r none = do
    found ← load_record tx key
    persist_unindexed tx key index_key r found

  unfoldable pub persist_pending_tx : JournalRecord → Tx → Result ((JournalRecord × Bool) × Tx)
  persist_pending_tx r tx = do
    indexed ←
        get bolt tx bucket_command_journal
          (idempotency_index_key sha256_hex r.command.idempotency_key)
    persist_indexed tx (record_key sha256_hex r.command)
        (idempotency_index_key sha256_hex r.command.idempotency_key) r indexed

  unfoldable pub persist_pending : JournalRecord → Tx → Result (JournalRecord × Bool) × Tx
  persist_pending r = update bolt (persist_pending_tx r)

  -- The callback of updateRecord.
  unfoldable pub update_record_tx :
      String → (JournalRecord → Result JournalRecord) → Tx → Result (JournalRecord × Tx)
  update_record_tx key change tx = do
    found ← load_record tx key
    r ← or_error found corrupt_journal
    r' ← change r
    tx' ← put_record tx key r'
    ok (r', tx')

  unfoldable pub update_record :
      String → (JournalRecord → Result JournalRecord) → Tx → Result JournalRecord × Tx
  update_record key change = update bolt (update_record_tx key change)

  unfoldable pub deny : String → Tx → Result JournalRecord × Tx
  deny key = update_record key transition_to_denied

  unfoldable pub expire : String → Tx → Result JournalRecord × Tx
  expire key = update_record key transition_to_expired

  unfoldable pub approve : String → Tx → Result JournalRecord × Tx
  approve key = update_record key to_approved

  unfoldable pub start_execution : String → Tx → Result JournalRecord × Tx
  start_execution key = update_record key to_executing

  unfoldable pub finish_execution : String → RecoveryCommandState → Tx → Result JournalRecord × Tx
  finish_execution key next tx =
      if not (eq_recovery_command_state next recovery_stabilizing)
        && not (eq_recovery_command_state next recovery_failed)
      then (err invalid_request, tx)
      else update_record key (to_finished next) tx

  unfoldable pub complete_stabilization :
      String → RecoveryCommandState → Tx → Result JournalRecord × Tx
  complete_stabilization key next tx =
      if not (eq_recovery_command_state next recovery_succeeded)
        && not (eq_recovery_command_state next recovery_failed)
      then (err invalid_request, tx)
      else update_record key (to_completed next) tx

  unfoldable pub mark_verify_and_notify :
      String → DockerSnapshot → Bool → Time → Tx → Result JournalRecord × Tx
  mark_verify_and_notify key snapshot verified now =
      update_record key (to_verify_and_notify snapshot verified now)

  -- The callback of reconcilableRecords' walk.
  unfoldable pub collect_reconcilable :
      List StoredRecord → String → String → Result (List StoredRecord)
  collect_reconcilable records key document =
      if not (starts_with key journal_record_prefix) then ok records else do
        r ← checked_record key document
        ok (
            if is_reconcilable_phase r.phase
            then records ++ (record { key = key; stored = r }) ∷ []
            else records)

  unfoldable pub reconcilable_records : Tx → Result (List StoredRecord)
  reconcilable_records tx = for_each bolt tx bucket_command_journal collect_reconcilable []

  unfoldable pub keep_first : Option StoredRecord → StoredRecord → Result (Option StoredRecord)
  keep_first none r = ok (some r)
  keep_first (some matched) r = err corrupt_journal

  -- The callback of findRecordByCommandID's walk: a second match is corruption.
  unfoldable pub match_command_id :
      String → Option StoredRecord → String → String → Result (Option StoredRecord)
  match_command_id command_id found key document =
      if not (starts_with key journal_record_prefix) then ok found else do
        r ← checked_record key document
        if not (r.command.command_id == command_id)
            then ok found
            else keep_first found (record { key = key; stored = r })

  unfoldable pub find_record_by_command_id : Tx → String → Result (Option StoredRecord)
  find_record_by_command_id tx command_id =
      for_each bolt tx bucket_command_journal (match_command_id command_id) none
