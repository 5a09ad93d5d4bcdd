-- ===== src/Recovery/Entries.antt =====
-- The index entry and the record that persistPending of internal/recovery/journal.go leaves.
use pulse_agent.Prelude.{
  String, ◌≡◌, inl, inr, refl, Bool, true, false, Option, none, some, eq_iff, arith,
}
use pulse_agent.Prelude.Result.{ok, Result-cases}
use pulse_agent.Store.{Bolt, bucket_command_journal, put, get, update}
use pulse_agent.Store.Laws.{get-put_self, update-ok}
use pulse_agent.Recovery.Types.{JournalRecord, Codec}
use pulse_agent.Recovery.Keys.{record_key, idempotency_index_key}
use pulse_agent.Recovery.Journal.{
  load_record, put_record, persist_unindexed, persist_indexed, persist_pending_tx, persist_pending,
}

module _ (bolt : Bolt) (sha256_hex : String → String) (codec : Codec JournalRecord) where
  open bolt use {Tx}

  module _ (key index_key : String) (r : JournalRecord) where
    -- The index entry is there, and a record that is no duplicate is the one that was given.
    record Persisted (tx1 : Tx) (stored : JournalRecord) (duplicate : Bool) : Type 0 where
      index : get bolt tx1 bucket_command_journal index_key ≡ ok (some key)
      own : duplicate ≡ false → r ≡ stored

    persist_unindexed-Persisted :
        (tx tx1 : Tx) (found : Option JournalRecord) (stored : JournalRecord) (duplicate : Bool)
        → persist_unindexed bolt sha256_hex codec tx key index_key r found
          ≡ ok ((stored, duplicate), tx1)
        → Persisted tx1 stored duplicate
    unfolding persist_unindexed
    persist_unindexed-Persisted tx tx1 (some existing) stored duplicate h =
        elim (Result-cases (put bolt tx bucket_command_journal index_key key)) [
          | inr (x, failed) ↦ absurd (ground arith)
          | inl (tx', p) ↦
              let same : tx' ≡ tx1 = ground arith in
              let old : true ≡ duplicate = ground arith in
              record {
                index =
                    rw (← same) (get-put_self bolt tx tx' bucket_command_journal index_key key p);
                own = λ e. absurd (cc (old, e));
              }
        ]
    persist_unindexed-Persisted tx tx1 none stored duplicate h =
        elim (Result-cases (put_record bolt sha256_hex codec tx key r)) [
          | inr (x, failed) ↦ absurd (ground arith)
          | inl (tx', p) ↦ elim (Result-cases (put bolt tx' bucket_command_journal index_key key)) [
            | inr (x, failed) ↦ absurd (ground arith)
            | inl (tx'', q) ↦
                let same : tx'' ≡ tx1 = ground arith in
                let given : r ≡ stored = ground arith in
                record {
                  index =
                      rw (← same)
                        (get-put_self bolt tx' tx'' bucket_command_journal index_key key q);
                  own = λ e. given;
                }
          ]
        ]

    persist_indexed-Persisted :
        (tx tx1 : Tx) (indexed : Option String) (stored : JournalRecord) (duplicate : Bool)
        → get bolt tx bucket_command_journal index_key ≡ ok indexed
        → persist_indexed bolt sha256_hex codec tx key index_key r indexed
          ≡ ok ((stored, duplicate), tx1)
        → Persisted tx1 stored duplicate
    unfolding persist_indexed
    persist_indexed-Persisted tx tx1 (some indexed) stored duplicate g h =
        elim (Result-cases (load_record bolt sha256_hex codec tx key)) [
          | inr (x, failed) ↦ absurd (ground arith)
          | inl (none, l) ↦ absurd (ground arith)
          | inl (some existing, l) ↦
              let same : tx ≡ tx1 = ground arith in
              let k : indexed ≡ key = (eq_iff indexed key).0 (ground arith) in
              let old : true ≡ duplicate = ground arith in
              record { index = rw (← same, ← k) g; own = λ e. absurd (cc (old, e)) }
        ]
    persist_indexed-Persisted tx tx1 none stored duplicate g h =
        elim (Result-cases (load_record bolt sha256_hex codec tx key)) [
          | inr (x, failed) ↦ absurd (ground arith)
          | inl (found, l) ↦
              persist_unindexed-Persisted tx tx1 found stored duplicate (ground arith)
        ]

  persist_pending_tx-Persisted :
      (r stored : JournalRecord) (duplicate : Bool) (tx tx1 : Tx)
      → persist_pending_tx bolt sha256_hex codec r tx ≡ ok ((stored, duplicate), tx1)
      → Persisted
          (record_key sha256_hex r.command)
          (idempotency_index_key sha256_hex r.command.idempotency_key)
          r
          tx1
          stored
          duplicate
  unfolding persist_pending_tx
  persist_pending_tx-Persisted r stored duplicate tx tx1 h =
      elim (Result-cases (
        get bolt tx bucket_command_journal
          (idempotency_index_key sha256_hex r.command.idempotency_key))) [
            | inr (x, failed) ↦ absurd (ground arith)
            | inl (indexed, g) ↦
                persist_indexed-Persisted (record_key sha256_hex r.command)
                  (idempotency_index_key sha256_hex r.command.idempotency_key) r tx tx1 indexed
                  stored duplicate g (ground arith)
          ]

  -- The index entry of a record that was persisted.
  pub persist_pending_tx-index :
      (r stored : JournalRecord) (duplicate : Bool) (tx tx1 : Tx)
      → persist_pending_tx bolt sha256_hex codec r tx ≡ ok ((stored, duplicate), tx1)
      → get bolt tx1 bucket_command_journal
          (idempotency_index_key sha256_hex r.command.idempotency_key)
        ≡ ok (some (record_key sha256_hex r.command))
  persist_pending_tx-index r stored duplicate tx tx1 h =
      (persist_pending_tx-Persisted r stored duplicate tx tx1 h).index

  -- What is persisted as new is the record that was given.
  pub persist_pending-new :
      (r stored : JournalRecord) (tx : Tx)
      → (persist_pending bolt sha256_hex codec r tx).0 ≡ ok (stored, false)
      → r ≡ stored
  unfolding persist_pending
  persist_pending-new r stored tx h =
      (persist_pending_tx-Persisted r stored false tx
          (update bolt (persist_pending_tx bolt sha256_hex codec r) tx).1
          (update-ok bolt (persist_pending_tx bolt sha256_hex codec r) tx h)).own
        refl
