-- ===== src/Recovery/Persistence.antt =====
-- What the journal's transactions in internal/recovery/journal.go leave in the store.
use pulse_agent.Prelude.{
  String, ◌≡◌, ◌≢◌, inl, inr, refl, sym, Bool, false, some, ◌==◌, eq_iff, Bool-cases,
}
use pulse_agent.Prelude.Result.{ok, err, idempotency_conflict}
use pulse_agent.Store.{Bolt, bucket_command_journal, get, update}
use pulse_agent.Recovery.Types.{JournalRecord, Codec}
use pulse_agent.Recovery.Keys.{record_key, idempotency_index_key}
use pulse_agent.Recovery.Journal.{load_record, persist_indexed, persist_pending_tx, persist_pending}
use pulse_agent.Recovery.Entries.{persist_pending_tx-index}

module _ (bolt : Bolt) (sha256_hex : String → String) (codec : Codec JournalRecord) where
  open bolt use {Tx}

  -- The index entry of an idempotency key leads to a stored record.
  record Indexed (tx : Tx) (index_key key : String) (stored : JournalRecord) : Type 0 where
    index : get bolt tx bucket_command_journal index_key ≡ ok (some key)
    loads : load_record bolt sha256_hex codec tx key ≡ ok (some stored)

  -- Reusing the idempotency key of a persisted command for another effect is refused, and the
  -- transaction writes nothing.
  pub persist_conflict :
      (r r2 stored : JournalRecord) (duplicate : Bool) (tx tx1 : Tx)
      → record_key sha256_hex r2.command ≢ record_key sha256_hex r.command
      → r2.command.idempotency_key ≡ r.command.idempotency_key
      → persist_pending_tx bolt sha256_hex codec r tx ≡ ok ((stored, duplicate), tx1)
      → persist_pending bolt sha256_hex codec r2 tx1 ≡ (err idempotency_conflict, tx1)
  persist_conflict r r2 stored duplicate tx tx1 k i h =
      let x = persist_pending_tx-index bolt sha256_hex codec r stored duplicate tx tx1 h in
      refuse (record_key sha256_hex r.command) r2 tx1 (rw i x) (
        differs (record_key sha256_hex r.command) (record_key sha256_hex r2.command)
          (λ e. k (sym e)))
    where
      differs : (a b : String) → a ≢ b → (a == b) ≡ false
      differs a b n = elim (Bool-cases (a == b)) [
        | inl e ↦ absurd (n ((eq_iff a b).0 e))
        | inr e ↦ e
      ]

      refuse :
          (key : String) (r2 : JournalRecord) (tx1 : Tx)
          → get bolt tx1 bucket_command_journal
              (idempotency_index_key sha256_hex r2.command.idempotency_key)
            ≡ ok (some key)
          → (key == record_key sha256_hex r2.command) ≡ false
          → persist_pending bolt sha256_hex codec r2 tx1 ≡ (err idempotency_conflict, tx1)
      refuse key r2 tx1 g n =
          unfold persist_pending update persist_pending_tx persist_indexed in rw (g, n) refl
