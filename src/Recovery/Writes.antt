-- ===== src/Recovery/Writes.antt =====
-- One journal record written and read back in internal/recovery/journal.go: putRecord, loadRecord and
-- updateRecord.

use Prim.Native.String.{len}
use pulse_agent.Prelude.{
  ◌≤◌, String, ◌≡◌, ◌≢◌, inl, inr, refl, ap, ◌∙◌, true, none, some, ◌==◌, arith,
}
use pulse_agent.Prelude.Result.{Result, ok, is_ok, Result-cases}
use pulse_agent.Store.{Bolt, bucket_command_journal, put, update}
use pulse_agent.Store.Laws.{get-put_self, get-put_ne, update-ok}
use pulse_agent.Recovery.Types.{JournalRecord, Codec}
use pulse_agent.Recovery.Keys.{record_key}
use pulse_agent.Recovery.Record.{validate_record}
use pulse_agent.Recovery.Journal.{
  decode_record, checked_record, load_document, load_record, put_record, update_record_tx,
  update_record,
}

module _ (bolt : Bolt) (sha256_hex : String → String) (codec : Codec JournalRecord) where
  open bolt use {Tx}

  -- putRecord writes only a valid record, under the key of its own command.
  pub record Written (tx tx' : Tx) (key : String) (r : JournalRecord) : Type 0 where
    pub document : String
    pub keyed : (record_key sha256_hex r.command == key) ≡ true
    pub valid : is_ok (validate_record r) ≡ true
    pub encoded : codec.marshal r ≡ ok document
    pub stored : put bolt tx bucket_command_journal key document ≡ ok tx'

  pub put_record-Written :
      (tx tx' : Tx) (key : String) (r : JournalRecord)
      → put_record bolt sha256_hex codec tx key r ≡ ok tx'
      → Written tx tx' key r
  unfolding put_record
  put_record-Written tx tx' key r h = elim (Result-cases (codec.marshal r)) [
    | inr (x, failed) ↦ absurd (ground arith)
    | inl (document, e) ↦ record {
      document = document;
      keyed = ground arith;
      valid = ground arith;
      encoded = e;
      stored = ground arith;
    }
  ]

  decode_record-marshal :
      (r : JournalRecord) (document : String)
      → codec.marshal r ≡ ok document
      → len document ≤ codec.limit
      → is_ok (validate_record r) ≡ true
      → decode_record bolt sha256_hex codec document ≡ ok r
  unfolding decode_record
  decode_record-marshal r document e fits v = ground (arith, codec.decode-marshal r document e fits)

  -- A record that was written is read back.
  pub load_record-Written :
      (tx tx' : Tx) (key : String) (r : JournalRecord) (w : Written tx tx' key r)
      → len w.document ≤ codec.limit
      → load_record bolt sha256_hex codec tx' key ≡ ok (some r)
  unfolding load_record load_document checked_record
  load_record-Written tx tx' key r w fits =
      rw (get-put_self bolt tx tx' bucket_command_journal key w.document w.stored)
        (rw (decode_record-marshal r w.document w.encoded fits w.valid) (rw w.keyed refl))

  pub load_record-other :
      (tx tx' : Tx) (key other document : String)
      → put bolt tx bucket_command_journal other document ≡ ok tx'
      → key ≢ other
      → load_record bolt sha256_hex codec tx' key ≡ load_record bolt sha256_hex codec tx key
  unfolding load_record
  load_record-other tx tx' key other document h n =
      rw
        (get-put_ne bolt tx tx' bucket_command_journal bucket_command_journal other document key h
          (inr n))
        refl

  abbrev pub Fits : JournalRecord → Type 0
  Fits r = (document : String) → codec.marshal r ≡ ok document → len document ≤ codec.limit

  update_record_tx-reads_back :
      (key : String) (change : JournalRecord → Result JournalRecord) (tx tx1 : Tx)
      (r' : JournalRecord)
      → Fits r'
      → update_record_tx bolt sha256_hex codec key change tx ≡ ok (r', tx1)
      → ((r : JournalRecord) × (load_record bolt sha256_hex codec tx key ≡ ok (some r))
          × (change r ≡ ok r')
          × (load_record bolt sha256_hex codec tx1 key ≡ ok (some r')))
  unfolding update_record_tx
  update_record_tx-reads_back key change tx tx1 r' fits e =
      elim (Result-cases (load_record bolt sha256_hex codec tx key)) [
        | inr (x, failed) ↦ absurd (ground arith)
        | inl (none, l) ↦ absurd (ground arith)
        | inl (some r, l) ↦ elim (Result-cases (change r)) [
          | inr (x, failed) ↦ absurd (ground arith)
          | inl (r2, c) ↦ elim (Result-cases (put_record bolt sha256_hex codec tx key r2)) [
            | inr (x, failed) ↦ absurd (ground arith)
            | inl (tx2, p) ↦
                let same : r2 ≡ r' = ground arith in
                let left : tx2 ≡ tx1 = ground arith in
                let w = put_record-Written tx tx1 key r' (rw (← same, ← left) p) in
                (
                  r,
                  l,
                  c ∙ ap ok same,
                  load_record-Written tx tx1 key r' w (fits w.document w.encoded),
                )
          ]
        ]
      ]

  -- An update of a journal record that succeeds has read a valid record under its key, and has
  -- written the changed record back under that key, where it is found again. The new document has
  -- to fit the size limit.
  pub update_record-reads_back :
      (key : String) (change : JournalRecord → Result JournalRecord) (tx : Tx) (r' : JournalRecord)
      → ((document : String) → codec.marshal r' ≡ ok document → len document ≤ codec.limit)
      → (update_record bolt sha256_hex codec key change tx).0 ≡ ok r'
      → ((r : JournalRecord) × (load_record bolt sha256_hex codec tx key ≡ ok (some r))
          × (change r ≡ ok r')
          × (load_record bolt sha256_hex codec
                (update_record bolt sha256_hex codec key change tx).1
                key
              ≡ ok (some r')))
  unfolding update_record
  update_record-reads_back key change tx r' fits h =
      update_record_tx-reads_back key change tx
        (update bolt (update_record_tx bolt sha256_hex codec key change) tx).1 r' fits
        (update-ok bolt (update_record_tx bolt sha256_hex codec key change) tx h)
