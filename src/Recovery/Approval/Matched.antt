-- ===== src/Recovery/Approval/Matched.antt =====
-- The record that findRecordByCommandID of internal/recovery/approval.go finds has that command ID.
use text.Mathlib.Text.{starts_with}
use pulse_agent.Prelude.{
  String, ◌≡◌, subst, inl, inr, [], ◌∷◌, Option, none, some, ◌==◌, eq_iff, Bool-cases, arith,
}
use pulse_agent.Prelude.Result.{ok, Result-cases}
use pulse_agent.Store.{Bolt, bucket_command_journal, for_each, for_each_entry}
use pulse_agent.Store.Entries.{Pairs}
use pulse_agent.Recovery.Types.{JournalRecord, Codec}
use pulse_agent.Recovery.Keys.{journal_record_prefix}
use pulse_agent.Recovery.Journal.{
  StoredRecord, checked_record, keep_first, match_command_id, find_record_by_command_id,
}

module _ (bolt : Bolt) (sha256_hex : String → String) (codec : Codec JournalRecord)
    (command_id : String) where
  open bolt use {Tx, entries}

  abbrev HasId : Option StoredRecord → Type 0
  HasId none = Unit {0}
  HasId (some s) = s.stored.command.command_id ≡ command_id

  keep_first-HasId :
      (found : Option StoredRecord) (s : StoredRecord) (found' : Option StoredRecord)
      → s.stored.command.command_id ≡ command_id
      → keep_first bolt sha256_hex codec found s ≡ ok found'
      → HasId found'
  unfolding keep_first
  keep_first-HasId none s found' e h =
      let same : some s ≡ found' = ground arith in subst HasId same e
  keep_first-HasId (some other) s found' e h = absurd (cc h)

  match-HasId :
      (found found' : Option StoredRecord) (key document : String)
      → HasId found
      → match_command_id bolt sha256_hex codec command_id found key document ≡ ok found'
      → HasId found'
  match-HasId found found' key document p h =
      elim (Bool-cases (starts_with key journal_record_prefix)) [
        | inr e ↦
            let same : found ≡ found' = unfold match_command_id in ground (arith, e) in
            subst HasId same p
        | inl e ↦ elim (Result-cases (checked_record bolt sha256_hex codec key document)) [
          | inr (x, c) ↦ absurd (unfold match_command_id in ground (arith, e))
          | inl (r, c) ↦ elim (Bool-cases (r.command.command_id == command_id)) [
            | inr n ↦
                let same : found ≡ found' = unfold match_command_id in ground (arith, e, n) in
                subst HasId same p
            | inl y ↦
                keep_first-HasId found (record { key = key; stored = r }) found'
                  ((eq_iff r.command.command_id command_id).0 y)
                  (unfold match_command_id in ground (arith, e, y))
          ]
        ]
      ]

  walk-HasId :
      (xs : Pairs) (found found' : Option StoredRecord)
      → HasId found
      → for_each_entry (match_command_id bolt sha256_hex codec command_id) xs found ≡ ok found'
      → HasId found'
  walk-HasId [] found found' p h = let same : found ≡ found' = ground arith in subst HasId same p
  walk-HasId ((k, v) ∷ rest) found found' p h =
      elim (Result-cases (match_command_id bolt sha256_hex codec command_id found k v)) [
        | inr (x, e) ↦ absurd (ground arith)
        | inl (next, e) ↦
            walk-HasId rest next found' (match-HasId found next k v p e) (ground arith)
      ]

  pub find_record-command_id :
      (tx : Tx) (s : StoredRecord)
      → find_record_by_command_id bolt sha256_hex codec tx command_id ≡ ok (some s)
      → s.stored.command.command_id ≡ command_id
  unfolding find_record_by_command_id for_each
  find_record-command_id tx s h =
      walk-HasId (entries tx bucket_command_journal) none (some s) tt (ground arith)
