-- ===== src/Recovery/Approval/Stored.antt =====
-- What an accepted decision of internal/recovery/approval.go leaves in the store.
use Prim.Native.Char.{code}
use Prim.Native.String.append
use Prim.Native.String.{len}
use pulse_agent.Prelude.{
  ◌≤◌, eqb, String, ◌≡◌, ◌≢◌, refl, ap, ◌∙◌, inl, inr, Bool, true, false, some, eq_refl, arith,
}
use pulse_agent.Prelude.Result.{ok, Result-cases}
use pulse_agent.Contract.{Approval}
use pulse_agent.Store.{Bolt, bucket_approvals, bucket_command_journal, put, get}
use pulse_agent.Store.Laws.{get-put_ne, get-put_self}
use pulse_agent.Recovery.Types.{JournalRecord, Codec}
use pulse_agent.Recovery.Record.{valid_token, max_command_id_length}
use pulse_agent.Recovery.Journal.{put_record}
use pulse_agent.Recovery.Approval.Types.{
  approval_record_key, approval_command_key, validate_approval,
}
use pulse_agent.Recovery.Approval.Plan.{
  store_approval, load_approval, indexed_approval, present_approval, checked_approval,
}

-- Whether a text starts with an "r", as the keys of records do and those of commands do not.
of_record : String → Bool
of_record String.[] = false
of_record (String.◌∷◌ c rest) = eqb (code c) 114

record_key-of_record : (id : String) → of_record (approval_record_key id) ≡ true
unfolding approval_record_key of_record
record_key-of_record id = rw (append.cons "r" "ecord/" id) refl

command_key-of_record : (id : String) → of_record (approval_command_key id) ≡ false
unfolding approval_command_key of_record
command_key-of_record id = rw (append.cons "c" "ommand/" id) refl

keys_differ : (id command_id : String) → approval_record_key id ≢ approval_command_key command_id
keys_differ id command_id e =
    cc (record_key-of_record id, command_key-of_record command_id, ap of_record e)

module _ (bolt : Bolt) (sha256_hex : String → String) (journal : Codec JournalRecord)
    (approvals : Codec Approval) where
  open bolt use {Tx}

  -- The two entries of a decision.
  pub record Entered (tx : Tx) (a : Approval) (text : String) : Type 0 where
    pub indexed :
        get bolt tx bucket_approvals (approval_command_key a.command_id) ≡ ok (some a.approval_id)
    pub present : get bolt tx bucket_approvals (approval_record_key a.approval_id) ≡ ok (some text)

  pub store_approval-Entered :
      (tx tx' : Tx) (key : String) (r : JournalRecord) (a : Approval) (text : String)
      → store_approval bolt sha256_hex journal approvals key r a text tx ≡ ok tx'
      → Entered tx' a text
  store_approval-Entered tx tx' key r a text s =
      elim (Result-cases (put bolt tx bucket_approvals record_place text)) [
        | inr (x, e) ↦ absurd (unfold store_approval in ground arith)
        | inl (tx1, e) ↦
            elim (Result-cases (put bolt tx1 bucket_approvals command_place a.approval_id)) [
              | inr (x, f) ↦ absurd (unfold store_approval in ground arith)
              | inl (tx2, f) ↦ elim (Result-cases (journal.marshal r)) [
                | inr (x, m) ↦ absurd (unfold store_approval put_record in ground arith)
                | inl (journalled, m) ↦
                    let written : put bolt tx2 bucket_command_journal key journalled ≡ ok tx' =
                      unfold store_approval put_record in ground arith in
                    let same : (k : String)
                        → get bolt tx' bucket_approvals k ≡ get bolt tx2 bucket_approvals k =
                      λ k.
                        get-put_ne bolt tx2 tx' bucket_command_journal bucket_approvals key
                          journalled k written (inl (λ e. cc e)) in
                    record {
                      indexed =
                          same command_place
                          ∙ get-put_self bolt tx1 tx2 bucket_approvals command_place a.approval_id
                              f;
                      present =
                          same record_place
                          ∙ get-put_ne bolt tx1 tx2 bucket_approvals bucket_approvals command_place
                              a.approval_id record_place f
                              (inr (keys_differ a.approval_id a.command_id))
                          ∙ get-put_self bolt tx tx1 bucket_approvals record_place text e;
                    }
              ]
            ]
      ]
    where
      record_place : String
      record_place = approval_record_key a.approval_id

      command_place : String
      command_place = approval_command_key a.command_id

  -- LoadApproval reads back what was stored.
  pub load_approval-Entered :
      (tx : Tx) (a : Approval) (text : String)
      → Entered tx a text
      → approvals.marshal a ≡ ok text
      → len text ≤ approvals.limit
      → validate_approval a ≡ ok tt
      → valid_token a.command_id max_command_id_length ≡ true
      → load_approval bolt sha256_hex journal approvals tx a.command_id ≡ ok (some a)
  unfolding load_approval indexed_approval present_approval checked_approval
  load_approval-Entered tx a text e m fits v t = ground (
    arith,
    e.indexed,
    e.present,
    approvals.decode-marshal a text m fits,
    v,
    t,
    eq_refl a.command_id,
    eq_refl a.approval_id,
  )
