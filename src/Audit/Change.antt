-- ===== src/Audit/Change.antt =====
-- What Append of internal/audit/chain.go leaves of the change and of the other buckets.
use pulse_agent.Prelude.{String, ◌≡◌, ◌≢◌, inl, inr, Option, none, some, arith}
use pulse_agent.Prelude.Result.{Result, ok, Result-cases}
use pulse_agent.Store.{Bolt, Bucket, bucket_audit, check_bucket, get, append_audit}
use pulse_agent.Store.Laws.{append-inv}
use pulse_agent.Audit.Types.{AuditEvent, ChainState, AuditCodec}
use pulse_agent.Audit.Keys.{event_key}
use pulse_agent.Audit.Chain.{canonical_digest, read_chain, append_linked, apply_change, append}

module _ (codec : AuditCodec) (bolt : Bolt) where
  open bolt use {Tx, read-write_ne, has_bucket-write}

  -- The change alone, if there is one.
  abbrev pub changed : Option (Tx → Result Tx) → Tx → Result Tx
  changed none tx = ok tx
  changed (some change) tx = change tx

  -- The same under every key outside the audit bucket.
  abbrev pub AgreesOutsideAudit : Tx → Tx → Type 0
  AgreesOutsideAudit tx tx' =
      (b : Bucket) (k : String) → b ≢ bucket_audit → get bolt tx' b k ≡ get bolt tx b k

  append_audit-Agrees :
      (tx tx' : Tx) (key document : String)
      → append_audit bolt tx key document ≡ ok tx'
      → AgreesOutsideAudit tx tx'
  append_audit-Agrees tx tx' key document h b k n =
      let (w, absent) = append-inv bolt tx tx' key document h in
      unfold get check_bucket in
      ground (
        arith,
        read-write_ne tx bucket_audit key document tx' b k w (inl n),
        has_bucket-write tx bucket_audit key document tx' b w,
      )

  append_linked-Agrees :
      (s : ChainState) (event e : AuditEvent) (tx tx' : Tx)
      → append_linked codec bolt s event tx ≡ ok (e, tx')
      → AgreesOutsideAudit tx tx'
  append_linked-Agrees s event e tx tx' h =
      elim (Result-cases
        (canonical_digest codec (record event { previous_digest = s.previous_digest }))) [
          | inr (x, d) ↦ absurd (unfold append_linked in ground arith)
          | inl (digest, d) ↦
              elim (Result-cases (
                codec.marshal
                  (record event { previous_digest = s.previous_digest; digest = digest }))) [
                    | inr (x, m) ↦ absurd (unfold append_linked in ground arith)
                    | inl (document, m) ↦
                        elim (Result-cases
                          (append_audit bolt tx (event_key s.next_index) document)) [
                            | inr (x, a) ↦ absurd (unfold append_linked in ground arith)
                            | inl (t, a) ↦
                                let same : t ≡ tx' = unfold append_linked in ground arith in
                                append_audit-Agrees tx tx' (event_key s.next_index) document
                                  (rw (← same) a)
                          ]
                  ]
        ]

  apply_change-changed :
      (s : ChainState) (change : Option (Tx → Result Tx)) (tx tx1 : Tx)
      → apply_change codec bolt s change tx ≡ ok tx1
      → changed change tx ≡ ok tx1
  apply_change-changed s none tx tx1 h = unfold apply_change in ground arith
  apply_change-changed s (some change) tx tx1 h = elim (Result-cases (change tx)) [
    | inr (x, c) ↦ absurd (unfold apply_change in ground arith)
    | inl (t, c) ↦ elim (Result-cases (read_chain codec bolt t)) [
      | inr (x, r) ↦ absurd (unfold apply_change in ground arith)
      | inl (s', r) ↦ unfold apply_change in ground arith
    ]
  ]

  -- An append has made its change, and beside it has written in the audit bucket only.
  pub append-changed :
      (tx tx' : Tx) (event e : AuditEvent) (change : Option (Tx → Result Tx))
      → append codec bolt tx event change ≡ ok (e, tx')
      → (tx1 : Tx) × (changed change tx ≡ ok tx1) × AgreesOutsideAudit tx1 tx'
  append-changed tx tx' event e change h = elim (Result-cases (read_chain codec bolt tx)) [
    | inr (x, r) ↦ absurd (unfold append in ground arith)
    | inl (s, r) ↦ elim (Result-cases (apply_change codec bolt s change tx)) [
      | inr (x, c) ↦ absurd (unfold append in ground arith)
      | inl (tx1, c) ↦ (
        tx1,
        apply_change-changed s change tx tx1 c,
        append_linked-Agrees s event e tx1 tx' (unfold append in ground arith),
      )
    ]
  ]
