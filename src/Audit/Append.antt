-- ===== src/Audit/Append.antt =====
-- Append of internal/audit/chain.go: what it leaves of the chain.
use Prim.Native.String.{len}
use pulse_agent.Prelude.{
  ℕ, suc, ◌^◌, ◌≤◌, ◌<◌, eqb, String, ◌≡◌, refl, sym, ap, ◌∙◌, inl, inr, true, false, [], ◌∷◌, any,
  if◌then◌else◌, Option, none, some, ◌==◌, eq_iff, eq_refl, arith,
}
use pulse_agent.Prelude.Result.{Result, ok, err, chain_invalid, Result-cases}
use pulse_agent.Store.{Bolt, bucket_audit, check_bucket, append_audit, for_each}
use pulse_agent.Store.Entries.{entries-write}
use pulse_agent.Store.Laws.{append-inv}
use pulse_agent.Audit.Types.{AuditEvent, ChainState, ChainWalk, AuditCodec}
use pulse_agent.Audit.Keys.{event_key}
use pulse_agent.Audit.Chain.{
  canonical_digest, canonical_bytes, checked_event, decode_event, valid_digest,
  validate_stored_event, validate_event_fields, valid_previous, link_event, read_event, walk_chain,
  read_chain, append_linked, apply_change, append, empty_walk, eq_chain_state, max_uint64,
}
use pulse_agent.Audit.Walk.{
  walk-keys, insert_entry-last, for_each_entry-append, advance, walk_bound, walk_chain-ok,
  read_chain-ok,
}

module _ (codec : AuditCodec)
    (digest_shape : (document : String) → valid_digest (codec.sha256_hex document) ≡ true) where
  -- What the digest of an event vouches for.
  record Digested (e : AuditEvent) (digest : String) : Type 0 where
    fields : validate_event_fields codec e ≡ ok tt
    previous : valid_previous e.previous_digest ≡ true
    shape : valid_digest digest ≡ true

  canonical_digest-ok :
      (e : AuditEvent) {digest : String} → canonical_digest codec e ≡ ok digest → Digested e digest
  unfolding canonical_digest canonical_bytes
  canonical_digest-ok e {digest} h = elim (Result-cases (canonical_bytes codec e)) [
    | inr (x, b) ↦ absurd (unfold canonical_digest in ground arith)
    | inl (bytes, b) ↦
        let same : codec.sha256_hex bytes ≡ digest = unfold canonical_digest in ground arith in
        record {
          fields = unfold canonical_bytes in ground arith;
          previous = unfold canonical_bytes in ground arith;
          shape = rw (← same) (digest_shape bytes);
        }
  ]

  -- An event with the digest of its own fields is read back from its document.
  decode_event-marshal :
      (e : AuditEvent) (document : String)
      → canonical_digest codec e ≡ ok e.digest
      → codec.marshal e ≡ ok document
      → len document ≤ codec.limit
      → decode_event codec document ≡ ok e
  unfolding decode_event validate_stored_event checked_event
  decode_event-marshal e document h m fits =
      let d = canonical_digest-ok e h in
      ground (
        arith,
        codec.decode-marshal e document m fits,
        d.fields,
        d.previous,
        d.shape,
        eq_refl e.digest,
      )

  -- The last step of a walk, over the new event's document.
  read_event-marshal :
      (w : ChainWalk) (e : AuditEvent) (document : String)
      → canonical_digest codec e ≡ ok e.digest
      → codec.marshal e ≡ ok document
      → len document ≤ codec.limit
      → e.previous_digest ≡ w.state.previous_digest
      → eqb w.state.next_index max_uint64 ≡ false
      → read_event codec w (event_key w.state.next_index) document
        ≡ (if any (λ id. id == e.event_id) w.seen then err chain_invalid else ok (advance w e))
  unfolding read_event link_event
  read_event-marshal w e document h m fits p room =
      rw
        (
          decode_event-marshal e document h m fits,
          eq_refl (event_key w.state.next_index),
          p,
          eq_refl w.state.previous_digest,
        )
        (ground arith)

  module _ (bolt : Bolt) where
    open bolt use {Tx, entries, write, has_bucket-write}

    -- The walk after an append.
    walk_chain-append_audit :
        (tx tx' : Tx) (w : ChainWalk) (e : AuditEvent) (document : String)
        → walk_chain codec bolt tx ≡ ok w
        → canonical_digest codec e ≡ ok e.digest
        → codec.marshal e ≡ ok document
        → len document ≤ codec.limit
        → e.previous_digest ≡ w.state.previous_digest
        → eqb w.state.next_index max_uint64 ≡ false
        → w.state.next_index < 2 ^ 64
        → append_audit bolt tx (event_key w.state.next_index) document ≡ ok tx'
        → walk_chain codec bolt tx'
          ≡ (if any (λ id. id == e.event_id) w.seen then err chain_invalid else ok (advance w e))
    unfolding walk_chain for_each check_bucket
    walk_chain-append_audit tx tx' w e document h c m fits p room bound stored =
        let before = walk_chain-ok codec bolt tx h in
        let (written, absent) = append-inv bolt tx tx' key document stored in
        let last =
          entries-write bolt tx bucket_audit key document tx' written
          ∙ insert_entry-last key document (entries tx bucket_audit)
              (walk-keys codec (entries tx bucket_audit) empty_walk w before.passed bound) in
        let walked =
          for_each_entry-append (read_event codec) (entries tx bucket_audit) ((key, document) ∷ [])
            empty_walk in
        ground (
          arith,
          last,
          walked,
          before.bucket,
          before.passed,
          has_bucket-write tx bucket_audit key document tx' bucket_audit written,
          read_event-marshal w e document c m fits p room,
        )
      where
        key : String
        key = event_key w.state.next_index

    record Linked (s : ChainState) (event : AuditEvent) (tx : Tx) (e : AuditEvent) (tx' : Tx)
        : Type 0 where
      document : String
      room : eqb s.next_index max_uint64 ≡ false
      previous : e.previous_digest ≡ s.previous_digest
      id : e.event_id ≡ event.event_id
      digested : canonical_digest codec e ≡ ok e.digest
      marshalled : codec.marshal e ≡ ok document
      stored : append_audit bolt tx (event_key s.next_index) document ≡ ok tx'

    stored-Linked :
        (s : ChainState) (event : AuditEvent) (tx : Tx) (digest : String) {e : AuditEvent}
        {tx' : Tx}
        → eqb s.next_index max_uint64 ≡ false
        → canonical_digest codec (record event { previous_digest = s.previous_digest }) ≡ ok digest
        → append_linked codec bolt s event tx ≡ ok (e, tx')
        → Linked s event tx e tx'
    unfolding append_linked
    stored-Linked s event tx digest {e} {tx'} room d h =
        let digested = record event { previous_digest = s.previous_digest; digest = digest } in
        elim (Result-cases (codec.marshal digested)) [
          | inr (x, m) ↦ absurd (ground arith)
          | inl (document, m) ↦
              elim (Result-cases (append_audit bolt tx (event_key s.next_index) document)) [
                | inr (x, a) ↦ absurd (ground arith)
                | inl (tx'', a) ↦
                    let same : digested ≡ e = ground arith in
                    let left : tx'' ≡ tx' = ground arith in
                    record {
                      document = document;
                      room = room;
                      previous = rw (← same) refl;
                      id = rw (← same) refl;
                      digested = rw (← same) (d);
                      marshalled = rw (← same) m;
                      stored = rw (← left) a;
                    }
              ]
        ]

    append_linked-ok :
        (s : ChainState) (event : AuditEvent) (tx : Tx) {e : AuditEvent} {tx' : Tx}
        → append_linked codec bolt s event tx ≡ ok (e, tx')
        → Linked s event tx e tx'
    append_linked-ok s event tx h =
        elim (Result-cases
          (canonical_digest codec (record event { previous_digest = s.previous_digest }))) [
            | inr (x, d) ↦ absurd (unfold append_linked in ground arith)
            | inl (digest, d) ↦
                stored-Linked s event tx digest (unfold append_linked in ground arith) d h
          ]

    eq_chain_state-eq : (a b : ChainState) → eq_chain_state a b ≡ true → a ≡ b
    eq_chain_state-eq a b h = ground (arith, eq_iff a.previous_digest b.previous_digest)

    -- The change leaves a chain in the state that was read before it.
    apply_change-read :
        (s : ChainState) (change : Option (Tx → Result Tx)) (tx tx1 : Tx)
        → read_chain codec bolt tx ≡ ok s
        → apply_change codec bolt s change tx ≡ ok tx1
        → read_chain codec bolt tx1 ≡ ok s
    apply_change-read s none tx tx1 r h = unfold apply_change in ground arith
    apply_change-read s (some change) tx tx1 r h = elim (Result-cases (change tx)) [
      | inr (x, c) ↦ absurd (unfold apply_change in ground arith)
      | inl (tx', c) ↦ elim (Result-cases (read_chain codec bolt tx')) [
        | inr (x, a) ↦ absurd (unfold apply_change in ground arith)
        | inl (after_change, a) ↦
            let same = eq_chain_state-eq after_change s (unfold apply_change in ground arith) in
            let left : tx' ≡ tx1 = unfold apply_change in ground arith in rw (← left, ← same) a
      ]
    ]

    abbrev pub Appends : Tx → Tx → AuditEvent → AuditEvent → Option (Tx → Result Tx) → Type 0
    Appends tx tx' event e change =
        (tx1 : Tx) × (w : ChainWalk) × (apply_change codec bolt w.state change tx ≡ ok tx1)
        × (walk_chain codec bolt tx1 ≡ ok w)
        × (read_chain codec bolt tx ≡ ok w.state)
        × (e.previous_digest ≡ w.state.previous_digest)
        × (read_chain codec bolt tx' ≡ (
            if any (λ id. id == event.event_id) w.seen
            then err chain_invalid
            else ok (record { next_index = suc w.state.next_index; previous_digest = e.digest })))

    Linked-Appends :
        (tx tx1 tx' : Tx) (event e : AuditEvent) (change : Option (Tx → Result Tx)) (s : ChainState)
        (w : ChainWalk)
        → read_chain codec bolt tx ≡ ok s
        → apply_change codec bolt s change tx ≡ ok tx1
        → walk_chain codec bolt tx1 ≡ ok w
        → w.state ≡ s
        → (l : Linked s event tx1 e tx') → len l.document ≤ codec.limit
        → Appends tx tx' event e change
    Linked-Appends tx tx1 tx' event e change s w r c walked same l fits = (
      tx1,
      w,
      rw same c,
      walked,
      rw same r,
      l.previous ∙ ap (λ (t : ChainState). t.previous_digest) (sym same),
      unfold read_chain in ground (arith, after, l.id, same),
    )
      where
        n : ℕ
        n = w.state.next_index

        room : eqb n max_uint64 ≡ false
        room = rw same l.room

        bound : n < 2 ^ 64
        bound =
            walk_bound codec (entries tx1 bucket_audit) empty_walk w
              (walk_chain-ok codec bolt tx1 walked).passed (omega arith)

        after :
            walk_chain codec bolt tx'
            ≡ (if any (λ id. id == e.event_id) w.seen then err chain_invalid else ok (advance w e))
        after =
            walk_chain-append_audit tx1 tx' w e l.document walked l.digested l.marshalled fits
              (l.previous ∙ ap (λ (t : ChainState). t.previous_digest) (sym same)) room bound
              (rw same l.stored)

    -- When Append returns an event, it has read a chain and applied its change, and the event carries
    -- the head digest of that chain. Reading the store that it leaves gives one event more and the
    -- event's digest as the head, if the event's ID is new in the chain; if the ID is already there,
    -- that read fails with chain_invalid, although Append has returned the event. The event's document
    -- has to fit the decoder's size limit, and every SHA-256 digest to have the shape of a digest.
    pub read_chain-append :
        (tx tx' : Tx) (event e : AuditEvent) (change : Option (Tx → Result Tx))
        → ((document : String) → codec.marshal e ≡ ok document → len document ≤ codec.limit)
        → append codec bolt tx event change ≡ ok (e, tx')
        → Appends tx tx' event e change
    read_chain-append tx tx' event e change fits h =
        elim (Result-cases (read_chain codec bolt tx)) [
          | inr (x, r) ↦ absurd (unfold append in ground arith)
          | inl (s, r) ↦ elim (Result-cases (apply_change codec bolt s change tx)) [
            | inr (x, c) ↦ absurd (unfold append in ground arith)
            | inl (tx1, c) ↦
                let l =
                  append_linked-ok s event tx1 {e = e} {tx' = tx'}
                    (unfold append in ground arith) in
                let (w, walked, same) =
                  read_chain-ok codec bolt tx1 (apply_change-read s change tx tx1 r c) in
                Linked-Appends tx tx1 tx' event e change s w r c walked same l
                  (fits l.document l.marshalled)
          ]
        ]
