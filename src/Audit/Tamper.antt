-- ===== src/Audit/Tamper.antt =====
-- What a valid chain of internal/audit/chain.go says of its events: the abstract chain behind the
-- audit bucket, and tamper evidence.
use pulse_agent.Prelude.{
  ℕ, String, ◌≡◌, ◌≢◌, refl, sym, ap, ◌∙◌, ◌⊎◌, inl, inr, true, false, List, [], ◌∷◌, length, any,
  some, Option-cases, subst, ◌==◌, eq_iff, Bool-cases, arith,
}
use pulse_agent.Prelude.Result.{Result, ok, err, Result-cases}
use pulse_agent.Store.{Bolt, bucket_audit, for_each_entry}
use pulse_agent.Store.Entries.{Pairs}
use pulse_agent.Audit.Types.{AuditEvent, CanonicalEvent, ChainState, ChainWalk, AuditCodec}
use pulse_agent.Audit.Chain.{
  canonical_digest, canonical_event, checked_event, decode_event, valid_digest,
  validate_stored_event, read_chain, read_event, empty_walk,
}
use pulse_agent.Audit.Walk.{walk_step, walk_chain-ok, read_chain-ok}

-- The events of a chain, the newest first.
abbrev pub event_ids : List AuditEvent → List String
event_ids [] = []
event_ids (e ∷ older) = e.event_id ∷ event_ids older

abbrev pub head_digest : List AuditEvent → String
head_digest [] = ""
head_digest (e ∷ older) = e.digest

not_empty : (d : String) → valid_digest d ≡ true → "" ≢ d
unfolding valid_digest
not_empty d h e = cc (h, ap valid_digest e)

module _ (codec : AuditCodec) where
  abbrev newer : Result AuditEvent → List AuditEvent → List AuditEvent
  newer (ok e) older = e ∷ older
  newer (err x) older = older

  unfoldable pub events_of : Pairs → List AuditEvent → List AuditEvent
  events_of [] older = older
  events_of ((key, document) ∷ rest) older =
      events_of rest (newer (decode_event codec document) older)

  -- Each event carries the digest of its fields and of the event before it, and an ID of its own.
  abbrev pub IsChain : List AuditEvent → Type 0
  IsChain [] = Unit {0}
  IsChain (e ∷ older) =
      (canonical_digest codec e ≡ ok e.digest)
      × (valid_digest e.digest ≡ true)
      × (e.previous_digest ≡ head_digest older)
      × (any (λ id. id == e.event_id) (event_ids older) ≡ false)
      × IsChain older

  record Abstracts (w : ChainWalk) (events : List AuditEvent) : Type 0 where
    chain : IsChain events
    size : w.state.next_index ≡ length events
    head : w.state.previous_digest ≡ head_digest events
    ids : w.seen ≡ event_ids events

  checked_event-ok :
      (f : AuditEvent) (r : Result String) {e : AuditEvent}
      → checked_event f r ≡ ok e
      → (r ≡ ok f.digest) × (f ≡ e)
  unfolding checked_event
  checked_event-ok f (err x) h = absurd (cc h)
  checked_event-ok f (ok d) h =
      let same = (eq_iff f.digest d).0 (ground arith) in (ap ok (sym same), ground arith)

  stored_event-ok :
      (f : AuditEvent) {e : AuditEvent} (document : String)
      → codec.decode document ≡ some f
      → decode_event codec document ≡ ok e
      → (checked_event f (canonical_digest codec f) ≡ ok e) × (valid_digest f.digest ≡ true)
  stored_event-ok f document d h = (
    unfold decode_event in ground (arith, d),
    unfold decode_event validate_stored_event in ground (arith, d),
  )

  decode_event-ok :
      (document : String) {e : AuditEvent}
      → decode_event codec document ≡ ok e
      → (canonical_digest codec e ≡ ok e.digest) × (valid_digest e.digest ≡ true)
  decode_event-ok document h = elim (Option-cases (codec.decode document)) [
    | inl n ↦ absurd (unfold decode_event in ground (arith, n))
    | inr (f, d) ↦
        let (c, v) = stored_event-ok f document d h in
        let (digested, same) = checked_event-ok f (canonical_digest codec f) c in
        rw (← same) (digested, v)
  ]

  walk-Abstracts :
      (xs : Pairs) (w w' : ChainWalk) (older : List AuditEvent)
      → Abstracts w older
      → for_each_entry (read_event codec) xs w ≡ ok w'
      → Abstracts w' (events_of xs older)
  unfolding events_of
  walk-Abstracts [] w w' older a h = subst (λ x. Abstracts x older) (ground arith) a
  walk-Abstracts ((key, document) ∷ xs) w w' older a h =
      let s = walk_step codec w key document xs h in
      let l = s.reads.links in
      let e = s.reads.event in
      let (digested, shape) = decode_event-ok document s.reads.decoded in
      let next : Abstracts s.next (e ∷ older) =
        subst (λ x. Abstracts x (e ∷ older)) l.moved
          (record {
            chain = (digested, shape, l.previous ∙ a.head, rw (← a.ids) l.fresh, a.chain);
            size = omega (arith, a.size);
            head = refl;
            ids = rw a.ids refl;
          }) in
      rw s.reads.decoded (walk-Abstracts xs s.next w' (e ∷ older) next s.goes_on)

  -- The events that the audit bucket holds, the newest first.
  unfoldable pub audit_events : (bolt : Bolt) → bolt.Tx → List AuditEvent
  unfolding events_of
  audit_events bolt tx = events_of (bolt.entries tx bucket_audit) []

  -- A chain that is read without an error is a chain of its events: every digest is that of its
  -- event, every event names the digest of the one before it, the IDs are distinct, and the state is
  -- the number of events and the newest digest.
  pub read_chain-IsChain :
      (bolt : Bolt) (tx : bolt.Tx) (s : ChainState)
      → read_chain codec bolt tx ≡ ok s
      → IsChain (audit_events bolt tx)
        × (s.next_index ≡ length (audit_events bolt tx))
        × (s.previous_digest ≡ head_digest (audit_events bolt tx))
  unfolding audit_events
  read_chain-IsChain bolt tx s h =
      let (w, walked, same) = read_chain-ok codec bolt tx h in
      let a =
        walk-Abstracts (bolt.entries tx bucket_audit) empty_walk w []
          (record { chain = tt; size = refl; head = refl; ids = refl })
          (walk_chain-ok codec bolt tx walked).passed in
      (
        a.chain,
        ap (λ (t : ChainState). t.next_index) (sym same) ∙ a.size,
        ap (λ (t : ChainState). t.previous_digest) (sym same) ∙ a.head,
      )

  -- Two texts with one digest.
  abbrev pub Collision : Type 0
  Collision = (a : String) × (b : String) × (a ≢ b) × (codec.sha256_hex a ≡ codec.sha256_hex b)

  module _
      (canonical_injective : (x y : CanonicalEvent) (d : String)
        → codec.marshal_canonical x ≡ ok d
        → codec.marshal_canonical y ≡ ok d
        → x ≡ y)
      (time_injective : (s t : ℕ) → codec.format_time s ≡ codec.format_time t → s ≡ t) where
    -- The canonical fields and the digest make up the event.
    fields_same :
        (e f : AuditEvent) (d : String)
        → codec.marshal_canonical (canonical_event codec e) ≡ ok d
        → codec.marshal_canonical (canonical_event codec f) ≡ ok d
        → e.digest ≡ f.digest
        → e ≡ f
    fields_same e f d p q same =
        let c = canonical_injective (canonical_event codec e) (canonical_event codec f) d p q in
        let t =
          time_injective e.occurred_at f.occurred_at
            (ap (λ (x : CanonicalEvent). x.occurred_at) c) in
        cc (c, t, same)

    bytes-ok :
        (e : AuditEvent) {digest : String}
        → canonical_digest codec e ≡ ok digest
        → (d : String) × (codec.marshal_canonical (canonical_event codec e) ≡ ok d)
          × (codec.sha256_hex d ≡ digest)
    bytes-ok e h = elim (Result-cases (codec.marshal_canonical (canonical_event codec e))) [
      | inr (x, m) ↦ absurd (unfold canonical_digest in ground (arith, m))
      | inl (d, m) ↦ (d, m, unfold canonical_digest in ground (arith, m))
    ]

    same_event :
        (e f : AuditEvent)
        → canonical_digest codec e ≡ ok e.digest
        → canonical_digest codec f ≡ ok f.digest
        → e.digest ≡ f.digest
        → (e ≡ f) ⊎ Collision
    same_event e f p q same =
        let (a, m, da) = bytes-ok e p in
        let (b, n, db) = bytes-ok f q in
        elim (Bool-cases (a == b)) [
          | inl x ↦ inl (fields_same e f a m (rw ((eq_iff a b).0 x) n) same)
          | inr x ↦ inr (a, b, λ y. cc (x, (eq_iff a b).1 y), da ∙ same ∙ sym db)
        ]

    same_chain :
        (xs ys : List AuditEvent)
        → IsChain xs
        → IsChain ys
        → head_digest xs ≡ head_digest ys
        → (xs ≡ ys) ⊎ Collision
    same_chain [] [] p q same = inl refl
    same_chain [] (f ∷ ys) p q same = absurd (not_empty f.digest q.1 same)
    same_chain (e ∷ xs) [] p q same = absurd (not_empty e.digest p.1 (sym same))
    same_chain (e ∷ xs) (f ∷ ys) p q same = elim (same_event e f p.0 q.0 same) [
      | inr c ↦ inr c
      | inl s ↦
          let previous = sym p.2 ∙ ap (λ (t : AuditEvent). t.previous_digest) s ∙ q.2 in
          cons_chain (same_chain xs ys p.4 q.4 previous) s
    ]
      where
        cons_chain :
            (xs ≡ ys) ⊎ Collision
            → e ≡ f
            → (◌≡◌ {A = List AuditEvent} (e ∷ xs) (f ∷ ys)) ⊎ Collision
        cons_chain (inl r) s = inl (cc)
        cons_chain (inr c) s = inr c

    -- Tamper evidence: two stores whose chains are both read without an error and end in the same
    -- digest hold the same events, or two different canonical documents with one SHA-256 digest are at
    -- hand. The canonical JSON has to be one text for one event, and so has the time format.
    pub read_chain-tamper_evident :
        (bolt : Bolt) (t u : bolt.Tx) (r s : ChainState)
        → read_chain codec bolt t ≡ ok r
        → read_chain codec bolt u ≡ ok s
        → r.previous_digest ≡ s.previous_digest
        → (audit_events bolt t ≡ audit_events bolt u) ⊎ Collision
    read_chain-tamper_evident bolt t u r s p q same =
        let (a, _, x) = read_chain-IsChain bolt t r p in
        let (b, _, y) = read_chain-IsChain bolt u s q in
        same_chain (audit_events bolt t) (audit_events bolt u) a b (sym x ∙ same ∙ y)
