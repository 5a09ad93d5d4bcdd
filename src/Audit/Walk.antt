-- ===== src/Audit/Walk.antt =====
-- What the walk of readChain in internal/audit/chain.go has checked when it ends.
use pulse_agent.Prelude.{
  suc, ◌^◌, ◌≤◌, ◌<◌, eqb, String, ◌≡◌, refl, ap, inl, inr, true, false, [], ◌∷◌, ◌++◌, All, any,
  ◌==◌, eq_iff, arith,
}
use pulse_agent.Prelude.Order.{str_lt}
use pulse_agent.Prelude.Result.{Result, ok, ◌>>=◌, Result-cases}
use pulse_agent.Store.{Bolt, bucket_audit, check_bucket, for_each, for_each_entry}
use pulse_agent.Store.Entries.{Pairs, insert_entry, lt-ne}
use pulse_agent.Audit.Types.{AuditEvent, ChainState, ChainWalk, AuditCodec}
use pulse_agent.Audit.Keys.{event_key, event_key_lt}
use pulse_agent.Audit.Chain.{
  decode_event, link_event, read_event, walk_chain, read_chain, empty_walk, max_uint64,
}

abbrev pub advance : ChainWalk → AuditEvent → ChainWalk
advance w e = record {
  state = record { next_index = suc w.state.next_index; previous_digest = e.digest };
  seen = e.event_id ∷ w.seen;
}

pub record Links (w : ChainWalk) (e : AuditEvent) (w' : ChainWalk) : Type 0 where
  pub previous : e.previous_digest ≡ w.state.previous_digest
  pub fresh : any (λ id. id == e.event_id) w.seen ≡ false
  pub room : eqb w.state.next_index max_uint64 ≡ false
  pub moved : advance w e ≡ w'

pub link_event-ok :
    (w : ChainWalk) (e : AuditEvent) {w' : ChainWalk} → link_event w e ≡ ok w' → Links w e w'
unfolding link_event
link_event-ok w e h = record {
  previous = (eq_iff e.previous_digest w.state.previous_digest).0 (ground arith);
  fresh = ground arith;
  room = ground arith;
  moved = ground arith;
}

-- Two walks over one list after the other.
pub for_each_entry-append {ℓ} :
    {S : Type ℓ} (fn : S → String → String → Result S) (xs ys : Pairs) (s : S)
    → for_each_entry fn (xs ++ ys) s ≡ (for_each_entry fn xs s >>= for_each_entry fn ys)
for_each_entry-append fn [] ys s = refl
for_each_entry-append fn ((k, v) ∷ xs) ys s = elim (Result-cases (fn s k v)) [
  | inl (s', e) ↦ rw e (for_each_entry-append fn xs ys s')
  | inr (x, e) ↦ rw e refl
]

-- A pair with the last key goes to the end.
pub insert_entry-last :
    (k v : String) (xs : Pairs)
    → All (λ q. str_lt q.0 k ≡ true) xs
    → insert_entry k v xs ≡ xs ++ (k, v) ∷ []
unfolding insert_entry
insert_entry-last k v [] a = refl
insert_entry-last k v ((j, w) ∷ xs) a =
    rw (lt-ne j k a.0, a.0) (ap (λ (t : Pairs). (j, w) ∷ t) (insert_entry-last k v xs a.1))

module _ (codec : AuditCodec) where
  pub record Reads (w : ChainWalk) (key document : String) (w' : ChainWalk) : Type 0 where
    pub event : AuditEvent
    pub decoded : decode_event codec document ≡ ok event
    pub in_place : key ≡ event_key w.state.next_index
    pub links : Links w event w'

  pub read_event-ok :
      (w : ChainWalk) (key document : String) {w' : ChainWalk}
      → read_event codec w key document ≡ ok w'
      → Reads w key document w'
  unfolding read_event
  read_event-ok w key document h = elim (Result-cases (decode_event codec document)) [
    | inr (x, e) ↦ absurd (ground arith)
    | inl (event, e) ↦ record {
      event = event;
      decoded = e;
      in_place = (eq_iff key (event_key w.state.next_index)).0 (ground arith);
      links = link_event-ok w event (ground arith);
    }
  ]

  pub record Steps (w : ChainWalk) (key document : String) (rest : Pairs) (w' : ChainWalk)
      : Type 0 where
    pub next : ChainWalk
    pub reads : Reads w key document next
    pub goes_on : for_each_entry (read_event codec) rest next ≡ ok w'

  pub walk_step :
      (w : ChainWalk) (key document : String) (rest : Pairs) {w' : ChainWalk}
      → for_each_entry (read_event codec) ((key, document) ∷ rest) w ≡ ok w'
      → Steps w key document rest w'
  walk_step w key document rest h = elim (Result-cases (read_event codec w key document)) [
    | inr (x, e) ↦ absurd (ground arith)
    | inl (next, e) ↦ record {
      next = next;
      reads = read_event-ok w key document e;
      goes_on = ground arith;
    }
  ]

  pub walk_grows :
      (xs : Pairs) (w w' : ChainWalk)
      → for_each_entry (read_event codec) xs w ≡ ok w'
      → w.state.next_index ≤ w'.state.next_index
  walk_grows [] w w' h = ground arith
  walk_grows ((k, v) ∷ xs) w w' h =
      let s = walk_step w k v xs h in
      let later = walk_grows xs s.next w' s.goes_on in
      let moved = ap (λ (x : ChainWalk). x.state.next_index) s.reads.links.moved in omega arith

  -- The index stays a uint64.
  pub walk_bound :
      (xs : Pairs) (w w' : ChainWalk)
      → for_each_entry (read_event codec) xs w ≡ ok w'
      → w.state.next_index < 2 ^ 64
      → w'.state.next_index < 2 ^ 64
  walk_bound [] w w' h k = ground arith
  walk_bound ((key, v) ∷ xs) w w' h k =
      let s = walk_step w key v xs h in
      let moved = ap (λ (x : ChainWalk). x.state.next_index) s.reads.links.moved in
      walk_bound xs s.next w' s.goes_on (ground (arith, s.reads.links.room))

  -- Every key that the walk has passed comes before that of the next index.
  pub walk-keys :
      (xs : Pairs) (w w' : ChainWalk)
      → for_each_entry (read_event codec) xs w ≡ ok w'
      → w'.state.next_index < 2 ^ 64
      → All (λ q. str_lt q.0 (event_key w'.state.next_index) ≡ true) xs
  walk-keys [] w w' h k = tt
  walk-keys ((key, v) ∷ xs) w w' h k =
      let s = walk_step w key v xs h in
      let later = walk_grows xs s.next w' s.goes_on in
      let moved = ap (λ (x : ChainWalk). x.state.next_index) s.reads.links.moved in
      (
        rw s.reads.in_place (event_key_lt w.state.next_index w'.state.next_index (omega arith) k),
        walk-keys xs s.next w' s.goes_on k,
      )

module _ (codec : AuditCodec) (bolt : Bolt) where
  open bolt use {Tx, entries}

  pub record Walked (tx : Tx) (w : ChainWalk) : Type 0 where
    pub bucket : check_bucket bolt tx bucket_audit ≡ ok tt
    pub passed : for_each_entry (read_event codec) (entries tx bucket_audit) empty_walk ≡ ok w

  pub walk_chain-ok : (tx : Tx) {w : ChainWalk} → walk_chain codec bolt tx ≡ ok w → Walked tx w
  unfolding walk_chain for_each
  walk_chain-ok tx h = record { bucket = ground arith; passed = ground arith }

  pub read_chain-ok :
      (tx : Tx) {s : ChainState}
      → read_chain codec bolt tx ≡ ok s
      → (w : ChainWalk) × (walk_chain codec bolt tx ≡ ok w) × (w.state ≡ s)
  unfolding read_chain
  read_chain-ok tx h = elim (Result-cases (walk_chain codec bolt tx)) [
    | inr (x, e) ↦ absurd (ground arith)
    | inl (w, e) ↦ (w, e, ground arith)
  ]
