-- ===== src/Delivery/Blocked.antt =====
-- An item that the queue of internal/delivery/delivery.go accepts, and whose end the audit chain of
-- internal/audit/chain.go refuses to record.
use pulse_agent.Prelude.{
  all, ltb, String, ◌≡◌, refl, ap, inl, inr, Bool, true, false, not, List, ◌∷◌, Option, none, some,
  if◌then◌else◌, arith,
}
use pulse_agent.Prelude.Result.{Error, Result, ok, err, invalid_request, Result-cases}
use pulse_agent.Contract.{
  Time, DeliveryQueueItem, DeliveryState, delivery_expired, eq_delivery_state,
}
use pulse_agent.Store.{Bolt, update}
use pulse_agent.Recovery.Types.{Codec}
use pulse_agent.Recovery.Coordinator.Deps.{◌>>=◌, pure}
use pulse_agent.Audit.{
  AuditEvent, AuditCodec, append, audit_fields, valid_audit_field, validate_event_fields,
  read_chain,
}
use pulse_agent.Delivery.Types.{
  DispatcherOptions, DeliveryResult, StoredItem, DeliveryDeps, Post, DueReply,
}
use pulse_agent.Delivery.Options.{valid_token, max_payload_ref_length}
use pulse_agent.Delivery.Queue.{
  load_item, put_item, end_current, delivery_failure, mark_terminal_tx,
}
use pulse_agent.Delivery.Dispatch.{outcome, transact, after_audit_id, mark_terminal, expire}
use pulse_agent.Delivery.Rounds.{stopped, add_result, deliver_next, deliver_items}

all_stops :
    (p : String → Bool) (event : AuditEvent)
    → p event.aggregate_id ≡ false
    → all p (audit_fields event) ≡ false
all_stops p event h = ground arith

module _ (bolt : Bolt) (audit : AuditCodec) (codec : Codec DeliveryQueueItem) where
  open bolt use {Tx}

  fields_refused :
      (event : AuditEvent)
      → valid_audit_field audit event.aggregate_id ≡ false
      → (e : Error) × (validate_event_fields audit event ≡ err e)
  fields_refused event h = elim (Result-cases (validate_event_fields audit event)) [
    | inr found ↦ found
    | inl (u, v) ↦ absurd (
        unfold validate_event_fields in ground (arith, all_stops (valid_audit_field audit) event h))
  ]

  append_refused :
      (event : AuditEvent) (change : Option (Tx → Result Tx)) (tx : Tx)
      → valid_audit_field audit event.aggregate_id ≡ false
      → (e : Error) × (append audit bolt tx event change ≡ err e)
  append_refused event change tx h = elim (Result-cases (append audit bolt tx event change)) [
    | inr found ↦ found
    | inl (a, v) ↦
        let (e, refused) = fields_refused event h in
        elim (Result-cases (read_chain audit bolt tx)) [
          | inr (x, r) ↦ absurd (unfold append in ground arith)
          | inl (s, r) ↦ absurd (unfold append in ground arith)
        ]
  ]

  end_current_refused :
      (key audit_id : String) (now : Time) (state : DeliveryState) (reason : String)
      (current : DeliveryQueueItem) (tx : Tx)
      → valid_audit_field audit current.delivery_id ≡ false
      → (e : Error) × (end_current bolt audit codec key audit_id now state reason current tx false
          ≡ err e)
  end_current_refused key audit_id now state reason current tx h =
      let updated = record current { state = state } in
      let (x, refused) =
        append_refused (delivery_failure audit_id updated now reason)
          (some (λ t. put_item bolt audit codec t key updated)) tx h in
      elim (Result-cases
        (end_current bolt audit codec key audit_id now state reason current tx false)) [
          | inr found ↦ found
          | inl (a, v) ↦ absurd (unfold end_current in ground arith)
        ]

  mark_terminal_tx_refused :
      (key audit_id : String) (now : Time) (state : DeliveryState) (reason : String)
      (current : DeliveryQueueItem) (tx : Tx)
      → load_item bolt audit codec tx key ≡ ok current
      → eq_delivery_state current.state state ≡ false
      → valid_audit_field audit current.delivery_id ≡ false
      → (e : Error) × (mark_terminal_tx bolt audit codec key audit_id now state reason tx ≡ err e)
  mark_terminal_tx_refused key audit_id now state reason current tx l d h =
      let (e, refused) = end_current_refused key audit_id now state reason current tx h in
      (e, unfold mark_terminal_tx in ground arith)

  settled_refused :
      (key audit_id : String) (now : Time) (state : DeliveryState) (reason : String) (tx : Tx)
      (e : Error)
      → mark_terminal_tx bolt audit codec key audit_id now state reason tx ≡ err e
      → update bolt (mark_terminal_tx bolt audit codec key audit_id now state reason) tx
        ≡ (err e, tx)
  settled_refused key audit_id now state reason tx e h = unfold update in rw h refl

  module _ (deps : DeliveryDeps) (o : DispatcherOptions) where
    -- An action that fails and leaves the store and the calls as they were.
    abbrev pub Fails :
        (Post bolt deps → Result DeliveryResult × Post bolt deps) → Post bolt deps → Type 0
    Fails m w = ((e : Error) × ((m w).0 ≡ err e)) × ((m w).1.db ≡ w.db) × ((m w).1.calls ≡ w.calls)

    after_audit_id_refused :
        (s : StoredItem) (now : Time) (state : DeliveryState) (reason : String)
        (current : DeliveryQueueItem) (r : Result String) (w : Post bolt deps)
        → load_item bolt audit codec w.db s.key ≡ ok current
        → eq_delivery_state current.state state ≡ false
        → valid_audit_field audit current.delivery_id ≡ false
        → Fails (after_audit_id bolt audit codec deps o s now state reason r) w
    unfolding after_audit_id
    after_audit_id_refused s now state reason current (err e) w l d h =
        ((invalid_request, refl), refl, refl)
    after_audit_id_refused s now state reason current (ok audit_id) w l d h =
        by_token (not (valid_token audit_id max_payload_ref_length))
      where
        transaction : bolt.Tx → Result DeliveryQueueItem × bolt.Tx
        transaction =
            update bolt (mark_terminal_tx bolt audit codec s.key audit_id now state reason)

        by_token :
            (b : Bool)
            → Fails
                (if b then pure (err invalid_request) else (do
                  updated ← transact bolt audit codec deps o transaction
                  pure (outcome false false reason updated)))
                w
        by_token true = ((invalid_request, refl), refl, refl)
        by_token false =
            let (e, refused) =
              mark_terminal_tx_refused s.key audit_id now state reason current w.db l d h in
            let left = settled_refused s.key audit_id now state reason w.db e refused in
            (
              (
                e,
                ap (λ (t : Result DeliveryQueueItem × bolt.Tx). outcome false false reason t.0)
                    left,
              ),
              ap (λ (t : Result DeliveryQueueItem × bolt.Tx). t.1) left,
              refl,
            )

    expire_refused :
        (s : StoredItem) (now : Time) (reason : String) (current : DeliveryQueueItem)
        (w : Post bolt deps)
        → load_item bolt audit codec w.db s.key ≡ ok current
        → eq_delivery_state current.state delivery_expired ≡ false
        → valid_audit_field audit current.delivery_id ≡ false
        → Fails (expire bolt audit codec deps o s now reason) w
    unfolding expire mark_terminal
    expire_refused s now reason current w l d h =
        after_audit_id_refused s now delivery_expired reason current
          (deps.new_audit_event_id w.outside).0
          (record w { outside = (deps.new_audit_event_id w.outside).1 }) l d h

    -- A round that ends with no result and an error, and leaves the store and the calls as they were.
    abbrev pub EndsRound : (Post bolt deps → DueReply × Post bolt deps) → Post bolt deps → Type 0
    EndsRound m w =
        ((e : Error) × ((m w).0 ≡ stopped e)) × ((m w).1.db ≡ w.db) × ((m w).1.calls ≡ w.calls)

    add_result-EndsRound :
        (m : Post bolt deps → Result DeliveryResult × Post bolt deps)
        (later : Post bolt deps → DueReply × Post bolt deps) (w : Post bolt deps)
        → Fails m w
        → EndsRound (m >>= add_result bolt audit codec deps o later) w
    unfolding add_result
    add_result-EndsRound m later w ((e, failed), db, calls) = rw failed ((e, refl), db, calls)

    deliver_next-EndsRound :
        (s : StoredItem) (now : Time) (current : DeliveryQueueItem)
        (later : Post bolt deps → DueReply × Post bolt deps) (c : Option Error) (w : Post bolt deps)
        → load_item bolt audit codec w.db s.key ≡ ok current
        → eq_delivery_state current.state delivery_expired ≡ false
        → valid_audit_field audit current.delivery_id ≡ false
        → ltb now s.item.expires_at ≡ false
        → c ≡ none
        → EndsRound (deliver_next bolt audit codec deps o s now later c) w
    unfolding deliver_next
    deliver_next-EndsRound s now current later (some e) w l d h late live = absurd (cc live)
    deliver_next-EndsRound s now current later none w l d h late live = rw late (
        add_result-EndsRound (expire bolt audit codec deps o s now "expired") later w
          (expire_refused s now "expired" current w l d h))

    -- An item whose ID the audit chain does not take as a field, though Enqueue accepts it, blocks the
    -- queue once it has expired: every round that comes to it ends there with an error, writes nothing
    -- and sends nothing, neither for it nor for any item behind it.
    pub deliver_items-blocked :
        (s : StoredItem) (rest : List StoredItem) (now : Time) (current : DeliveryQueueItem)
        (w : Post bolt deps)
        → load_item bolt audit codec w.db s.key ≡ ok current
        → eq_delivery_state current.state delivery_expired ≡ false
        → valid_audit_field audit current.delivery_id ≡ false
        → ltb now s.item.expires_at ≡ false
        → (deps.context_error w.outside).0 ≡ none
        → EndsRound (deliver_items bolt audit codec deps o now (s ∷ rest)) w
    unfolding deliver_items
    deliver_items-blocked s rest now current w l d h late live =
        deliver_next-EndsRound s now current (deliver_items bolt audit codec deps o now rest)
          (deps.context_error w.outside).0 (record w { outside = (deps.context_error w.outside).1 })
          l d h late live
