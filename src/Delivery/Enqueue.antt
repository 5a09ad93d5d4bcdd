-- ===== src/Delivery/Enqueue.antt =====
-- Enqueue of internal/delivery/delivery.go as a whole: what a success means for the queue.
use Prim.Native.String.{len}
use pulse_agent.Prelude.{
  ◌≤◌, ◌<◌, ltb, String, ◌≡◌, refl, sym, subst, ap, ◌∙◌, inl, inr, Bool, true, false, not, length,
  Option, if◌then◌else◌, arith,
}
use pulse_agent.Prelude.Int.{max_int64}
use pulse_agent.Prelude.Result.{
  Error, Result, ok, err, is_ok, invalid_options, invalid_request, Result-cases,
}
use pulse_agent.Contract.{Time, is_zero, DeliveryQueueItem}
use pulse_agent.Store.{Bolt, bucket_delivery_queue, update}
use pulse_agent.Store.Laws.{update-ok}
use pulse_agent.Recovery.Types.{Codec}
use pulse_agent.Recovery.Coordinator.Deps.{◌>>=◌, pure}
use pulse_agent.Audit.{AuditCodec}
use pulse_agent.Delivery.Types.{DispatcherOptions, EnqueueRequest, DeliveryDeps, Post}
use pulse_agent.Delivery.Options.{validate_enqueue_request, valid_token, max_payload_ref_length}
use pulse_agent.Delivery.Queue.{is_pending, run_mutation, accept_item, enqueue_tx}
use pulse_agent.Delivery.Dispatch.{
  new_item, ask, dispatcher_now, after_webhook_id, after_delivery_id, enqueue_at, enqueue,
}
use pulse_agent.Delivery.Capacity.{Enqueued, accept_item-Enqueued}

module _ (bolt : Bolt) (audit : AuditCodec) (codec : Codec DeliveryQueueItem) (deps : DeliveryDeps)
    (o : DispatcherOptions) (request : EnqueueRequest)
    (mutation : Option (bolt.Tx → Result bolt.Tx)) where
  open bolt use {Tx, entries}

  -- The transaction behind a success.
  record Accepted (before : Tx) (item : DeliveryQueueItem) (after : Tx) : Type 0 where
    waits : is_pending item ≡ true
    transaction :
        enqueue_tx bolt audit codec o.max_queue_items item mutation before ≡ ok (item, after)

  enqueue_tx-item :
      (item : DeliveryQueueItem) (tx tx' : Tx) {item' : DeliveryQueueItem}
      → enqueue_tx bolt audit codec o.max_queue_items item mutation tx ≡ ok (item', tx')
      → item ≡ item'
  enqueue_tx-item item tx tx' h = elim (Result-cases (run_mutation bolt audit codec mutation tx)) [
    | inr (x, m) ↦ absurd (unfold enqueue_tx in ground arith)
    | inl (t, m) ↦ elim (Result-cases (accept_item bolt audit codec o.max_queue_items item t)) [
      | inr (x, a) ↦ absurd (unfold enqueue_tx in ground arith)
      | inl (t', a) ↦ unfold enqueue_tx in ground arith
    ]
  ]

  update-Accepted :
      (now : Time) (delivery_id webhook_id : String) (w : Post bolt deps) {item : DeliveryQueueItem}
      → (update bolt
          (enqueue_tx bolt audit codec o.max_queue_items
            (new_item request delivery_id webhook_id now)
            mutation)
          w.db).0
        ≡ ok item
      → Accepted w.db item
          (update bolt
            (enqueue_tx bolt audit codec o.max_queue_items
              (new_item request delivery_id webhook_id now)
              mutation)
            w.db).1
  update-Accepted now delivery_id webhook_id w {item} h = committed item _ (
      update-ok bolt
        (enqueue_tx bolt audit codec o.max_queue_items (new_item request delivery_id webhook_id now)
          mutation)
        w.db h)
    where
      new_item-pending :
          (now : Time) (delivery_id webhook_id : String)
          → is_pending (new_item request delivery_id webhook_id now) ≡ true
      new_item-pending now delivery_id webhook_id = unfold is_pending in refl

      committed :
          (item : DeliveryQueueItem) (tx' : Tx)
          → enqueue_tx bolt audit codec o.max_queue_items
              (new_item request delivery_id webhook_id now)
              mutation
              w.db
            ≡ ok (item, tx')
          → Accepted w.db item tx'
      committed item tx' t =
          let same = enqueue_tx-item (new_item request delivery_id webhook_id now) w.db tx' t in
          record {
            waits = ap is_pending (sym same) ∙ new_item-pending now delivery_id webhook_id;
            transaction =
                subst
                  (λ x.
                    enqueue_tx bolt audit codec o.max_queue_items x mutation w.db ≡ ok (item, tx'))
                  same t;
          }

  -- An action whose success is that of one transaction.
  abbrev Commits : (Post bolt deps → Result DeliveryQueueItem × Post bolt deps) → Type 0
  Commits m =
      (w : Post bolt deps) (item : DeliveryQueueItem)
      → (m w).0 ≡ ok item
      → Accepted w.db item (m w).1.db

  guard-Commits :
      (e : Error) (bad : Bool) (m : Post bolt deps → Result DeliveryQueueItem × Post bolt deps)
      → Commits m
      → Commits (if bad then pure (err e) else m)
  guard-Commits e true m c w item h = absurd (cc h)
  guard-Commits e false m c w item h = c w item h

  ask-Commits {ℓ} :
      {A : Type ℓ} (f : deps.Outside → A × deps.Outside)
      (k : A → Post bolt deps → Result DeliveryQueueItem × Post bolt deps)
      → ((a : A) → Commits (k a))
      → Commits (ask bolt audit codec deps o f >>= k)
  ask-Commits f k c w item h = c (f w.outside).0 (record w { outside = (f w.outside).1 }) item h

  after_webhook_id-Commits :
      (now : Time) (delivery_id : String) (r : Result String)
      → Commits (after_webhook_id bolt audit codec deps o request mutation now delivery_id r)
  unfolding after_webhook_id
  after_webhook_id-Commits now delivery_id (err e) = λ w item h. absurd (cc h)
  after_webhook_id-Commits now delivery_id (ok webhook_id) =
      guard-Commits invalid_request (not (is_ok (deps.sign webhook_id now ""))) _
        (λ w item h. update-Accepted now delivery_id webhook_id w h)

  after_delivery_id-Commits :
      (now : Time) (r : Result String)
      → Commits (after_delivery_id bolt audit codec deps o request mutation now r)
  unfolding after_delivery_id
  after_delivery_id-Commits now (err e) = λ w item h. absurd (cc h)
  after_delivery_id-Commits now (ok delivery_id) =
      guard-Commits invalid_request (not (valid_token delivery_id max_payload_ref_length)) _ (
        ask-Commits deps.new_webhook_id
          (after_webhook_id bolt audit codec deps o request mutation now delivery_id)
          (after_webhook_id-Commits now delivery_id))

  enqueue_at-Commits :
      (r : Result Time) → Commits (enqueue_at bolt audit codec deps o request mutation r)
  unfolding enqueue_at
  enqueue_at-Commits (err e) = λ w item h. absurd (cc h)
  enqueue_at-Commits (ok now) = guard-Commits invalid_request (not (ltb now request.expires_at)) _ (
      ask-Commits deps.new_delivery_id
        (after_delivery_id bolt audit codec deps o request mutation now)
        (after_delivery_id-Commits now))

  now-Commits :
      (k : Result Time → Post bolt deps → Result DeliveryQueueItem × Post bolt deps)
      → ((r : Result Time) → Commits (k r))
      → Commits (dispatcher_now bolt audit codec deps o >>= k)
  unfolding dispatcher_now
  now-Commits k c w item h =
      let (t, out) = deps.clock_now w.outside in
      c (if is_zero t then err invalid_options else ok t) (record w { outside = out }) item h

  enqueue-Commits : Commits (enqueue bolt audit codec deps o request mutation)
  unfolding enqueue
  enqueue-Commits =
      guard-Commits invalid_request (not (is_ok (validate_enqueue_request request o.destinations)))
        _ (now-Commits (enqueue_at bolt audit codec deps o request mutation) enqueue_at-Commits)

  -- Enqueue succeeds only below the queue's bound: it adds exactly one waiting item to those that the
  -- mutation leaves, under a key and a webhook ID that no item has, and the item is read back from its
  -- key. Its document has to fit the decoder's size limit, and the queue has to hold fewer documents
  -- than an int counts.
  pub enqueue-Enqueued :
      (w : Post bolt deps) (item : DeliveryQueueItem)
      → ((document : String) → codec.marshal item ≡ ok document → len document ≤ codec.limit)
      → ((t : Tx)
          → run_mutation bolt audit codec mutation w.db ≡ ok t
          → length (entries t bucket_delivery_queue) < max_int64)
      → (enqueue bolt audit codec deps o request mutation w).0 ≡ ok item
      → (t : Tx) × (run_mutation bolt audit codec mutation w.db ≡ ok t)
        × Enqueued bolt audit codec t item o.max_queue_items
            (enqueue bolt audit codec deps o request mutation w).1.db
  enqueue-Enqueued w item fits few h =
      accepted-Enqueued w item fits few _ (enqueue-Commits w item h)
    where
      accepted-Enqueued :
          (w : Post bolt deps) (item : DeliveryQueueItem)
          → ((document : String) → codec.marshal item ≡ ok document → len document ≤ codec.limit)
          → ((t : Tx)
              → run_mutation bolt audit codec mutation w.db ≡ ok t
              → length (entries t bucket_delivery_queue) < max_int64)
          → (tx' : Tx) → Accepted w.db item tx'
          → (t : Tx) × (run_mutation bolt audit codec mutation w.db ≡ ok t)
            × Enqueued bolt audit codec t item o.max_queue_items tx'
      accepted-Enqueued w item fits few tx' a =
          let h = a.transaction in
          elim (Result-cases (run_mutation bolt audit codec mutation w.db)) [
            | inr (x, m) ↦ absurd (unfold enqueue_tx in ground arith)
            | inl (t, m) ↦
                let accepted : accept_item bolt audit codec o.max_queue_items item t ≡ ok tx' =
                  accepted_tx item t tx' m h in
                (
                  t,
                  m,
                  accept_item-Enqueued bolt audit codec t tx' item o.max_queue_items fits a.waits
                      (few t m) accepted,
                )
          ]
        where
          accepted_tx :
              (item : DeliveryQueueItem) (t tx' : Tx)
              → run_mutation bolt audit codec mutation w.db ≡ ok t
              → enqueue_tx bolt audit codec o.max_queue_items item mutation w.db ≡ ok (item, tx')
              → accept_item bolt audit codec o.max_queue_items item t ≡ ok tx'
          accepted_tx item t tx' m h =
              elim (Result-cases (accept_item bolt audit codec o.max_queue_items item t)) [
                | inr (x, a) ↦ absurd (unfold enqueue_tx in ground arith)
                | inl (t', a) ↦ unfold enqueue_tx in ground arith
              ]
