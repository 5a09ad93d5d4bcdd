-- ===== src/Delivery/Due.antt =====
-- What one round of DeliverDue of internal/delivery/delivery.go sends.

use pulse_agent.Prelude.{
  ◌≤◌, ◌<◌, ltb, String, ◌≡◌, refl, true, not, List, [], ◌∷◌, All, Option, none, some,
  if◌then◌else◌, arith,
}
use pulse_agent.Prelude.Result.{Error, Result, ok, err, invalid_options}
use pulse_agent.Contract.{Time, is_zero, DeliveryQueueItem}
use pulse_agent.Store.{Bolt}
use pulse_agent.Recovery.Types.{Codec}
use pulse_agent.Recovery.Coordinator.Deps.{◌>>=◌}
use pulse_agent.Audit.{AuditCodec}
use pulse_agent.Delivery.Types.{
  DispatcherOptions, DeliveryResult, StoredItem, SignedHeaders, WebhookRequest, WebhookReply,
  DeliveryDeps, Post, DueReply,
}
use pulse_agent.Delivery.Options.{find_destination}
use pulse_agent.Delivery.Queue.{pending_items}
use pulse_agent.Delivery.Dispatch.{or_text, is_accepted, ask, post, dispatcher_now, expire}
use pulse_agent.Delivery.Rounds.{
  poll, after_reply, send_request, after_sign, usable_body, after_payload, unless_cancelled,
  deliver_one, add_result, deliver_next, deliver_items, after_items, due_at, deliver_due,
}
use pulse_agent.Delivery.Sends.{
  Waits, Proper, Sent, Action, Sends, Sent-none, Sent-trans, bind-Sends, ask-Sends, if-Sends,
  mark_delivered-Sends, pending_items-Waits, expire-Sends, expire-Sends, retry_or_fail-Sends,
}

module _ (bolt : Bolt) (audit : AuditCodec) (codec : Codec DeliveryQueueItem) (deps : DeliveryDeps)
    (o : DispatcherOptions) (tx : bolt.Tx) where
  open bolt use {Tx, entries, read, read-entries}

  abbrev Silent {ℓ} : {A : Type ℓ} → Action bolt audit codec deps o A → Type 0
  Silent m = Sends bolt audit codec deps o tx m

  after_reply-Sends :
      (s : StoredItem) (now : Time) (reply : WebhookReply) (cancelled : Option Error)
      → Silent (after_reply bolt audit codec deps o s now reply cancelled)
  unfolding after_reply
  after_reply-Sends s now reply (some e) = λ w. Sent-none bolt audit codec deps o tx w w refl
  after_reply-Sends s now reply none =
      if-Sends bolt audit codec deps o tx (not (is_accepted reply)) _ _
        (λ e. retry_or_fail-Sends bolt audit codec deps o tx s now _)
        (λ e. mark_delivered-Sends bolt audit codec deps o tx s now)

  send_request-Sends :
      (s : StoredItem) (now : Time) (request : WebhookRequest) (failure : Option Error)
      → ((db : Tx)
          → Proper bolt audit codec deps o tx
              (record { stored = s; request = request; at = now; store = db }))
      → Silent (send_request bolt audit codec deps o s now request failure)
  unfolding send_request
  send_request-Sends s now request (some e) p w = Sent-none bolt audit codec deps o tx w w refl
  send_request-Sends s now request none p w =
      Sent-trans bolt audit codec deps o tx
        (record { made = _ ∷ []; added = refl; proper = (p w.db, tt) }) (after_send w)
    where
      rest : WebhookReply → Action bolt audit codec deps o (Result DeliveryResult)
      rest reply = poll bolt audit codec deps o >>= after_reply bolt audit codec deps o s now reply

      after_send :
          (w : Post bolt deps)
          → Sent bolt audit codec deps o tx
              (post bolt audit codec deps o s now request w).1
              ((post bolt audit codec deps o s now request >>= rest) w).1
      after_send w =
          bind-Sends bolt audit codec deps o tx (poll bolt audit codec deps o)
            (after_reply bolt audit codec deps o s now
              (post bolt audit codec deps o s now request w).0)
            (ask-Sends bolt audit codec deps o tx deps.context_error)
            (after_reply-Sends s now (post bolt audit codec deps o s now request w).0)
            (post bolt audit codec deps o s now request w).1

  module _ (s : StoredItem) (now : Time) (waits : Waits bolt audit codec deps o tx s)
      (due : s.item.next_attempt_at ≤ now) (alive : now < s.item.expires_at) where
    after_sign-Sends :
        (body : String) (r : Result SignedHeaders)
        → usable_body bolt audit codec deps o body ≡ true
        → deps.sign s.item.webhook_id now body ≡ r
        → Silent (after_sign bolt audit codec deps o s now body r)
    unfolding after_sign
    after_sign-Sends body (err e) u q = λ w. Sent-none bolt audit codec deps o tx w w refl
    after_sign-Sends body (ok headers) u q =
        send_request-Sends s now _
          (deps.request_error (or_text (find_destination o.destinations s.item.destination_ref)))
          (λ db. record {
            waits = waits;
            due = due;
            alive = alive;
            usable = u;
            signed = q;
            endpoint = refl;
          })

    after_payload-Sends :
        (r : Result String) → Silent (after_payload bolt audit codec deps o s now r)
    unfolding after_payload
    after_payload-Sends (err e) = retry_or_fail-Sends bolt audit codec deps o tx s now _
    after_payload-Sends (ok body) =
        if-Sends bolt audit codec deps o tx (not (usable_body bolt audit codec deps o body)) _ _
          (λ e. retry_or_fail-Sends bolt audit codec deps o tx s now _)
          (λ e.
            after_sign-Sends body (deps.sign s.item.webhook_id now body) (ground (arith, e)) refl)

    unless_cancelled-Sends :
        (r : Result String) (cancelled : Option Error)
        → Silent (unless_cancelled bolt audit codec deps o s now r cancelled)
    unfolding unless_cancelled
    unless_cancelled-Sends r (some e) = λ w. Sent-none bolt audit codec deps o tx w w refl
    unless_cancelled-Sends r none = after_payload-Sends r

    deliver_one-Sends : Silent (deliver_one bolt audit codec deps o s now)
    unfolding deliver_one
    deliver_one-Sends =
        bind-Sends bolt audit codec deps o tx
          (ask bolt audit codec deps o (deps.load_payload s.item.payload_type s.item.payload_ref))
          (λ body.
            poll bolt audit codec deps o >>= unless_cancelled bolt audit codec deps o s now body)
          (ask-Sends bolt audit codec deps o tx
            (deps.load_payload s.item.payload_type s.item.payload_ref))
          (λ body.
            bind-Sends bolt audit codec deps o tx (poll bolt audit codec deps o)
              (unless_cancelled bolt audit codec deps o s now body)
              (ask-Sends bolt audit codec deps o tx deps.context_error)
              (unless_cancelled-Sends body))

  add_result-Sends :
      (later : Action bolt audit codec deps o DueReply) (r : Result DeliveryResult)
      → Silent later
      → Silent (add_result bolt audit codec deps o later r)
  unfolding add_result
  add_result-Sends later (err e) l = λ w. Sent-none bolt audit codec deps o tx w w refl
  add_result-Sends later (ok result) l = λ w. l w

  deliver_next-Sends :
      (s : StoredItem) (now : Time) (later : Action bolt audit codec deps o DueReply)
      (cancelled : Option Error)
      → Waits bolt audit codec deps o tx s
      → Silent later
      → Silent (deliver_next bolt audit codec deps o s now later cancelled)
  unfolding deliver_next
  deliver_next-Sends s now later (some e) waits l =
      λ w. Sent-none bolt audit codec deps o tx w w refl
  deliver_next-Sends s now later none waits l =
      if-Sends bolt audit codec deps o tx (not (ltb now s.item.expires_at)) _ _
        (λ e.
          bind-Sends bolt audit codec deps o tx (expire bolt audit codec deps o s now "expired")
            (add_result bolt audit codec deps o later)
            (expire-Sends bolt audit codec deps o tx s now "expired")
            (λ r. add_result-Sends later r l))
        (λ e.
          if-Sends bolt audit codec deps o tx (ltb now s.item.next_attempt_at) _ _ (λ f. l)
            (λ f.
              bind-Sends bolt audit codec deps o tx (deliver_one bolt audit codec deps o s now)
                (add_result bolt audit codec deps o later)
                (deliver_one-Sends s now waits (ground (arith, f)) (ground (arith, e)))
                (λ r. add_result-Sends later r l)))

  deliver_items-Sends :
      (now : Time) (items : List StoredItem)
      → All (Waits bolt audit codec deps o tx) items
      → Silent (deliver_items bolt audit codec deps o now items)
  unfolding deliver_items
  deliver_items-Sends now [] a = λ w. Sent-none bolt audit codec deps o tx w w refl
  deliver_items-Sends now (s ∷ rest) a =
      bind-Sends bolt audit codec deps o tx (poll bolt audit codec deps o)
        (deliver_next bolt audit codec deps o s now
          (deliver_items bolt audit codec deps o now rest))
        (ask-Sends bolt audit codec deps o tx deps.context_error)
        (λ c.
          deliver_next-Sends s now (deliver_items bolt audit codec deps o now rest) c a.0
            (deliver_items-Sends now rest a.1))

  after_items-Sends :
      (now : Time) (r : Result (List StoredItem))
      → pending_items bolt audit codec tx ≡ r
      → Silent (after_items bolt audit codec deps o now r)
  unfolding after_items
  after_items-Sends now (err e) p = λ w. Sent-none bolt audit codec deps o tx w w refl
  after_items-Sends now (ok items) p =
      deliver_items-Sends now items (pending_items-Waits bolt audit codec deps o tx items p)

module _ (bolt : Bolt) (audit : AuditCodec) (codec : Codec DeliveryQueueItem) (deps : DeliveryDeps)
    (o : DispatcherOptions) where
  due_at-Sends :
      (r : Result Time) (w : Post bolt deps)
      → Sent bolt audit codec deps o w.db w (due_at bolt audit codec deps o r w).1
  unfolding due_at
  due_at-Sends (err e) w = Sent-none bolt audit codec deps o w.db w w refl
  due_at-Sends (ok now) w =
      after_items-Sends bolt audit codec deps o w.db now (pending_items bolt audit codec w.db) refl
        w

  -- A round of DeliverDue adds calls of the client to those made before, and each of them is for an
  -- item that the store held as pending when the round began, at a time that has reached its next
  -- attempt and not its expiry, at its configured endpoint, with a body that is not empty, within the
  -- size limit and valid JSON, and with the headers that signing this body for the item's webhook ID at
  -- that time gives.
  pub deliver_due-sends_due :
      (w : Post bolt deps)
      → Sent bolt audit codec deps o w.db w (deliver_due bolt audit codec deps o w).1
  unfolding deliver_due dispatcher_now
  deliver_due-sends_due w =
      let (t, out) = deps.clock_now w.outside in
      Sent-trans bolt audit codec deps o w.db
        (Sent-none bolt audit codec deps o w.db w (record w { outside = out }) refl)
        (due_at-Sends (if is_zero t then err invalid_options else ok t)
          (record w { outside = out }))
