-- ===== src/Delivery/Rounds.antt =====
-- deliverOne and DeliverDue of internal/delivery/delivery.go. Each function `after_…` is the part of
-- its caller that follows the step it names; telemetry is left out.
use Prim.Native.String.{len}
use pulse_agent.Prelude.{
  String, Bool, not, ◌||◌, List, [], ◌∷◌, Option, none, some, if◌then◌else◌, ltb, eqb,
}
use pulse_agent.Prelude.Int.{pos, ltb_ℤ}
use pulse_agent.Prelude.Result.{Error, Result, ok, err}
use pulse_agent.Contract.{Time, DeliveryQueueItem}
use pulse_agent.Store.{Bolt, view}
use pulse_agent.Recovery.Types.{Codec}
use pulse_agent.Recovery.Coordinator.Deps.{◌>>=◌, pure}
use pulse_agent.Audit.{AuditCodec}
use pulse_agent.Delivery.Types.{
  DispatcherOptions, DeliveryResult, StoredItem, SignedHeaders, WebhookRequest, WebhookReply,
  DeliveryDeps, Post, DueReply,
}
use pulse_agent.Delivery.Options.{find_destination}
use pulse_agent.Delivery.Queue.{pending_items}
use pulse_agent.Delivery.Dispatch.{
  or_text, is_accepted, ask, post, dispatcher_now, mark_delivered, expire, retry_or_fail,
}

abbrev pub stopped : Error → DueReply
stopped e = record { results = []; error = some e }

module _ (bolt : Bolt) (audit : AuditCodec) (codec : Codec DeliveryQueueItem) (deps : DeliveryDeps)
    (o : DispatcherOptions) where
  open deps use {load_payload, context_error, sign, json_valid, request_error}

  abbrev pub W {ℓ} : Type ℓ → Type ℓ
  W A = Post bolt deps → A × Post bolt deps

  abbrev pub poll : W (Option Error)
  poll = ask bolt audit codec deps o context_error

  unfoldable pub after_reply :
      StoredItem → Time → WebhookReply → Option Error → W (Result DeliveryResult)
  after_reply stored now reply (some e) = pure (err e)
  after_reply stored now reply none =
      if not (is_accepted reply)
      then retry_or_fail bolt audit codec deps o stored now "endpoint_failed"
      else mark_delivered bolt audit codec deps o stored now

  unfoldable pub send_request :
      StoredItem → Time → WebhookRequest → Option Error → W (Result DeliveryResult)
  unfolding after_reply
  send_request stored now request (some e) = pure (err e)
  send_request stored now request none = do
    reply ← post bolt audit codec deps o stored now request
    cancelled ← poll
    after_reply stored now reply cancelled

  unfoldable pub after_sign :
      StoredItem → Time → String → Result SignedHeaders → W (Result DeliveryResult)
  unfolding send_request
  after_sign stored now body (err e) = pure (err e)
  after_sign stored now body (ok headers) =
      let endpoint = or_text (find_destination o.destinations stored.item.destination_ref) in
      send_request stored now (record { endpoint = endpoint; body = body; headers = headers })
        (request_error endpoint)

  unfoldable pub usable_body : String → Bool
  usable_body body =
      not (eqb (len body) 0 || ltb_ℤ o.max_payload_bytes (pos (len body)) || not (json_valid body))

  unfoldable pub after_payload : StoredItem → Time → Result String → W (Result DeliveryResult)
  unfolding usable_body after_sign
  after_payload stored now (err e) =
      retry_or_fail bolt audit codec deps o stored now "payload_unavailable"
  after_payload stored now (ok body) =
      if not (usable_body body)
      then retry_or_fail bolt audit codec deps o stored now "payload_unavailable"
      else after_sign stored now body (sign stored.item.webhook_id now body)

  unfoldable pub unless_cancelled :
      StoredItem → Time → Result String → Option Error → W (Result DeliveryResult)
  unfolding after_payload
  unless_cancelled stored now body (some e) = pure (err e)
  unless_cancelled stored now body none = after_payload stored now body

  unfoldable pub deliver_one : StoredItem → Time → W (Result DeliveryResult)
  unfolding unless_cancelled
  deliver_one stored now = do
    body ←
        ask bolt audit codec deps o (load_payload stored.item.payload_type stored.item.payload_ref)
    cancelled ← poll
    unless_cancelled stored now body cancelled

  -- An error ends the round with the results so far.
  unfoldable pub add_result : W DueReply → Result DeliveryResult → W DueReply
  add_result later (err e) = pure (stopped e)
  add_result later (ok result) = do
    reply ← later
    pure (record reply { results = result ∷ reply.results })

  unfoldable pub deliver_next : StoredItem → Time → W DueReply → Option Error → W DueReply
  unfolding add_result deliver_one
  deliver_next stored now later (some e) = pure (stopped e)
  deliver_next stored now later none =
      if not (ltb now stored.item.expires_at)
      then (do
        result ← expire bolt audit codec deps o stored now "expired"
        add_result later result)
      else if ltb now stored.item.next_attempt_at
      then later
      else (do result ← deliver_one stored now; add_result later result)

  -- The loop over the items.
  unfoldable pub deliver_items : Time → List StoredItem → W DueReply
  unfolding deliver_next
  deliver_items now [] = pure (record { results = []; error = none })
  deliver_items now (stored ∷ rest) = do
    cancelled ← poll
    deliver_next stored now (deliver_items now rest) cancelled

  unfoldable pub after_items : Time → Result (List StoredItem) → W DueReply
  unfolding deliver_items
  after_items now (err e) = pure (stopped e)
  after_items now (ok items) = deliver_items now items

  unfoldable pub due_at : Result Time → W DueReply
  unfolding after_items pending_items
  due_at (err e) w = pure (stopped e) w
  due_at (ok now) w = after_items now (view bolt (pending_items bolt audit codec) w.db) w

  unfoldable pub deliver_due : W DueReply
  unfolding due_at
  deliver_due = do now ← dispatcher_now bolt audit codec deps o; due_at now
