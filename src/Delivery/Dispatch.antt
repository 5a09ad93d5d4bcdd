-- ===== src/Delivery/Dispatch.antt =====
-- Enqueue and DeliverDue of internal/delivery/delivery.go. Each function `after_…` is the part of its
-- caller that follows the step it names; telemetry is left out.

use pulse_agent.Prelude.{
  String, Bool, true, false, not, ◌||◌, ◌∷◌, Option, none, some, if◌then◌else◌, ltb,
}
use pulse_agent.Prelude.Int.{ℤ, pos, inc, ltb_ℤ, leb_ℤ}
use pulse_agent.Prelude.Result.{Result, ok, err, invalid_options, invalid_request, is_ok}
use pulse_agent.Contract.{
  Time, is_zero, add_time, DeliveryQueueItem, DeliveryState, delivery_pending, delivery_expired,
  delivery_failed, schema_version_v1,
}
use pulse_agent.Store.{Bolt, update}
use pulse_agent.Recovery.Types.{Codec}
use pulse_agent.Recovery.Coordinator.Deps.{◌>>=◌, pure}
use pulse_agent.Audit.{AuditCodec}
use pulse_agent.Delivery.Types.{
  DispatcherOptions, EnqueueRequest, DeliveryResult, StoredItem, WebhookRequest, WebhookReply,
  DeliveryDeps, Post,
}
use pulse_agent.Delivery.Options.{
  valid_token, max_payload_ref_length, validate_enqueue_request, backoff,
}
use pulse_agent.Delivery.Queue.{enqueue_tx, mark_delivered_tx, schedule_retry_tx, mark_terminal_tx}

abbrev pub or_text : Option String → String
or_text none = ""
or_text (some s) = s

-- A response in the 200s, and no error from sending or from closing.
unfoldable pub is_accepted : WebhookReply → Bool
is_accepted r = elim r.status [
  | none ↦ false
  | some status ↦
      not (r.request_failed || r.close_failed || ltb_ℤ status (pos 200) || leb_ℤ (pos 300) status)
]

-- What retryOrFail does with an attempt that failed.
pub data RetryPlan : Type 0 where
  give_up lapse : RetryPlan
  try_again : ℤ → Time → RetryPlan

unfoldable pub retry_plan : DispatcherOptions → DeliveryQueueItem → Time → RetryPlan
retry_plan o item now =
    let next_attempt = inc item.attempt_count in
    let next_at = add_time now (backoff o next_attempt) in
    if leb_ℤ o.max_attempts next_attempt
    then give_up
    else if not (ltb next_at item.expires_at)
    then lapse
    else try_again next_attempt next_at

abbrev pub new_item : EnqueueRequest → String → String → Time → DeliveryQueueItem
new_item request delivery_id webhook_id now = record {
  schema_version = schema_version_v1;
  delivery_id = delivery_id;
  payload_type = request.payload_type;
  payload_ref = request.payload_ref;
  webhook_id = webhook_id;
  destination_ref = request.destination_ref;
  attempt_count = pos 0;
  next_attempt_at = now;
  expires_at = request.expires_at;
  state = delivery_pending;
}

-- The result of a transaction that leaves an item.
abbrev pub outcome : Bool → Bool → String → Result DeliveryQueueItem → Result DeliveryResult
outcome sent retrying reason (err e) = err e
outcome sent retrying reason (ok item) =
    ok (record { item = item; sent = sent; retrying = retrying; reason_code = reason })

module _ (bolt : Bolt) (audit : AuditCodec) (codec : Codec DeliveryQueueItem) (deps : DeliveryDeps)
    (o : DispatcherOptions) where
  open bolt use {Tx}
  open deps use {
    Outside, clock_now, new_delivery_id, new_webhook_id, new_audit_event_id, load_payload,
    context_error, send, sign, json_valid, request_error,
  }

  abbrev pub Work {ℓ} : Type ℓ → Type ℓ
  Work A = Post bolt deps → A × Post bolt deps

  -- A call of a dependency, a transaction, and a call of the client.
  abbrev pub ask {ℓ} : {A : Type ℓ} → (Outside → A × Outside) → Work A
  ask f w = let (a, out) = f w.outside in (a, record w { outside = out })

  abbrev pub transact {ℓ} : {A : Type ℓ} → (Tx → A × Tx) → Work A
  transact f w = let (a, tx) = f w.db in (a, record w { db = tx })

  abbrev pub post : StoredItem → Time → WebhookRequest → Work WebhookReply
  post stored now request w =
      let (a, out) = send request w.outside in
      (
        a,
        record w {
          outside = out;
          calls = record { stored = stored; request = request; at = now; store = w.db } ∷ w.calls;
        },
      )

  -- Dispatcher.now
  unfoldable pub dispatcher_now : Work (Result Time)
  dispatcher_now = do t ← ask clock_now; pure (if is_zero t then err invalid_options else ok t)

  unfoldable pub after_webhook_id :
      EnqueueRequest
      → Option (Tx → Result Tx)
      → Time
      → String
      → Result String
      → Work (Result DeliveryQueueItem)
  after_webhook_id request mutation now delivery_id (err e) = pure (err invalid_request)
  after_webhook_id request mutation now delivery_id (ok webhook_id) =
      if not (is_ok (sign webhook_id now ""))
      then pure (err invalid_request)
      else transact (
          update bolt (
            enqueue_tx bolt audit codec o.max_queue_items
              (new_item request delivery_id webhook_id now) mutation))

  unfoldable pub after_delivery_id :
      EnqueueRequest
      → Option (Tx → Result Tx)
      → Time
      → Result String
      → Work (Result DeliveryQueueItem)
  after_delivery_id request mutation now (err e) = pure (err invalid_request)
  after_delivery_id request mutation now (ok delivery_id) =
      if not (valid_token delivery_id max_payload_ref_length)
      then pure (err invalid_request)
      else (do
        webhook_id ← ask new_webhook_id
        after_webhook_id request mutation now delivery_id webhook_id)

  unfoldable pub enqueue_at :
      EnqueueRequest → Option (Tx → Result Tx) → Result Time → Work (Result DeliveryQueueItem)
  enqueue_at request mutation (err e) = pure (err e)
  enqueue_at request mutation (ok now) =
      if not (ltb now request.expires_at) then pure (err invalid_request) else (do
        delivery_id ← ask new_delivery_id
        after_delivery_id request mutation now delivery_id)

  unfoldable pub enqueue :
      EnqueueRequest → Option (Tx → Result Tx) → Work (Result DeliveryQueueItem)
  enqueue request mutation =
      if not (is_ok (validate_enqueue_request request o.destinations))
      then pure (err invalid_request)
      else (do now ← dispatcher_now; enqueue_at request mutation now)

  unfoldable pub mark_delivered : StoredItem → Time → Work (Result DeliveryResult)
  mark_delivered stored now = do
    updated ← transact (update bolt (mark_delivered_tx bolt audit codec stored.key now))
    pure (outcome true false "delivered" updated)

  unfoldable pub after_audit_id :
      StoredItem → Time → DeliveryState → String → Result String → Work (Result DeliveryResult)
  after_audit_id stored now state reason (err e) = pure (err invalid_request)
  after_audit_id stored now state reason (ok audit_id) =
      if not (valid_token audit_id max_payload_ref_length) then pure (err invalid_request) else (do
        updated ←
            transact
              (update bolt (mark_terminal_tx bolt audit codec stored.key audit_id now state reason))
        pure (outcome false false reason updated))

  unfoldable pub mark_terminal :
      StoredItem → Time → DeliveryState → String → Work (Result DeliveryResult)
  mark_terminal stored now state reason = do
    audit_id ← ask new_audit_event_id
    after_audit_id stored now state reason audit_id

  unfoldable pub fail : StoredItem → Time → String → Work (Result DeliveryResult)
  fail stored now reason = mark_terminal stored now delivery_failed reason

  unfoldable pub expire : StoredItem → Time → String → Work (Result DeliveryResult)
  expire stored now reason = mark_terminal stored now delivery_expired reason

  unfoldable pub retry_by : StoredItem → Time → String → RetryPlan → Work (Result DeliveryResult)
  unfolding fail expire
  retry_by stored now reason give_up = fail stored now "attempts_exhausted"
  retry_by stored now reason lapse = expire stored now "expired"
  retry_by stored now reason (try_again next_attempt next_at) = do
    updated ←
        transact (update bolt (schedule_retry_tx bolt audit codec stored.key next_attempt next_at))
    pure (outcome false true reason updated)

  unfoldable pub retry_or_fail : StoredItem → Time → String → Work (Result DeliveryResult)
  unfolding retry_plan retry_by
  retry_or_fail stored now reason = retry_by stored now reason (retry_plan o stored.item now)
