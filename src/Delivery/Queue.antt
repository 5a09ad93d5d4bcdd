-- ===== src/Delivery/Queue.antt =====
-- The transactions of internal/delivery/delivery.go on the delivery queue's bucket.
use Prim.Native.String
use pulse_agent.Prelude.{
  String, Bool, true, false, not, ◌||◌, ◌==◌, List, [], ◌∷◌, ◌++◌, Option, none, some,
  if◌then◌else◌, ltb,
}
use pulse_agent.Prelude.Int.{ℤ, pos, inc, ltb_ℤ}
use pulse_agent.Prelude.Result.{
  Result, ok, err, queue_full, delivery_conflict, corrupt_queue, ◌>>=◌, ◌>>◌, fail_if, or_error,
  is_ok,
}
use pulse_agent.Contract.{
  Time, DeliveryQueueItem, DeliveryState, delivery_pending, delivery_delivered, eq_delivery_state,
  queue_item_validate, schema_version_v1,
}
use pulse_agent.Store.{Bolt, bucket_delivery_queue, put, get, for_each}
use pulse_agent.Recovery.Types.{Codec}
use pulse_agent.Audit.{AuditEvent, AuditCodec, append}
use pulse_agent.Delivery.Types.{StoredItem}
use pulse_agent.Delivery.Options.{is_some}

abbrev pub queue_key_prefix : String
queue_key_prefix = "delivery/"

unfoldable pub is_pending : DeliveryQueueItem → Bool
is_pending item = eq_delivery_state item.state delivery_pending

-- The audit event of a delivery that ends without success.
abbrev pub delivery_failure : String → DeliveryQueueItem → Time → String → AuditEvent
delivery_failure audit_id item now reason = record {
  schema_version = schema_version_v1;
  event_id = audit_id;
  aggregate_type = "delivery";
  aggregate_id = item.delivery_id;
  actor_identity = "system";
  action = "delivery.failed";
  result = "failed";
  reason_code = reason;
  occurred_at = now;
  previous_digest = "";
  digest = "";
}

module _ (codec : Codec DeliveryQueueItem) where
  unfoldable pub decode_item : String → Result DeliveryQueueItem
  decode_item document = do
    item ← or_error (codec.decode document) corrupt_queue
    fail_if (not (is_ok (queue_item_validate item))) corrupt_queue
    ok item

  unfoldable pub count_entry : ℤ → String → String → Result ℤ
  unfolding decode_item is_pending
  count_entry pending key document = do
    item ← decode_item document
    ok (if is_pending item then inc pending else pending)

  unfoldable pub webhook_entry : String → Bool → String → String → Result Bool
  unfolding decode_item
  webhook_entry webhook_id in_use key document = do
    item ← decode_item document
    ok (if item.webhook_id == webhook_id then true else in_use)

module _ (bolt : Bolt) (audit : AuditCodec) (codec : Codec DeliveryQueueItem) where
  open bolt use {Tx}

  unfoldable pub item_key : String → String
  item_key delivery_id = String.◌++◌ queue_key_prefix (audit.sha256_hex delivery_id)

  unfoldable pub load_document : Option String → Result DeliveryQueueItem
  unfolding decode_item
  load_document none = err corrupt_queue
  load_document (some document) = decode_item codec document

  unfoldable pub load_item : Tx → String → Result DeliveryQueueItem
  unfolding load_document
  load_item tx key = do document ← get bolt tx bucket_delivery_queue key; load_document document

  unfoldable pub put_item : Tx → String → DeliveryQueueItem → Result Tx
  unfolding item_key
  put_item tx key item = do
    fail_if (not (item_key item.delivery_id == key) || not (is_ok (queue_item_validate item)))
        corrupt_queue
    document ← codec.marshal item
    put bolt tx bucket_delivery_queue key document

  unfoldable pub count_pending : Tx → Result ℤ
  unfolding count_entry
  count_pending tx = for_each bolt tx bucket_delivery_queue (count_entry codec) (pos 0)

  unfoldable pub webhook_id_in_use : Tx → String → Result Bool
  unfolding webhook_entry
  webhook_id_in_use tx webhook_id =
      for_each bolt tx bucket_delivery_queue (webhook_entry codec webhook_id) false

  unfoldable pub pending_entry : List StoredItem → String → String → Result (List StoredItem)
  unfolding decode_item item_key is_pending
  pending_entry items key document = do
    item ← decode_item codec document
    fail_if (not (item_key item.delivery_id == key)) corrupt_queue
    ok (if is_pending item then items ++ record { key = key; item = item } ∷ [] else items)

  unfoldable pub pending_items : Tx → Result (List StoredItem)
  unfolding pending_entry
  pending_items tx = for_each bolt tx bucket_delivery_queue pending_entry []

  -- The mutation that enqueue is given, if any.
  abbrev pub run_mutation : Option (Tx → Result Tx) → Tx → Result Tx
  run_mutation none tx = ok tx
  run_mutation (some mutation) tx = mutation tx

  -- The callback of enqueue after the mutation.
  unfoldable pub accept_item : ℤ → DeliveryQueueItem → Tx → Result Tx
  unfolding count_pending webhook_id_in_use put_item
  accept_item max_queue_items item tx = do
    pending ← count_pending tx
    fail_if (not (ltb_ℤ pending max_queue_items)) queue_full
    existing ← get bolt tx bucket_delivery_queue (item_key item.delivery_id)
    fail_if (is_some existing) delivery_conflict
    in_use ← webhook_id_in_use tx item.webhook_id
    fail_if in_use delivery_conflict
    put_item tx (item_key item.delivery_id) item

  unfoldable pub enqueue_tx :
      ℤ → DeliveryQueueItem → Option (Tx → Result Tx) → Tx → Result (DeliveryQueueItem × Tx)
  unfolding accept_item
  enqueue_tx max_queue_items item mutation tx = do
    tx' ← run_mutation mutation tx
    tx'' ← accept_item max_queue_items item tx'
    ok (item, tx'')

  -- The callback of markDelivered, by whether the item is delivered already.
  unfoldable pub deliver_current :
      String → Time → DeliveryQueueItem → Tx → Bool → Result (DeliveryQueueItem × Tx)
  unfolding put_item is_pending
  deliver_current key now current tx true = ok (current, tx)
  deliver_current key now current tx false = do
    fail_if (not (is_pending current) || not (ltb now current.expires_at)) corrupt_queue
    let updated = record current {
      attempt_count = inc current.attempt_count;
      state = delivery_delivered;
    }
    tx' ← put_item tx key updated
    ok (updated, tx')

  unfoldable pub mark_delivered_tx : String → Time → Tx → Result (DeliveryQueueItem × Tx)
  unfolding load_item deliver_current
  mark_delivered_tx key now tx = do
    current ← load_item tx key
    deliver_current key now current tx (eq_delivery_state current.state delivery_delivered)

  -- The callback that schedules a retry.
  unfoldable pub schedule_retry_tx : String → ℤ → Time → Tx → Result (DeliveryQueueItem × Tx)
  unfolding load_item put_item is_pending
  schedule_retry_tx key next_attempt next_at tx = do
    current ← load_item tx key
    fail_if (not (is_pending current)) corrupt_queue
    let updated = record current { attempt_count = next_attempt; next_attempt_at = next_at }
    tx' ← put_item tx key updated
    ok (updated, tx')

  unfoldable pub audit_delivery_failure :
      String → DeliveryQueueItem → Time → String → (Tx → Result Tx) → Tx → Result Tx
  audit_delivery_failure audit_id item now reason change tx = do
    appended ← append audit bolt tx (delivery_failure audit_id item now reason) (some change)
    ok appended.1

  -- The callback of markTerminal, by whether the item is in that state already.
  unfoldable pub end_current :
      String
      → String
      → Time
      → DeliveryState
      → String
      → DeliveryQueueItem
      → Tx
      → Bool
      → Result (DeliveryQueueItem × Tx)
  unfolding put_item is_pending audit_delivery_failure
  end_current key audit_id now state reason current tx true = ok (current, tx)
  end_current key audit_id now state reason current tx false = do
    fail_if (not (is_pending current)) corrupt_queue
    let updated = record current { state = state }
    tx' ← audit_delivery_failure audit_id updated now reason (λ t. put_item t key updated) tx
    ok (updated, tx')

  unfoldable pub mark_terminal_tx :
      String → String → Time → DeliveryState → String → Tx → Result (DeliveryQueueItem × Tx)
  unfolding load_item end_current
  mark_terminal_tx key audit_id now state reason tx = do
    current ← load_item tx key
    end_current key audit_id now state reason current tx (eq_delivery_state current.state state)
