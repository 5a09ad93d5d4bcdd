-- ===== src/Scenarios/Delivering.antt =====
-- One queued delivery, and the theorems on the delivery queue at concrete inputs.

use pulse_agent.Prelude.{
  ℕ, suc, ◌+◌, ◌*◌, ◌^◌, min, ◌<◌, ◌≡◌, refl, ◌⊎◌, true, false, [], ◌∷◌, none, some, length, ◌-◌,
  arith,
}
use native.Mathlib.Decide.{ℕ_discrete}
use pulse_agent.Prelude.Int.{ℤ, pos, ◌≤ℤ◌, ◌<ℤ◌}
use pulse_agent.Prelude.Text.{is_trimmed, contains_nul, trim_space, trim_left, is_space}
use pulse_agent.Prelude.Result.{ok}
use pulse_agent.Contract.{
  DeliveryQueueItem, delivery_payload_lifecycle_event, delivery_pending, delivery_delivered,
  queue_item_validate, valid_delivery_state,
}
use pulse_agent.Store.{bucket_delivery_queue, put, get, update, is_audit}
use pulse_agent.Recovery.Types.{Codec}
use pulse_agent.Audit.{valid_audit_field}
use pulse_agent.Delivery.{
  DispatcherOptions, EnqueueRequest, DeliveryResult, StoredItem, DeliveryDeps, Post, run_mutation,
  is_accepted, retry_plan, dispatcher_now, after_webhook_id, after_delivery_id, enqueue_at, enqueue,
  mark_delivered, after_audit_id, mark_terminal, fail, expire, retry_by, retry_or_fail, valid_token,
  valid_options, find_destination, validate_enqueue_request, double, half, backoff_loop, backoff,
  is_pending, decode_item, count_entry, webhook_entry, item_key, load_document, load_item, put_item,
  count_pending, webhook_id_in_use, pending_entry, pending_items, accept_item, enqueue_tx,
  deliver_current, mark_delivered_tx, schedule_retry_tx, audit_delivery_failure, end_current,
  mark_terminal_tx, after_reply, send_request, after_sign, usable_body, after_payload,
  unless_cancelled, deliver_one, add_result, deliver_next, deliver_items, after_items, due_at,
  deliver_due,
}
use pulse_agent.Delivery.Backoff.{backoff-min, backoff_bounds}
use pulse_agent.Delivery.Capacity.{Enqueued}
use pulse_agent.Delivery.Enqueue.{enqueue-Enqueued}
use pulse_agent.Delivery.Sends.{Sent}
use pulse_agent.Delivery.Due.{deliver_due-sends_due}
use pulse_agent.Delivery.Attempts.{
  Recorded, no_retry, one_more, retry_or_fail-Recorded, RetryRun-bounded,
}
use pulse_agent.Delivery.Blocked.{EndsRound, deliver_items-blocked}
use pulse_agent.Scenarios.Memory.{memory, Pairs, String-discrete}
use pulse_agent.Scenarios.Codecs.{two_codec, marshal_two-len}
use pulse_agent.Scenarios.Auditing.{audit_open, sample_audit}

abbrev pending_item : DeliveryQueueItem
pending_item = record {
  schema_version = "v1";
  delivery_id = "delivery-1";
  payload_type = delivery_payload_lifecycle_event;
  payload_ref = "event-1";
  webhook_id = "webhook-1";
  destination_ref = "operations";
  attempt_count = pos 0;
  next_attempt_at = 1000;
  expires_at = 10000000;
  state = delivery_pending;
}

abbrev delivered_item : DeliveryQueueItem
delivered_item = record pending_item { attempt_count = pos 1; state = delivery_delivered }

abbrev retried_item : DeliveryQueueItem
retried_item = record pending_item { attempt_count = pos 1; next_attempt_at = 1001000 }

unfoldable DeliveryQueueItem-discrete : Discrete DeliveryQueueItem
DeliveryQueueItem-discrete = hlevel (String-discrete, ℕ_discrete)

abbrev item_codec : DeliveryQueueItem → DeliveryQueueItem → Codec DeliveryQueueItem
item_codec a b = two_codec DeliveryQueueItem-discrete a b

abbrev sample_options : DispatcherOptions
sample_options = record {
  destinations = ("operations", "https://example.test/hook") ∷ [];
  max_queue_items = pos 2;
  max_attempts = pos 3;
  initial_backoff = pos 1000000;
  max_backoff = pos 8000000;
  request_timeout = pos 1000000;
  max_payload_bytes = pos 1024;
}

-- The endpoint answers with a status, and the clock reads 1000.
abbrev answering : ℤ → DeliveryDeps
answering status = record {
  Outside = Unit {0};
  clock_now = λ o. (1000, o);
  new_delivery_id = λ o. (ok "delivery-1", o);
  new_webhook_id = λ o. (ok "webhook-1", o);
  new_audit_event_id = λ o. (ok "event-1", o);
  load_payload = λ payload_type payload_ref o. (ok "{}", o);
  context_error = λ o. (none, o);
  send = λ request o.
      (record { status = some status; request_failed = false; close_failed = false }, o);
  sign = λ id t body. ok (record { id = id; timestamp = "0"; signature = "v1" });
  json_valid = λ body. true;
  parse_url = λ endpoint. none;
  request_error = λ endpoint. none;
}

abbrev queued : Pairs
queued =
    (
      bucket_delivery_queue,
      "delivery/0000000000000000000000000000000000000000000000000000000000000000", "one",
    )
    ∷ []

abbrev post_of : Pairs → (deps : DeliveryDeps) → deps.Outside → Post memory deps
post_of db deps o = record { db = db; outside = o; calls = [] }

abbrev sample_request : EnqueueRequest
sample_request = record {
  payload_type = delivery_payload_lifecycle_event;
  payload_ref = "event-1";
  destination_ref = "operations";
  expires_at = 10000000;
}

-- Opens the dispatcher, for evaluation.
delivery_open : Unit {0}
unfolding audit_open is_accepted retry_plan dispatcher_now after_webhook_id after_delivery_id
    enqueue_at enqueue mark_delivered after_audit_id mark_terminal fail expire retry_by
    retry_or_fail valid_token valid_options find_destination validate_enqueue_request double half
    backoff_loop backoff is_pending decode_item count_entry webhook_entry item_key load_document
    load_item put_item count_pending webhook_id_in_use pending_entry pending_items accept_item
    enqueue_tx deliver_current mark_delivered_tx schedule_retry_tx audit_delivery_failure
    end_current mark_terminal_tx after_reply send_request after_sign usable_body after_payload
    unless_cancelled deliver_one add_result deliver_next deliver_items after_items due_at
    deliver_due put get update is_audit queue_item_validate valid_delivery_state is_trimmed
    contains_nul trim_space trim_left is_space DeliveryQueueItem-discrete
delivery_open = tt

-- One request, and the item is delivered.
delivered_once :
    length
      (deliver_due memory sample_audit
        (item_codec pending_item delivered_item)
        (answering (pos 200))
        sample_options
        (post_of queued (answering (pos 200)) tt)).1.calls
    ≡ 1
unfolding delivery_open
delivered_once = refl

deliver_due-sends_due_example :
    Sent memory sample_audit
      (item_codec pending_item delivered_item)
      (answering (pos 200))
      sample_options
      queued
      (post_of queued (answering (pos 200)) tt)
      (deliver_due memory sample_audit
        (item_codec pending_item delivered_item)
        (answering (pos 200))
        sample_options
        (post_of queued (answering (pos 200)) tt)).1
deliver_due-sends_due_example =
    deliver_due-sends_due memory sample_audit (item_codec pending_item delivered_item)
      (answering (pos 200)) sample_options (post_of queued (answering (pos 200)) tt)

options_valid : valid_options sample_options ≡ true
unfolding valid_options
options_valid = refl

backoff-min_example : backoff sample_options (pos (suc 2)) ≡ pos (min (1000000 * 2 ^ 2) 8000000)
backoff-min_example = backoff-min sample_options 2 options_valid (omega arith)

backoff_bounds_example :
    (pos 1000000 ≤ℤ backoff sample_options (pos 5))
    × (backoff sample_options (pos 5) ≤ℤ pos 8000000)
backoff_bounds_example = backoff_bounds sample_options (pos 5) options_valid (omega arith)

enqueued_first :
    (enqueue memory sample_audit
      (item_codec pending_item delivered_item)
      (answering (pos 200))
      sample_options
      sample_request
      none
      (post_of [] (answering (pos 200)) tt)).0
    ≡ ok pending_item
unfolding delivery_open
enqueued_first = refl

few_entries :
    (t : Pairs)
    → run_mutation memory sample_audit (item_codec pending_item delivered_item) none [] ≡ ok t
    → length (memory.entries t bucket_delivery_queue) < 2 ^ 63 - 1
few_entries t h = let same : [] ≡ t = cc h in rw (← same) (unfold delivery_open in omega arith)

enqueue-Enqueued_example :
    (t : Pairs) × (run_mutation memory sample_audit (item_codec pending_item delivered_item) none []
      ≡ ok t)
    × Enqueued memory sample_audit
        (item_codec pending_item delivered_item)
        t
        pending_item
        (pos 2)
        (enqueue memory sample_audit
          (item_codec pending_item delivered_item)
          (answering (pos 200))
          sample_options
          sample_request
          none
          (post_of [] (answering (pos 200)) tt)).1.db
enqueue-Enqueued_example =
    enqueue-Enqueued memory sample_audit (item_codec pending_item delivered_item)
      (answering (pos 200)) sample_options sample_request none (post_of [] (answering (pos 200)) tt)
      pending_item
      (marshal_two-len DeliveryQueueItem-discrete pending_item delivered_item pending_item)
      few_entries enqueued_first

abbrev stored_item : StoredItem
stored_item = record {
  key = "delivery/0000000000000000000000000000000000000000000000000000000000000000";
  item = pending_item;
}

abbrev retried_result : DeliveryResult
retried_result = record {
  item = retried_item;
  sent = false;
  retrying = true;
  reason_code = "endpoint_failed";
}

retried_once :
    (retry_or_fail memory sample_audit
      (item_codec pending_item retried_item)
      (answering (pos 500))
      sample_options
      stored_item
      1000
      "endpoint_failed"
      (post_of queued (answering (pos 500)) tt)).0
    ≡ ok retried_result
unfolding delivery_open
retried_once = refl

retry_or_fail-Recorded_example :
    Recorded memory sample_audit
      (item_codec pending_item retried_item)
      (answering (pos 500))
      sample_options
      stored_item
      1000
      retried_result
retry_or_fail-Recorded_example =
    retry_or_fail-Recorded memory sample_audit (item_codec pending_item retried_item)
      (answering (pos 500)) sample_options stored_item 1000 "endpoint_failed"
      (post_of queued (answering (pos 500)) tt) retried_result retried_once

RetryRun-bounded_example :
    (retried_item.attempt_count ≡ pos (0 + 1)) × ((◌≡◌ {A = ℕ} 1 0) ⊎ (pos (0 + 1) <ℤ pos 3))
RetryRun-bounded_example =
    RetryRun-bounded memory sample_audit (item_codec pending_item retried_item)
      (answering (pos 500)) sample_options stored_item
      (record { key = stored_item.key; item = retried_item }) 1 0
      (one_more 1000 "endpoint_failed" (post_of queued (answering (pos 500)) tt) retried_result
        no_retry retried_once refl)
      refl (omega arith) (omega arith)

-- A blank in the ID: a token of the queue, not a field of the audit chain.
abbrev blank_item : DeliveryQueueItem
blank_item = record pending_item {
  delivery_id = "delivery 1";
  next_attempt_at = 10;
  expires_at = 100;
}

blank_accepted : valid_token "delivery 1" 256 ≡ true
unfolding delivery_open
blank_accepted = refl

blank_loaded :
    load_item memory sample_audit (item_codec blank_item delivered_item) queued stored_item.key
    ≡ ok blank_item
unfolding delivery_open
blank_loaded = refl

blank_refused : valid_audit_field sample_audit "delivery 1" ≡ false
unfolding audit_open
blank_refused = refl

deliver_items-blocked_example :
    EndsRound memory sample_audit
      (item_codec blank_item delivered_item)
      (answering (pos 200))
      sample_options
      (deliver_items memory sample_audit
        (item_codec blank_item delivered_item)
        (answering (pos 200))
        sample_options
        1000
        (record { key = stored_item.key; item = blank_item } ∷ stored_item ∷ []))
      (post_of queued (answering (pos 200)) tt)
deliver_items-blocked_example =
    deliver_items-blocked memory sample_audit (item_codec blank_item delivered_item)
      (answering (pos 200)) sample_options (record { key = stored_item.key; item = blank_item })
      (stored_item ∷ []) 1000 blank_item (post_of queued (answering (pos 200)) tt) blank_loaded refl
      blank_refused refl refl
