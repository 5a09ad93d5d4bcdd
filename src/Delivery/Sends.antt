-- ===== src/Delivery/Sends.antt =====
-- What DeliverDue of internal/delivery/delivery.go sends: every request is for an item that waits in
-- the store, is due and has not expired.

use mathlib.Core.List.{append_assoc}
use pulse_agent.Prelude.{
  ℕ, suc, ◌≤◌, ◌<◌, String, ◌≡◌, refl, sym, subst, ap, ◌∙◌, inl, inr, Bool, true, false, not, List,
  [], ◌∷◌, ◌++◌, All, get_elem?, some, if◌then◌else◌, Bool-cases, arith,
}
use pulse_agent.Prelude.Result.{Result, ok, err, Result-cases}
use pulse_agent.Contract.{Time, DeliveryQueueItem, DeliveryState}
use pulse_agent.Store.{Bolt, bucket_delivery_queue, for_each, for_each_entry}
use pulse_agent.Store.Entries.{Pairs}
use pulse_agent.Recovery.Types.{Codec}
use pulse_agent.Recovery.Coordinator.Deps.{◌>>=◌, pure}
use pulse_agent.Audit.{AuditCodec}
use pulse_agent.Delivery.Types.{DispatcherOptions, StoredItem, DeliveryDeps, SendCall, Post}
use pulse_agent.Delivery.Options.{find_destination, valid_token, max_payload_ref_length}
use pulse_agent.Delivery.Queue.{is_pending, decode_item, pending_entry, pending_items}
use pulse_agent.Delivery.Dispatch.{
  or_text, ask, mark_delivered, after_audit_id, mark_terminal, expire, RetryPlan, give_up, lapse,
  try_again, retry_plan, retry_by, retry_or_fail,
}
use pulse_agent.Delivery.Rounds.{usable_body}

module _ (bolt : Bolt) (audit : AuditCodec) (codec : Codec DeliveryQueueItem) (deps : DeliveryDeps)
    (o : DispatcherOptions) where
  open bolt use {Tx, entries, read, read-entries}

  abbrev pub Action {ℓ} : Type ℓ → Type ℓ
  Action A = Post bolt deps → A × Post bolt deps

  -- An item that waits in a store, under its key.
  pub record Waits (tx : Tx) (s : StoredItem) : Type 0 where
    pub document : String
    pub stored : read tx bucket_delivery_queue s.key ≡ some document
    pub decoded : decode_item codec document ≡ ok s.item
    pub pending : is_pending s.item ≡ true

  -- A request that may be sent: its item waits and is due, and the body is signed for it.
  pub record Proper (tx : Tx) (c : SendCall bolt) : Type 0 where
    pub waits : Waits tx c.stored
    pub due : c.stored.item.next_attempt_at ≤ c.at
    pub alive : c.at < c.stored.item.expires_at
    pub usable : usable_body bolt audit codec deps o c.request.body ≡ true
    pub signed : deps.sign c.stored.item.webhook_id c.at c.request.body ≡ ok c.request.headers
    pub endpoint :
        c.request.endpoint ≡ or_text (find_destination o.destinations c.stored.item.destination_ref)

  -- The calls that a piece of the round adds are all proper.
  pub record Sent (tx : Tx) (w w' : Post bolt deps) : Type 0 where
    pub made : List (SendCall bolt)
    pub added : w'.calls ≡ made ++ w.calls
    pub proper : All (Proper tx) made

  abbrev pub Sends {ℓ} : {A : Type ℓ} → Tx → Action A → Type 0
  Sends tx m = (w : Post bolt deps) → Sent tx w (m w).1

  All-append {ℓ} :
      {A : Type ℓ} (P : A → Type 0) (xs ys : List A) → All P xs → All P ys → All P (xs ++ ys)
  All-append P [] ys a b = b
  All-append P (x ∷ xs) ys a b = (a.0, All-append P xs ys a.1 b)

  pub Sent-none : (tx : Tx) (w w' : Post bolt deps) → w'.calls ≡ w.calls → Sent tx w w'
  Sent-none tx w w' e = record { made = []; added = e; proper = tt }

  pub Sent-trans : (tx : Tx) {u v w : Post bolt deps} → Sent tx u v → Sent tx v w → Sent tx u w
  Sent-trans tx {u} {v} {w} a b = record {
    made = b.made ++ a.made;
    added =
        b.added
        ∙ ap (λ (t : List (SendCall bolt)). b.made ++ t) a.added
        ∙ sym (append_assoc b.made a.made u.calls);
    proper = All-append (Proper tx) b.made a.made b.proper a.proper;
  }

  pub pure-Sends {ℓ} : {A : Type ℓ} (tx : Tx) (a : A) → Sends tx (pure a)
  pure-Sends tx a w = Sent-none tx w w refl

  pub bind-Sends {ℓ κ} :
      {A : Type ℓ} {B : Type κ} (tx : Tx) (m : Action A) (k : A → Action B)
      → Sends tx m
      → ((a : A) → Sends tx (k a))
      → Sends tx (m >>= k)
  bind-Sends tx m k a b w = Sent-trans tx (a w) (b (m w).0 (m w).1)

  pub ask-Sends {ℓ} :
      {A : Type ℓ} (tx : Tx) (f : deps.Outside → A × deps.Outside)
      → Sends tx (ask bolt audit codec deps o f)
  ask-Sends tx f w = Sent-none tx w _ refl

  pub if-Sends {ℓ} :
      {A : Type ℓ} (tx : Tx) (b : Bool) (m n : Action A)
      → (b ≡ true → Sends tx m)
      → (b ≡ false → Sends tx n)
      → Sends tx (if b then m else n)
  if-Sends tx true m n a c = a refl
  if-Sends tx false m n a c = c refl

  pub mark_delivered-Sends :
      (tx : Tx) (s : StoredItem) (now : Time)
      → Sends tx (mark_delivered bolt audit codec deps o s now)
  unfolding mark_delivered
  mark_delivered-Sends tx s now w = Sent-none tx w _ refl

  after_audit_id-Sends :
      (tx : Tx) (s : StoredItem) (now : Time) (state : DeliveryState) (reason : String)
      (r : Result String)
      → Sends tx (after_audit_id bolt audit codec deps o s now state reason r)
  unfolding after_audit_id
  after_audit_id-Sends tx s now state reason (err e) = λ w. Sent-none tx w w refl
  after_audit_id-Sends tx s now state reason (ok audit_id) =
      if-Sends tx (not (valid_token audit_id max_payload_ref_length)) _ _
        (λ e w. Sent-none tx w w refl) (λ e w. Sent-none tx w _ refl)

  pub mark_terminal-Sends :
      (tx : Tx) (s : StoredItem) (now : Time) (state : DeliveryState) (reason : String)
      → Sends tx (mark_terminal bolt audit codec deps o s now state reason)
  unfolding mark_terminal
  mark_terminal-Sends tx s now state reason =
      bind-Sends tx _ (after_audit_id bolt audit codec deps o s now state reason)
        (ask-Sends tx deps.new_audit_event_id) (after_audit_id-Sends tx s now state reason)

  pub expire-Sends :
      (tx : Tx) (s : StoredItem) (now : Time) (reason : String)
      → Sends tx (expire bolt audit codec deps o s now reason)
  unfolding expire
  expire-Sends tx s now reason = mark_terminal-Sends tx s now _ _

  retry_by-Sends :
      (tx : Tx) (s : StoredItem) (now : Time) (reason : String) (p : RetryPlan)
      → Sends tx (retry_by bolt audit codec deps o s now reason p)
  unfolding retry_by
  retry_by-Sends tx s now reason give_up = mark_terminal-Sends tx s now _ _
  retry_by-Sends tx s now reason lapse = mark_terminal-Sends tx s now _ _
  retry_by-Sends tx s now reason (try_again n t) = λ w. Sent-none tx w _ refl

  pub retry_or_fail-Sends :
      (tx : Tx) (s : StoredItem) (now : Time) (reason : String)
      → Sends tx (retry_or_fail bolt audit codec deps o s now reason)
  unfolding retry_or_fail
  retry_or_fail-Sends tx s now reason = retry_by-Sends tx s now reason (retry_plan o s.item now)

  All-read :
      (tx : Tx) (xs : Pairs)
      → ((i : ℕ) (k v : String)
          → get_elem? xs i ≡ some (k, v)
          → read tx bucket_delivery_queue k ≡ some v)
      → All (λ p. read tx bucket_delivery_queue p.0 ≡ some p.1) xs
  All-read tx [] h = tt
  All-read tx ((k, v) ∷ rest) h = (h 0 k v refl, All-read tx rest (λ i. h (suc i)))

  entry-Waits :
      (tx : Tx) (key document : String) (items items' : List StoredItem)
      → read tx bucket_delivery_queue key ≡ some document
      → pending_entry bolt audit codec items key document ≡ ok items'
      → All (Waits tx) items
      → All (Waits tx) items'
  entry-Waits tx key document items items' r h a =
      elim (Result-cases (decode_item codec document)) [
        | inr (x, d) ↦ absurd (unfold pending_entry in ground arith)
        | inl (item, d) ↦ elim (Bool-cases (is_pending item)) [
          | inr p ↦
              let same : items ≡ items' = unfold pending_entry in ground (arith, p) in
              subst (All (Waits tx)) same a
          | inl p ↦
              let same : items ++ record { key = key; item = item } ∷ [] ≡ items' =
                unfold pending_entry in ground (arith, p) in
              subst (All (Waits tx)) same (
                All-append (Waits tx) items (record { key = key; item = item } ∷ []) a
                  (record { document = document; stored = r; decoded = d; pending = p }, tt))
        ]
      ]

  walk-Waits :
      (tx : Tx) (xs : Pairs) (items items' : List StoredItem)
      → for_each_entry (pending_entry bolt audit codec) xs items ≡ ok items'
      → All (λ p. read tx bucket_delivery_queue p.0 ≡ some p.1) xs
      → All (Waits tx) items
      → All (Waits tx) items'
  walk-Waits tx [] items items' h r a =
      let same : items ≡ items' = ground arith in subst (All (Waits tx)) same a
  walk-Waits tx ((k, v) ∷ rest) items items' h r a =
      elim (Result-cases (pending_entry bolt audit codec items k v)) [
        | inr (x, e) ↦ absurd (ground arith)
        | inl (next, e) ↦
            walk-Waits tx rest next items' (ground arith) r.1
              (entry-Waits tx k v items next r.0 e a)
      ]

  -- The items that a round goes through are those that wait.
  pub pending_items-Waits :
      (tx : Tx) (items : List StoredItem)
      → pending_items bolt audit codec tx ≡ ok items
      → All (Waits tx) items
  unfolding pending_items for_each
  pending_items-Waits tx items h =
      walk-Waits tx (entries tx bucket_delivery_queue) [] items (ground arith)
        (All-read tx (entries tx bucket_delivery_queue) (read-entries tx bucket_delivery_queue)) tt
