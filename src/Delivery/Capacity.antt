-- ===== src/Delivery/Capacity.antt =====
-- How many items wait after Enqueue of internal/delivery/delivery.go, and what it leaves in the queue.
use Prim.Native.String.{len}
use pulse_agent.Prelude.{
  ℕ, suc, ◌+◌, ◌≤◌, ◌<◌, String, ◌≡◌, subst, inl, inr, Bool, true, false, length, Option, none,
  some, if◌then◌else◌, arith,
}
use pulse_agent.Prelude.Int.{ℤ, pos, ltb_ℤ, ◌<ℤ◌, max_int64}
use pulse_agent.Prelude.Result.{ok, Result-cases}
use pulse_agent.Contract.{DeliveryQueueItem}
use pulse_agent.Store.{
  Bucket, Bolt, bucket_delivery_queue, check_bucket, get, for_each, for_each_entry,
}
use pulse_agent.Store.Entries.{Pairs, lookup, insert_entry, entries-write, lookup-entries}
use pulse_agent.Recovery.Types.{Codec}
use pulse_agent.Store.Laws.{put-inv}
use pulse_agent.Audit.{AuditCodec}
use pulse_agent.Delivery.Queue.{
  item_key, put_item, load_item, count_pending, webhook_id_in_use, accept_item, is_pending,
  count_entry,
}
use pulse_agent.Delivery.Counting.{weight, count_insert, for_each-count, counted_walk}
use pulse_agent.Delivery.Items.{put_item-ok, decode_item-marshal, load_item-put_item}

module _ (bolt : Bolt) (audit : AuditCodec) (codec : Codec DeliveryQueueItem) where
  open bolt use {Tx, entries, read, has_bucket-write}

  count_pending-walk :
      (tx : Tx) {z : ℤ}
      → count_pending bolt audit codec tx ≡ ok z
      → (check_bucket bolt tx bucket_delivery_queue ≡ ok tt)
        × (for_each_entry (count_entry codec) (entries tx bucket_delivery_queue) (pos 0) ≡ ok z)
  unfolding count_pending for_each
  count_pending-walk tx h = (ground arith, ground arith)

  -- A put changes the number of waiting items by those it adds and replaces.
  pub count_pending-put_item :
      (tx tx' : Tx) (key : String) (item : DeliveryQueueItem) (z : ℤ)
      → ((document : String) → codec.marshal item ≡ ok document → len document ≤ codec.limit)
      → length (entries tx bucket_delivery_queue) < max_int64
      → count_pending bolt audit codec tx ≡ ok z
      → put_item bolt audit codec tx key item ≡ ok tx'
      → (n : ℕ) × (n' : ℕ) × (z ≡ pos n)
        × (count_pending bolt audit codec tx' ≡ ok (pos n'))
        × (n' + weight codec (read tx bucket_delivery_queue key)
            ≡ n + (if is_pending item then 1 else 0))
  count_pending-put_item tx tx' key item z fits few h p =
      let put = put_item-ok bolt audit codec tx key item p in
      let (bucket, walked) = count_pending-walk tx h in
      let decoded =
        decode_item-marshal bolt audit codec item put.document put.marshalled
          (fits put.document put.marshalled) put.valid in
      let (written, _, _, _) =
        put-inv bolt tx tx' bucket_delivery_queue key put.document put.put_ok in
      let (n, listed, small) =
        counted_walk codec (entries tx bucket_delivery_queue) (pos 0) walked in
      let (n', inserted, balance) =
        count_insert codec key put.document item (entries tx bucket_delivery_queue) n
          (bolt.entries-IsOrdered tx bucket_delivery_queue) decoded listed in
      let first =
        for_each-count codec (entries tx bucket_delivery_queue) 0 n listed (omega (arith, small)) in
      let weighed : weight codec (some put.document) ≡ (if is_pending item then 1 else 0) =
        ground (arith, decoded) in
      let after = entries-write bolt tx bucket_delivery_queue key put.document tx' written in
      let last =
        for_each-count codec (insert_entry key put.document (entries tx bucket_delivery_queue)) 0 n'
          inserted
          (small_after n n' (entries tx bucket_delivery_queue) key put.document small few
            balance) in
      (
        n,
        n',
        ground (arith, walked, first),
        unfold count_pending for_each in
            ground (
              arith,
              after,
              last,
              bucket,
              has_bucket-write tx bucket_delivery_queue key put.document tx' bucket_delivery_queue
                  written,
            ),
        rw (← lookup-entries bolt tx bucket_delivery_queue key, ← weighed) balance,
      )
    where
      small_after :
          (n n' : ℕ) (xs : Pairs) (k v : String)
          → n ≤ length xs
          → length xs < max_int64
          → n' + weight codec (lookup k xs) ≡ n + weight codec (some v)
          → 0 + n' ≤ max_int64
      small_after n n' xs k v small few balance = ground (arith)

  record Accepts (tx tx' : Tx) (item : DeliveryQueueItem) (limit : ℤ) : Type 0 where
    waiting : ℤ
    counts : count_pending bolt audit codec tx ≡ ok waiting
    room : ltb_ℤ waiting limit ≡ true
    absent :
        get bolt tx bucket_delivery_queue (item_key bolt audit codec item.delivery_id) ≡ ok none
    unused : webhook_id_in_use bolt audit codec tx item.webhook_id ≡ ok false
    put_ok : put_item bolt audit codec tx (item_key bolt audit codec item.delivery_id) item ≡ ok tx'

  accept_item-ok :
      (tx tx' : Tx) (item : DeliveryQueueItem) (limit : ℤ)
      → accept_item bolt audit codec limit item tx ≡ ok tx'
      → Accepts tx tx' item limit
  accept_item-ok tx tx' item limit h = elim (Result-cases (count_pending bolt audit codec tx)) [
    | inr (x, c) ↦ absurd (unfold accept_item in ground arith)
    | inl (z, c) ↦
        elim (Result-cases
          (get bolt tx bucket_delivery_queue (item_key bolt audit codec item.delivery_id))) [
            | inr (x, g) ↦ absurd (unfold accept_item in ground arith)
            | inl (some d, g) ↦ absurd (unfold accept_item in ground arith)
            | inl (none, g) ↦
                elim (Result-cases (webhook_id_in_use bolt audit codec tx item.webhook_id)) [
                  | inr (x, u) ↦ absurd (unfold accept_item in ground arith)
                  | inl (true, u) ↦ absurd (unfold accept_item in ground arith)
                  | inl (false, u) ↦ record {
                    waiting = z;
                    counts = c;
                    room = unfold accept_item in ground arith;
                    absent = g;
                    unused = u;
                    put_ok = unfold accept_item in ground arith;
                  }
                ]
          ]
  ]

  absent-read : (tx : Tx) (b : Bucket) (k : String) → get bolt tx b k ≡ ok none → read tx b k ≡ none
  unfolding get
  absent-read tx b k h = ground arith

  -- What an accepted item finds, and what it leaves.
  pub record Enqueued (tx : Tx) (item : DeliveryQueueItem) (limit : ℤ) (tx' : Tx) : Type 0 where
    pub waiting : ℕ
    pub before : count_pending bolt audit codec tx ≡ ok (pos waiting)
    pub room : pos waiting <ℤ limit
    pub after : count_pending bolt audit codec tx' ≡ ok (pos (suc waiting))
    pub new_key :
        get bolt tx bucket_delivery_queue (item_key bolt audit codec item.delivery_id) ≡ ok none
    pub new_webhook_id : webhook_id_in_use bolt audit codec tx item.webhook_id ≡ ok false
    pub stored :
        load_item bolt audit codec tx' (item_key bolt audit codec item.delivery_id) ≡ ok item

  pub accept_item-Enqueued :
      (tx tx' : Tx) (item : DeliveryQueueItem) (limit : ℤ)
      → ((document : String) → codec.marshal item ≡ ok document → len document ≤ codec.limit)
      → is_pending item ≡ true
      → length (entries tx bucket_delivery_queue) < max_int64
      → accept_item bolt audit codec limit item tx ≡ ok tx'
      → Enqueued tx item limit tx'
  accept_item-Enqueued tx tx' item limit fits waits few h =
      let a = accept_item-ok tx tx' item limit h in
      let key = item_key bolt audit codec item.delivery_id in
      let (n, n', same, left, balance) =
        count_pending-put_item tx tx' key item a.waiting fits few a.counts a.put_ok in
      let one_more : n' ≡ suc n =
        more n n' (is_pending item) (read tx bucket_delivery_queue key)
          (absent-read tx bucket_delivery_queue key a.absent) balance waits in
      record {
        waiting = n;
        before = rw (← same) a.counts;
        room = ground (arith, a.room, same);
        after = rw (← one_more) left;
        new_key = a.absent;
        new_webhook_id = a.unused;
        stored = load_item-put_item bolt audit codec tx tx' key item fits a.put_ok;
      }
    where
      more :
          (n n' : ℕ) (b : Bool) (r : Option String)
          → r ≡ none
          → n' + weight codec r ≡ n + (if b then 1 else 0)
          → b ≡ true
          → n' ≡ suc n
      more n n' b r e h k =
          let h' = subst (λ x. n' + weight codec x ≡ n + (if b then 1 else 0)) e h in ground arith
