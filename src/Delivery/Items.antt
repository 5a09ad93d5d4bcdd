-- ===== src/Delivery/Items.antt =====
-- Items written and read back in the queue of internal/delivery/delivery.go.
use Prim.Native.String.{len}
use pulse_agent.Prelude.{◌≤◌, String, ◌≡◌, inl, inr, true, arith}
use pulse_agent.Prelude.Result.{ok, is_ok, Result-cases}
use pulse_agent.Contract.{DeliveryQueueItem, queue_item_validate}
use pulse_agent.Store.{Bolt, bucket_delivery_queue, put}
use pulse_agent.Recovery.Types.{Codec}
use pulse_agent.Store.Laws.{get-put_self}
use pulse_agent.Audit.{AuditCodec}
use pulse_agent.Delivery.Queue.{put_item, load_item, decode_item}

module _ (bolt : Bolt) (audit : AuditCodec) (codec : Codec DeliveryQueueItem) where
  open bolt use {Tx, entries, read, has_bucket-write}

  -- A put of an item writes its document, which is read back.
  pub record Puts (tx : Tx) (key : String) (item : DeliveryQueueItem) (tx' : Tx) : Type 0 where
    pub document : String
    pub marshalled : codec.marshal item ≡ ok document
    pub valid : is_ok (queue_item_validate item) ≡ true
    pub put_ok : put bolt tx bucket_delivery_queue key document ≡ ok tx'

  pub put_item-ok :
      (tx : Tx) (key : String) (item : DeliveryQueueItem) {tx' : Tx}
      → put_item bolt audit codec tx key item ≡ ok tx'
      → Puts tx key item tx'
  unfolding put_item
  put_item-ok tx key item h = elim (Result-cases (codec.marshal item)) [
    | inr (x, m) ↦ absurd (ground arith)
    | inl (document, m) ↦ record {
      document = document;
      marshalled = m;
      valid = ground arith;
      put_ok = ground arith;
    }
  ]

  pub decode_item-marshal :
      (item : DeliveryQueueItem) (document : String)
      → codec.marshal item ≡ ok document
      → len document ≤ codec.limit
      → is_ok (queue_item_validate item) ≡ true
      → decode_item codec document ≡ ok item
  unfolding decode_item
  decode_item-marshal item document m fits v =
      ground (arith, codec.decode-marshal item document m fits)

  pub load_item-put_item :
      (tx tx' : Tx) (key : String) (item : DeliveryQueueItem)
      → ((document : String) → codec.marshal item ≡ ok document → len document ≤ codec.limit)
      → put_item bolt audit codec tx key item ≡ ok tx'
      → load_item bolt audit codec tx' key ≡ ok item
  load_item-put_item tx tx' key item fits h =
      let p = put_item-ok tx key item h in
      unfold load_item in
      ground (
        arith,
        get-put_self bolt tx tx' bucket_delivery_queue key p.document p.put_ok,
        decode_item-marshal item p.document p.marshalled (fits p.document p.marshalled) p.valid,
      )
