-- ===== src/Delivery/Counting.antt =====
-- Counting the waiting items of a list of documents, as countPending of
-- internal/delivery/delivery.go does over the queue's bucket.

use pulse_agent.Prelude.{
  ℕ, ◌+◌, ◌≤◌, String, ◌≡◌, refl, inl, inr, [], ◌∷◌, length, Option, none, some, ◌==◌,
  if◌then◌else◌, Bool-cases, arith,
}
use pulse_agent.Prelude.Order.{str_lt}
use pulse_agent.Prelude.Int.{ℤ, pos, inc, max_int64}
use pulse_agent.Prelude.Result.{Result, ok, err, ◌>>=◌, Result-cases}
use pulse_agent.Contract.{DeliveryQueueItem}
use pulse_agent.Store.{IsOrdered, for_each_entry}
use pulse_agent.Store.Entries.{Pairs, lookup, insert_entry, lookup-above, after-ne, All-above}
use pulse_agent.Recovery.Types.{Codec}
use pulse_agent.Delivery.Queue.{is_pending, decode_item, count_entry}

module _ (codec : Codec DeliveryQueueItem) where
  -- What a document adds to the number of waiting items.
  abbrev pub weight_by : Result DeliveryQueueItem → ℕ
  weight_by (ok item) = if is_pending item then 1 else 0
  weight_by (err e) = 0

  abbrev pub weight : Option String → ℕ
  weight none = 0
  weight (some document) = weight_by (decode_item codec document)

  pub count_list : Pairs → Result ℕ
  count_list [] = ok 0
  count_list ((key, document) ∷ rest) = do
    item ← decode_item codec document
    later ← count_list rest
    ok (weight_by (ok item) + later)

  count_cons :
      (k v : String) (rest : Pairs) (item : DeliveryQueueItem) (c : ℕ)
      → decode_item codec v ≡ ok item
      → count_list rest ≡ ok c
      → count_list ((k, v) ∷ rest) ≡ ok (weight (some v) + c)
  unfolding count_list
  count_cons k v rest item c d h = ground (arith, d, h)

  record Counted (v : String) (rest : Pairs) (c : ℕ) : Type 0 where
    item : DeliveryQueueItem
    later : ℕ
    decoded : decode_item codec v ≡ ok item
    walked : count_list rest ≡ ok later
    total : c ≡ weight (some v) + later

  count_uncons :
      (k v : String) (rest : Pairs) (c : ℕ) → count_list ((k, v) ∷ rest) ≡ ok c → Counted v rest c
  unfolding count_list
  count_uncons k v rest c h = elim (Result-cases (decode_item codec v)) [
    | inr (x, d) ↦ absurd (ground arith)
    | inl (item, d) ↦ elim (Result-cases (count_list rest)) [
      | inr (x, l) ↦ absurd (ground arith)
      | inl (later, l) ↦ record {
        item = item;
        later = later;
        decoded = d;
        walked = l;
        total = ground (arith, d, l, h);
      }
    ]
  ]

  -- A pair put in its place takes the weight of the one it replaces.
  pub count_insert :
      (k v : String) (item : DeliveryQueueItem) (xs : Pairs) (c : ℕ)
      → IsOrdered xs
      → decode_item codec v ≡ ok item
      → count_list xs ≡ ok c
      → (c' : ℕ) × (count_list (insert_entry k v xs) ≡ ok c')
        × (c' + weight (lookup k xs) ≡ c + weight (some v))
  unfolding insert_entry lookup
  count_insert k v item [] c o d h =
      (weight (some v) + c, count_cons k v [] item c d h, omega arith)
  count_insert k v item ((j, w) ∷ rest) c o d h =
      let u = count_uncons j w rest c h in
      let (c', inserted, balance) = count_insert k v item rest u.later o.1 d u.walked in
      elim (Bool-cases (j == k)) [
        | inl e ↦ (
          weight (some v) + u.later,
          rw e (count_cons k v rest item u.later d u.walked),
          rw e (omega (arith, u.total)),
        )
        | inr e ↦ elim (Bool-cases (str_lt j k)) [
          | inl f ↦ (
            weight (some w) + c',
            rw (e, f) (count_cons j w (insert_entry k v rest) u.item c' u.decoded inserted),
            rw e (omega (arith, u.total, balance)),
          )
          | inr f ↦ (
            weight (some v) + c,
            rw (e, f) (count_cons k v ((j, w) ∷ rest) item c d h),
            rw (e, lookup-above k rest (All-above k j rest (after-ne j k e f) o.0)) (omega arith),
          )
        ]
      ]

  -- The walk of countPending adds to its counter.
  pub for_each-count :
      (xs : Pairs) (n c : ℕ)
      → count_list xs ≡ ok c
      → n + c ≤ max_int64
      → for_each_entry (count_entry codec) xs (pos n) ≡ ok (pos (n + c))
  for_each-count [] n c h b = unfold count_list in ground (arith, h)
  for_each-count ((k, v) ∷ rest) n c h b =
      let u = count_uncons k v rest c h in
      for_each-step k v rest n c u b
        (for_each-count rest (n + weight (some v)) u.later u.walked (omega (arith, u.total)))
    where
      for_each-step :
          (k v : String) (rest : Pairs) (n c : ℕ) (u : Counted v rest c)
          → n + c ≤ max_int64
          → for_each_entry (count_entry codec) rest (pos (n + weight (some v)))
            ≡ ok (pos (n + weight (some v) + u.later))
          → for_each_entry (count_entry codec) ((k, v) ∷ rest) (pos n) ≡ ok (pos (n + c))
      for_each-step k v rest n c u b h =
          let total = u.total in
          let d = u.decoded in
          elim (Bool-cases (is_pending u.item)) [
            | inl p ↦ unfold count_entry in ground (arith, d, total, h, p)
            | inr p ↦ unfold count_entry in ground (arith, d, total, h, p)
          ]

  pub counted_walk :
      (xs : Pairs) (z : ℤ) {z' : ℤ}
      → for_each_entry (count_entry codec) xs z ≡ ok z'
      → (c : ℕ) × (count_list xs ≡ ok c) × (c ≤ length xs)
  unfolding count_list
  counted_walk [] z h = (0, refl, omega arith)
  counted_walk ((k, v) ∷ rest) z {z'} h = elim (Result-cases (decode_item codec v)) [
    | inr (x, d) ↦ absurd (unfold count_entry in ground (arith, d))
    | inl (item, d) ↦
        let next : ℤ = if is_pending item then inc z else z in
        let (c, walked, few) =
          counted_walk rest next {z' = z'} (unfold count_entry in ground (arith, d, h)) in
        (weight (some v) + c, count_cons k v rest item c d walked, ground (arith, d))
  ]
