-- ===== src/Store/Entries.antt =====
-- The pairs of a bucket as an ordered list: what a write of internal/store/store.go does to a walk.
use pulse_agent.Prelude.{
  ℕ, zero, suc, String, ◌≡◌, ◌≢◌, refl, sym, subst, ap, ◌∙◌, inl, inr, true, false, List, [], ◌∷◌,
  All, Option, none, some, get_elem?, ◌==◌, eq_iff, eq_refl, if◌then◌else◌, Bool-cases,
  Option-cases, arith,
}
use pulse_agent.Prelude.Order.{str_lt, lt_irrefl, lt_trans, lt_cases}
use pulse_agent.Prelude.Result.{ok}
use pulse_agent.Store.Database.{Bucket, Bolt, IsOrdered}

abbrev pub Pairs : Type 0
Pairs = List (String × String)

unfoldable pub lookup : String → Pairs → Option String
lookup k [] = none
lookup k ((j, v) ∷ rest) = let later = lookup k rest in if j == k then some v else later

-- A pair put in its place, over one that has its key.
unfoldable pub insert_entry : String → String → Pairs → Pairs
insert_entry k v [] = (k, v) ∷ []
insert_entry k v ((j, w) ∷ rest) =
    let later = insert_entry k v rest in
    if j == k then (k, v) ∷ rest else if str_lt j k then (j, w) ∷ later else (k, v) ∷ (j, w) ∷ rest

pub lt-ne : (a b : String) → str_lt a b ≡ true → (a == b) ≡ false
lt-ne a b h = elim (Bool-cases (a == b)) [
  | inr e ↦ e
  | inl e ↦ let same = (eq_iff a b).0 e in absurd (cc (h, ap (str_lt a) same, lt_irrefl a))
]

ne-flip : (a b : String) → (a == b) ≡ false → (b == a) ≡ false
ne-flip a b h = ground (arith, eq_iff a b, eq_iff b a)

-- No pair behind a key has the key.
pub lookup-above :
    (k : String) (xs : Pairs) → All (λ q. str_lt k q.0 ≡ true) xs → lookup k xs ≡ none
unfolding lookup
lookup-above k [] a = refl
lookup-above k ((j, v) ∷ rest) a = rw (ne-flip k j (lt-ne k j a.0)) (lookup-above k rest a.1)

pub All-above :
    (i k : String) (xs : Pairs)
    → str_lt i k ≡ true
    → All (λ q. str_lt k q.0 ≡ true) xs
    → All (λ q. str_lt i q.0 ≡ true) xs
All-above i k [] h a = tt
All-above i k ((j, v) ∷ rest) h a = (lt_trans i k j h a.0, All-above i k rest h a.1)

All-insert_entry :
    (i k v : String) (xs : Pairs)
    → str_lt i k ≡ true
    → All (λ q. str_lt i q.0 ≡ true) xs
    → All (λ q. str_lt i q.0 ≡ true) (insert_entry k v xs)
unfolding insert_entry
All-insert_entry i k v [] h a = (h, tt)
All-insert_entry i k v ((j, w) ∷ rest) h a = elim (Bool-cases (j == k)) [
  | inl e ↦ rw e (h, a.1)
  | inr e ↦ elim (Bool-cases (str_lt j k)) [
    | inl f ↦ rw (e, f) (a.0, All-insert_entry i k v rest h a.1)
    | inr f ↦ rw (e, f) (h, a)
  ]
]

pub after-ne : (j k : String) → (j == k) ≡ false → str_lt j k ≡ false → str_lt k j ≡ true
after-ne j k n h = elim (lt_cases j k) [
  | inl e ↦ absurd (cc ((eq_iff j k).1 e, n))
  | inr (inl e) ↦ absurd (cc (e, h))
  | inr (inr e) ↦ e
]

pub insert_entry-IsOrdered :
    (k v : String) (xs : Pairs) → IsOrdered xs → IsOrdered (insert_entry k v xs)
unfolding insert_entry
insert_entry-IsOrdered k v [] o = (tt, tt)
insert_entry-IsOrdered k v ((j, w) ∷ rest) o = elim (Bool-cases (j == k)) [
  | inl e ↦ rw e (rw (← (eq_iff j k).0 e) o.0, o.1)
  | inr e ↦ elim (Bool-cases (str_lt j k)) [
    | inl f ↦ rw (e, f) (All-insert_entry j k v rest f o.0, insert_entry-IsOrdered k v rest o.1)
    | inr f ↦ let g = after-ne j k e f in rw (e, f) ((g, All-above k j rest g o.0), o)
  ]
]

-- A read after a write.
pub lookup-insert_entry :
    (k v i : String) (xs : Pairs)
    → lookup i (insert_entry k v xs) ≡ (if k == i then some v else lookup i xs)
unfolding lookup insert_entry
lookup-insert_entry k v i [] = refl
lookup-insert_entry k v i ((j, w) ∷ rest) =
    ground (arith, eq_iff j k, eq_iff k i, eq_iff j i, lookup-insert_entry k v i rest)

lookup-here : (k v : String) (xs : Pairs) → lookup k ((k, v) ∷ xs) ≡ some v
unfolding lookup
lookup-here k v xs = rw (eq_refl k) refl

-- The tails of two ordered lists that begin alike and answer alike answer alike.
tails_alike :
    (k v w : String) (xs ys : Pairs)
    → All (λ q. str_lt k q.0 ≡ true) xs
    → All (λ q. str_lt k q.0 ≡ true) ys
    → ((i : String) → lookup i ((k, v) ∷ xs) ≡ lookup i ((k, w) ∷ ys))
    → (i : String) → lookup i xs ≡ lookup i ys
unfolding lookup
tails_alike k v w xs ys a b same i = elim (Bool-cases (k == i)) [
  | inl e ↦
      let here = (eq_iff k i).0 e in rw (← here) (lookup-above k xs a ∙ sym (lookup-above k ys b))
  | inr e ↦ ground (arith, same i, e)
]

not_first :
    (k v j w : String) (xs ys : Pairs)
    → str_lt k j ≡ true
    → All (λ q. str_lt j q.0 ≡ true) ys
    → lookup k ((k, v) ∷ xs) ≢ lookup k ((j, w) ∷ ys)
not_first k v j w xs ys h a same =
    cc (lookup-here k v xs, same, lookup-above k ((j, w) ∷ ys) (h, All-above k j ys h a))

same_first :
    (k v w : String) (xs ys : Pairs) → lookup k ((k, v) ∷ xs) ≡ lookup k ((k, w) ∷ ys) → v ≡ w
same_first k v w xs ys same = cc (lookup-here k v xs, lookup-here k w ys, same)

-- Ordered lists that answer alike are the same.
pub ordered_ext :
    (xs ys : Pairs)
    → IsOrdered xs
    → IsOrdered ys
    → ((k : String) → lookup k xs ≡ lookup k ys)
    → xs ≡ ys
ordered_ext [] [] o p same = refl
ordered_ext [] ((j, w) ∷ ys) o p same = absurd (unfold lookup in cc (same j ∙ lookup-here j w ys))
ordered_ext ((k, v) ∷ xs) [] o p same =
    absurd (unfold lookup in cc (sym (same k) ∙ lookup-here k v xs))
ordered_ext ((k, v) ∷ xs) ((j, w) ∷ ys) o p same =
    let later = λ (t : (i : String) → lookup i xs ≡ lookup i ys). ordered_ext xs ys o.1 p.1 t in
    elim (lt_cases k j) [
      | inr (inl e) ↦ absurd (not_first k v j w xs ys e p.0 (same k))
      | inr (inr e) ↦ absurd (not_first j w k v ys xs e o.0 (sym (same j)))
      | inl e ↦ cons_alike k v j w xs ys o.0 p.0 e same later
    ]
  where
    cons_alike :
        (k v j w : String) (xs ys : Pairs)
        → All (λ q. str_lt k q.0 ≡ true) xs
        → All (λ q. str_lt j q.0 ≡ true) ys
        → k ≡ j
        → ((i : String) → lookup i ((k, v) ∷ xs) ≡ lookup i ((j, w) ∷ ys))
        → (((i : String) → lookup i xs ≡ lookup i ys) → xs ≡ ys)
        → ◌≡◌ {A = Pairs} ((k, v) ∷ xs) ((j, w) ∷ ys)
    cons_alike k v j w xs ys a b e same later =
        let b' = subst (λ x. All (λ q. str_lt x q.0 ≡ true) ys) (sym e) b in
        let same' =
          subst (λ x. (i : String) → lookup i ((k, v) ∷ xs) ≡ lookup i ((x, w) ∷ ys)) (sym e)
            same in
        cc (e, same_first k v w xs ys (same' k), later (tails_alike k v w xs ys a b' same'))

-- In an ordered list, what stands at an index is what a lookup finds, and the other way.
pub lookup-at :
    (xs : Pairs) (i : ℕ) (k v : String)
    → IsOrdered xs
    → get_elem? xs i ≡ some (k, v)
    → lookup k xs ≡ some v
lookup-at [] i k v o h = absurd (cc h)
lookup-at ((j, w) ∷ rest) zero k v o h =
    let key : j ≡ k = cc h in let value : w ≡ v = cc h in rw (key, value) (lookup-here k v rest)
lookup-at ((j, w) ∷ rest) (suc i) k v o h = skip j w k v rest (lookup-at rest i k v o.1 h) o.0
  where
    skip :
        (j w k v : String) (rest : Pairs)
        → lookup k rest ≡ some v
        → All (λ q. str_lt j q.0 ≡ true) rest
        → lookup k ((j, w) ∷ rest) ≡ some v
    skip j w k v rest found a = elim (Bool-cases (j == k)) [
      | inr e ↦ unfold lookup in rw e found
      | inl e ↦
          let same = (eq_iff j k).0 e in
          absurd (cc (lookup-above j rest a, found, ap (λ x. lookup x rest) same))
    ]

pub at-lookup :
    (xs : Pairs) (k v : String) → lookup k xs ≡ some v → (i : ℕ) × (get_elem? xs i ≡ some (k, v))
unfolding lookup
at-lookup [] k v h = absurd (cc h)
at-lookup ((j, w) ∷ rest) k v h = elim (Bool-cases (j == k)) [
  | inl e ↦
      let key = (eq_iff j k).0 e in let value : w ≡ v = ground (arith, e, h) in (0, cc (key, value))
  | inr e ↦ let (i, found) = at-lookup rest k v (ground (arith, e, h)) in (suc i, found)
]

module _ (bolt : Bolt) where
  open bolt use {
    Tx, read, write, remove, entries, read-write_self, read-write_ne, read-entries, entries-read,
    entries-IsOrdered,
  }

  -- A walk and the reads agree.
  pub lookup-entries : (t : Tx) (b : Bucket) (k : String) → lookup k (entries t b) ≡ read t b k
  lookup-entries t b k = elim (Option-cases (lookup k (entries t b))) [
    | inr (v, e) ↦
        let (i, found) = at-lookup (entries t b) k v e in e ∙ sym (read-entries t b i k v found)
    | inl e ↦ elim (Option-cases (read t b k)) [
      | inl f ↦ e ∙ sym f
      | inr (v, f) ↦
          let (i, found) = entries-read t b k v f in
          absurd (cc (e, lookup-at (entries t b) i k v (entries-IsOrdered t b) found))
    ]
  ]

  -- A write puts its pair in its place among those of its bucket.
  pub entries-write :
      (t : Tx) (b : Bucket) (k v : String) (t' : Tx)
      → write t b k v ≡ ok t'
      → entries t' b ≡ insert_entry k v (entries t b)
  entries-write t b k v t' h =
      ordered_ext (entries t' b) (insert_entry k v (entries t b)) (entries-IsOrdered t' b)
        (insert_entry-IsOrdered k v (entries t b) (entries-IsOrdered t b))
        (λ i. lookup-entries t' b i ∙ read_after i ∙ sym (lookup-insert_entry k v i (entries t b)))
    where
      read_after : (i : String) → read t' b i ≡ (if k == i then some v else lookup i (entries t b))
      read_after i = elim (Bool-cases (k == i)) [
        | inl e ↦
            let same = (eq_iff k i).0 e in
            rw e (ap (read t' b) (sym same) ∙ read-write_self t b k v t' h)
        | inr e ↦ rw e (
            read-write_ne t b k v t' b i h (inr (λ p. cc (e, (eq_iff k i).1 (sym p))))
            ∙ sym (lookup-entries t b i))
      ]

  -- A write leaves the walk of every other bucket as it was.
  pub entries-write_ne :
      (t : Tx) (b c : Bucket) (k v : String) (t' : Tx)
      → write t b k v ≡ ok t'
      → c ≢ b
      → entries t' c ≡ entries t c
  entries-write_ne t b c k v t' h n =
      ordered_ext (entries t' c) (entries t c) (entries-IsOrdered t' c) (entries-IsOrdered t c)
        (λ i.
          lookup-entries t' c i
          ∙ read-write_ne t b k v t' c i h (inl n)
          ∙ sym (lookup-entries t c i))
