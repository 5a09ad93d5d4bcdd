-- ===== src/Scenarios/Memory.antt =====
-- A database kept in a list, for the concrete inputs: what the store asks of bbolt can be met.
use pulse_agent.Prelude.{
  ℕ, String, ◌≡◌, refl, sym, ◌∙◌, ◌≢◌, ◌⊎◌, inl, inr, Bool, true, false, ◌&&◌, List, [], ◌∷◌,
  Option, none, some, get_elem?, ◌==◌, eq_iff, eq_refl, if◌then◌else◌, Bool-cases, arith,
}
use pulse_agent.Prelude.Result.{Result, ok}
use pulse_agent.Prelude.Order.{str_lt}
use pulse_agent.Store.{Bucket, Bolt, IsOrdered}
use pulse_agent.Store.Entries.{
  lookup, insert_entry, insert_entry-IsOrdered, lookup-insert_entry, lookup-at, at-lookup,
}

unfoldable pub from_test : (a b : String) (t : Bool) → (a == b) ≡ t → Dec (a ≡ b)
from_test a b true e = yes ((eq_iff a b).0 e)
from_test a b false e = no (λ p. cc (e, (eq_iff a b).1 p))

unfoldable pub String-discrete : Discrete String
unfolding from_test
String-discrete a b = from_test a b (a == b) refl

unfoldable pub Bucket-discrete : Discrete Bucket
Bucket-discrete = hlevel String-discrete

unfoldable pub decided {ℓ} : {A : Type ℓ} → Dec A → Bool
decided (yes a) = true
decided (no n) = false

decided_iff {ℓ} : {A : Type ℓ} (d : Dec A) → (decided d ≡ true) ⊎ ((decided d ≡ false) × ¬ A)
unfolding decided
decided_iff (yes a) = inl refl
decided_iff (no n) = inr (refl, n)

decided-holds {ℓ} : {A : Type ℓ} (d : Dec A) → decided d ≡ true → A
unfolding decided
decided-holds (yes a) h = a
decided-holds (no n) h = absurd (cc h)

abbrev pub Pairs : Type 0
Pairs = List (Bucket × String × String)

unfoldable pub same_place : Bucket → String → Bucket → String → Bool
unfolding decided
same_place b k c j = decided (Bucket-discrete b c) && k == j

same_place-eq :
    (b : Bucket) (k : String) (c : Bucket) (j : String)
    → same_place b k c j ≡ true
    → (b ≡ c) × (k ≡ j)
unfolding same_place
same_place-eq b k c j h =
    (decided-holds (Bucket-discrete b c) (ground arith), (eq_iff k j).0 (ground arith))

same_place_refl : (b : Bucket) (k : String) → same_place b k b k ≡ true
unfolding same_place
same_place_refl b k = elim (decided_iff (Bucket-discrete b b)) [
  | inl e ↦ rw (e, eq_refl k) refl
  | inr (e, n) ↦ absurd (n refl)
]

unfoldable pub read_pairs : Pairs → Bucket → String → Option String
read_pairs [] b k = none
read_pairs ((c, j, v) ∷ rest) b k =
    let later = read_pairs rest b k in if same_place c j b k then some v else later

unfoldable pub remove_pairs : Pairs → Bucket → String → Pairs
remove_pairs [] b k = []
remove_pairs ((c, j, v) ∷ rest) b k =
    let later = remove_pairs rest b k in if same_place c j b k then later else (c, j, v) ∷ later

different-place :
    (b : Bucket) (k : String) (c : Bucket) (j : String)
    → (c ≢ b) ⊎ (j ≢ k)
    → same_place b k c j ≡ false
different-place b k c j n = elim (Bool-cases (same_place b k c j)) [
  | inr e ↦ e
  | inl e ↦
      let (p, q) = same_place-eq b k c j e in
      absurd (elim n [ inl x ↦ x (sym p) | inr y ↦ y (sym q) ])
]

read-remove-same :
    (t : Pairs) (b : Bucket) (k : String) → read_pairs (remove_pairs t b k) b k ≡ none
unfolding read_pairs remove_pairs
read-remove-same [] b k = refl
read-remove-same ((c, j, v) ∷ rest) b k = elim (Bool-cases (same_place c j b k)) [
  | inl e ↦ rw e (read-remove-same rest b k)
  | inr e ↦ rw (e, e) (read-remove-same rest b k)
]

read-remove-other :
    (t : Pairs) (b : Bucket) (k : String) (c : Bucket) (j : String)
    → same_place b k c j ≡ false
    → read_pairs (remove_pairs t b k) c j ≡ read_pairs t c j
unfolding read_pairs remove_pairs
read-remove-other [] b k c j n = refl
read-remove-other ((d, i, v) ∷ rest) b k c j n = elim (Bool-cases (same_place d i b k)) [
  | inr e ↦ elim (Bool-cases (same_place d i c j)) [
    | inl f ↦ rw (e, f) refl
    | inr f ↦ rw (e, f) (read-remove-other rest b k c j n)
  ]
  | inl e ↦
      let (p, q) = same_place-eq d i b k e in rw (e, p, q, n) (read-remove-other rest b k c j n)
]

-- The pairs of a bucket, the later ones over the earlier ones.
unfoldable pub collect : Pairs → Bucket → List (String × String)
collect [] b = []
collect ((c, j, v) ∷ rest) b =
    let later = collect rest b in
    if decided (Bucket-discrete c b) then insert_entry j v later else later

pub collect-IsOrdered : (t : Pairs) (b : Bucket) → IsOrdered (collect t b)
unfolding collect
collect-IsOrdered [] b = tt
collect-IsOrdered ((c, j, v) ∷ rest) b = elim (Bool-cases (decided (Bucket-discrete c b))) [
  | inl e ↦ rw e (insert_entry-IsOrdered j v (collect rest b) (collect-IsOrdered rest b))
  | inr e ↦ rw e (collect-IsOrdered rest b)
]

pub lookup-collect :
    (t : Pairs) (b : Bucket) (k : String) → lookup k (collect t b) ≡ read_pairs t b k
unfolding collect read_pairs same_place
lookup-collect [] b k = unfold lookup in refl
lookup-collect ((c, j, v) ∷ rest) b k = elim (Bool-cases (decided (Bucket-discrete c b))) [
  | inl e ↦ rw (e, lookup-insert_entry j v k (collect rest b), lookup-collect rest b k) refl
  | inr e ↦ rw e (lookup-collect rest b k)
]

pub collect-read :
    (t : Pairs) (b : Bucket) (i : ℕ) (k v : String)
    → get_elem? (collect t b) i ≡ some (k, v)
    → read_pairs t b k ≡ some v
collect-read t b i k v h =
    sym (lookup-collect t b k) ∙ lookup-at (collect t b) i k v (collect-IsOrdered t b) h

pub read-collect :
    (t : Pairs) (b : Bucket) (k v : String)
    → read_pairs t b k ≡ some v
    → (i : ℕ) × (get_elem? (collect t b) i ≡ some (k, v))
read-collect t b k v h = at-lookup (collect t b) k v (lookup-collect t b k ∙ h)

ok-inj : {t s : Pairs} → ◌≡◌ {A = Result Pairs} (ok t) (ok s) → t ≡ s
ok-inj h = cc h

pub memory-write :
    (t : Pairs) (b : Bucket) (k v : String) (t' : Pairs)
    → ◌≡◌ {A = Result Pairs} (ok ((b, k, v) ∷ t)) (ok t')
    → read_pairs t' b k ≡ some v
unfolding read_pairs
memory-write t b k v t' h = rw (← ok-inj h, same_place_refl b k) refl

pub memory-write_ne :
    (t : Pairs) (b : Bucket) (k v : String) (t' : Pairs) (c : Bucket) (j : String)
    → ◌≡◌ {A = Result Pairs} (ok ((b, k, v) ∷ t)) (ok t')
    → (c ≢ b) ⊎ (j ≢ k)
    → read_pairs t' c j ≡ read_pairs t c j
unfolding read_pairs
memory-write_ne t b k v t' c j h n = rw (← ok-inj h, different-place b k c j n) refl

pub memory-remove :
    (t : Pairs) (b : Bucket) (k : String) (t' : Pairs)
    → ◌≡◌ {A = Result Pairs} (ok (remove_pairs t b k)) (ok t')
    → read_pairs t' b k ≡ none
memory-remove t b k t' h = rw (← ok-inj h) (read-remove-same t b k)

pub memory-remove_ne :
    (t : Pairs) (b : Bucket) (k : String) (t' : Pairs) (c : Bucket) (j : String)
    → ◌≡◌ {A = Result Pairs} (ok (remove_pairs t b k)) (ok t')
    → (c ≢ b) ⊎ (j ≢ k)
    → read_pairs t' c j ≡ read_pairs t c j
memory-remove_ne t b k t' c j h n =
    rw (← ok-inj h) (read-remove-other t b k c j (different-place b k c j n))

-- Every bucket exists, and no write fails.
abbrev pub memory : Bolt
memory = record {
  Tx = Pairs;
  has_bucket = λ t b. true;
  read = read_pairs;
  write = λ t b k v. ok ((b, k, v) ∷ t);
  remove = λ t b k. ok (remove_pairs t b k);
  entries = collect;
  commit_error = λ t. none;
  read-write_self = λ t b k v t' h. memory-write t b k v t' h;
  read-write_ne = λ t b k v t' c j h n. memory-write_ne t b k v t' c j h n;
  read-remove_self = λ t b k t' h. memory-remove t b k t' h;
  read-remove_ne = λ t b k t' c j h n. memory-remove_ne t b k t' c j h n;
  has_bucket-write = λ t b k v t' c h. refl;
  has_bucket-remove = λ t b k t' c h. refl;
  read-entries = collect-read;
  entries-read = read-collect;
  entries-IsOrdered = collect-IsOrdered;
}

-- Opens the database, for evaluation.
unfoldable pub memory_open : Unit {0}
unfolding read_pairs remove_pairs collect lookup insert_entry str_lt same_place decided
    Bucket-discrete String-discrete from_test
memory_open = tt
