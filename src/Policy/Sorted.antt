-- ===== src/Policy/Sorted.antt =====
-- The order of texts and the sort behind `contains` in internal/policy/policy.go.

use pulse_agent.Prelude.{
  ℕ, zero, suc, ◌≤◌, String, ◌≡◌, refl, ap, ◌∙◌, Bool, false, ◌||◌, List, [], ◌∷◌, some, any, All,
  get_elem?, Bool-cases, inl, inr, arith,
}
use pulse_agent.Prelude.Order.{str_lt, lt_irrefl, le_trans, lt_le}
use pulse_agent.Policy.Search.{insert_sorted, sort_strings}

-- Every element of a list comes no later than those behind it.
abbrev pub IsSorted : List String → Type 0
IsSorted [] = Unit {0}
IsSorted (x ∷ xs) = All (λ y. str_lt y x ≡ false) xs × IsSorted xs

All-weaken :
    (x y : String) (xs : List String)
    → str_lt y x ≡ false
    → All (λ z. str_lt z y ≡ false) xs
    → All (λ z. str_lt z x ≡ false) xs
All-weaken x y [] h a = tt
All-weaken x y (z ∷ zs) h a = (le_trans x y z h a.0, All-weaken x y zs h a.1)

All-insert_sorted :
    (x y : String) (ys : List String)
    → str_lt x y ≡ false
    → All (λ z. str_lt z y ≡ false) ys
    → All (λ z. str_lt z y ≡ false) (insert_sorted x ys)
unfolding insert_sorted
All-insert_sorted x y [] h a = (h, tt)
All-insert_sorted x y (z ∷ zs) h a = elim (Bool-cases (str_lt z x)) [
  | inl e ↦ rw e (a.0, All-insert_sorted x y zs h a.1)
  | inr e ↦ rw e (h, a)
]

insert_sorted-IsSorted :
    (x : String) (ys : List String) → IsSorted ys → IsSorted (insert_sorted x ys)
unfolding insert_sorted
insert_sorted-IsSorted x [] s = (tt, tt)
insert_sorted-IsSorted x (y ∷ ys) s = elim (Bool-cases (str_lt y x)) [
  | inl e ↦ rw e (All-insert_sorted x y ys (lt_le y x e) s.0, insert_sorted-IsSorted x ys s.1)
  | inr e ↦ rw e ((e, All-weaken x y ys e s.0), s)
]

pub sort_strings-IsSorted : (xs : List String) → IsSorted (sort_strings xs)
unfolding sort_strings
sort_strings-IsSorted [] = tt
sort_strings-IsSorted (x ∷ xs) =
    insert_sorted-IsSorted x (sort_strings xs) (sort_strings-IsSorted xs)

any-insert_sorted :
    (p : String → Bool) (x : String) (ys : List String)
    → any p (insert_sorted x ys) ≡ p x || any p ys
unfolding insert_sorted
any-insert_sorted p x [] = refl
any-insert_sorted p x (y ∷ ys) = ground (arith, any-insert_sorted p x ys)

pub any-sort_strings : (p : String → Bool) (xs : List String) → any p (sort_strings xs) ≡ any p xs
unfolding sort_strings
any-sort_strings p [] = refl
any-sort_strings p (x ∷ xs) =
    any-insert_sorted p x (sort_strings xs) ∙ ap (λ b. p x || b) (any-sort_strings p xs)

All-at :
    (x y : String) (xs : List String) (k : ℕ)
    → All (λ z. str_lt z x ≡ false) xs
    → get_elem? xs k ≡ some y
    → str_lt y x ≡ false
All-at x y [] k a h = cc
All-at x y (z ∷ zs) zero a h = cc (h, a.0)
All-at x y (z ∷ zs) (suc k) a h = All-at x y zs k a.1 h

pub sorted_at :
    (x y : String) (a : List String) (k m : ℕ)
    → IsSorted a
    → k ≤ m
    → get_elem? a k ≡ some x
    → get_elem? a m ≡ some y
    → str_lt y x ≡ false
sorted_at x y [] k m s h p q = cc
sorted_at x y (z ∷ zs) zero zero s h p q = cc (p, q, lt_irrefl x)
sorted_at x y (z ∷ zs) zero (suc m) s h p q = All-at x y zs m (cc_all p s.0) q
  where
    cc_all : some z ≡ some x → All (λ w. str_lt w z ≡ false) zs → All (λ w. str_lt w x ≡ false) zs
    cc_all e a = All-weaken x z zs (cc (e, lt_irrefl x)) a
sorted_at x y (z ∷ zs) (suc k) zero s h p q = absurd (omega arith)
sorted_at x y (z ∷ zs) (suc k) (suc m) s h p q = sorted_at x y zs k m s.1 (omega arith) p q
