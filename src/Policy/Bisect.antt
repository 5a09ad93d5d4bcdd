-- ===== src/Policy/Bisect.antt =====
-- The bisection of `contains` in internal/policy/policy.go against a plain walk of the list.

use pulse_agent.Prelude.{
  ℕ, zero, suc, ◌+◌, ◌-◌, ◌/◌, ◌≤◌, ◌<◌, String, ◌≡◌, refl, ap, ◌∙◌, true, false, not, List, [],
  ◌∷◌, none, some, ltb, ◌==◌, eq_iff, any, length, get_elem?, Bool-cases, Option-cases, dec_lt,
  eq_refl, inl, inr, arith,
}
use pulse_agent.Policy.Search.{
  sort_strings, not_below, search_loop, search_strings, holds_at, found_at, contains,
}
use pulse_agent.Policy.Sorted.{IsSorted, sort_strings-IsSorted, any-sort_strings, sorted_at}
use pulse_agent.Prelude.Order.{str_lt, lt_irrefl, le_lt_trans, le_trans, le_antisym}

-- `r` splits a sorted list: below it all come before `want`, and from it on none does.
record Splits (a : List String) (want : String) (r : ℕ) : Type 0 where
  below : (k : ℕ) (x : String) → k < r → get_elem? a k ≡ some x → str_lt x want ≡ true
  above : (k : ℕ) (x : String) → r ≤ k → get_elem? a k ≡ some x → str_lt x want ≡ false

get_inside : (a : List String) (h : ℕ) → h < length a → (y : String) × (get_elem? a h ≡ some y)
get_inside [] h lt = absurd (omega arith)
get_inside (y ∷ ys) zero lt = (y, refl)
get_inside (y ∷ ys) (suc h) lt = get_inside ys h (omega arith)

not_below-at :
    (a : List String) (want y : String) (h : ℕ)
    → get_elem? a h ≡ some y
    → not_below a want h ≡ not (str_lt y want)
unfolding not_below
not_below-at a want y h e = rw (e, not_below) refl

module _ (a : List String) (want : String) (s : IsSorted a) where
  abbrev Below : ℕ → Type 0
  Below i = (k : ℕ) (x : String) → k < i → get_elem? a k ≡ some x → str_lt x want ≡ true

  abbrev Above : ℕ → Type 0
  Above j = (k : ℕ) (x : String) → j ≤ k → get_elem? a k ≡ some x → str_lt x want ≡ false

  Below-next : (h : ℕ) → h < length a → not_below a want h ≡ false → Below (h + 1)
  Below-next h inside test k x lt p =
      let (y, e) = get_inside a h inside in
      le_lt_trans x y want (sorted_at x y a k h s (omega arith) p e)
        (ground (arith, not_below-at a want y h e))

  Above-here : (h : ℕ) → h < length a → not_below a want h ≡ true → Above h
  Above-here h inside test k x le p =
      let (y, e) = get_inside a h inside in
      le_trans want y x (ground (arith, not_below-at a want y h e)) (sorted_at y x a h k s le e p)

  search_loop-Splits :
      (fuel i j : ℕ)
      → i ≤ j
      → j ≤ length a
      → j - i < fuel
      → Below i
      → Above j
      → Splits a want (search_loop fuel a want i j)
  unfolding search_loop
  search_loop-Splits zero i j ij jn f b c = absurd (omega arith)
  search_loop-Splits (suc fuel) i j ij jn f b c = elim (Bool-cases (ltb i j)) [
    | inr done ↦ rw done (record { below = b; above = λ k x le p. c k x (ground arith) p })
    | inl more ↦
        let h = (i + j) / 2 in
        let inside : h < length a = ground arith in
        elim (Bool-cases (not_below a want h)) [
          | inl left ↦
              rw (more, left)
                (search_loop-Splits fuel i h (ground arith) (ground arith) (ground arith) b
                  (Above-here h inside left))
          | inr right ↦
              rw (more, right)
                (search_loop-Splits fuel (h + 1) j (ground arith) (ground arith) (ground arith)
                  (Below-next h inside right) c)
        ]
  ]

  search_strings-Splits : Splits a want (search_strings a want)
  unfolding search_strings
  search_strings-Splits =
      search_loop-Splits (length a + 1) 0 (length a) (omega arith) (omega arith) (omega arith)
        (λ k x lt p. absurd (omega arith)) (λ k x le p. past_end a k x le p)
    where
      past_end :
          (b : List String) (k : ℕ) (x : String)
          → length b ≤ k
          → get_elem? b k ≡ some x
          → str_lt x want ≡ false
      past_end [] k x le p = cc
      past_end (y ∷ ys) zero x le p = absurd (omega arith)
      past_end (y ∷ ys) (suc k) x le p = past_end ys k x (omega arith) p

any_at :
    (want : String) (a : List String)
    → any (λ x. x == want) a ≡ true
    → (k : ℕ) × (get_elem? a k ≡ some want)
any_at want [] h = cc
any_at want (x ∷ xs) h = elim (Bool-cases (x == want)) [
  | inl e ↦ (0, ap some ((eq_iff x want).0 e))
  | inr e ↦ let (k, p) = any_at want xs (ground arith) in (suc k, p)
]

at_any :
    (want : String) (a : List String) (k : ℕ)
    → get_elem? a k ≡ some want
    → any (λ x. x == want) a ≡ true
at_any want [] k h = cc
at_any want (x ∷ xs) zero h = ground (arith, eq_iff x want)
at_any want (x ∷ xs) (suc k) h = ground (arith, at_any want xs k h)

none_past :
    (a : List String) (r k : ℕ) (x : String)
    → get_elem? a r ≡ none
    → r ≤ k
    → get_elem? a k ≡ some x
    → ⊥
none_past [] r k x h le p = cc
none_past (y ∷ ys) zero k x h le p = cc
none_past (y ∷ ys) (suc r) zero x h le p = absurd (omega arith)
none_past (y ∷ ys) (suc r) (suc k) x h le p = none_past ys r k x h (omega arith) p

module _ (a : List String) (want : String) (s : IsSorted a) where
  -- Where `want` stands, if it stands anywhere, is at or after the index that the search returns.
  found_late : (k : ℕ) → get_elem? a k ≡ some want → search_strings a want ≤ k
  found_late k p = elim (dec_lt k (search_strings a want)) [
    | yes lt ↦ cc (lt_irrefl want, (search_strings-Splits a want s).below k want lt p)
    | no ge ↦ omega arith
  ]

  found_here : (k : ℕ) → get_elem? a k ≡ some want → get_elem? a (search_strings a want) ≡ some want
  found_here k p = elim (Option-cases (get_elem? a (search_strings a want))) [
    | inl gone ↦ absurd (none_past a (search_strings a want) k want gone (found_late k p) p)
    | inr (x, e) ↦
        e
        ∙ ap some (
            le_antisym x want
              ((search_strings-Splits a want s).above (search_strings a want) x (omega arith) e)
              (sorted_at x want a (search_strings a want) k s (found_late k p) e p))
  ]

  found_at-any : found_at a want ≡ any (λ x. x == want) a
  unfolding found_at holds_at
  found_at-any = elim (Bool-cases (any (λ x. x == want) a)) [
    | inl some_one ↦
        let (k, p) = any_at want a some_one in rw (some_one, found_here k p) (eq_refl want)
    | inr none_one ↦ elim (Option-cases (get_elem? a (search_strings a want))) [
      | inl gone ↦ rw (none_one, gone) refl
      | inr (x, e) ↦ elim (Bool-cases (x == want)) [
        | inl same ↦
            cc (
              none_one,
              at_any want a (search_strings a want) (e ∙ ap some ((eq_iff x want).0 same)),
            )
        | inr differs ↦ rw (none_one, e) differs
      ]
    ]
  ]

-- `contains` finds a text exactly when a plain walk of the unsorted list does.
pub contains-any :
    (values : List String) (want : String) → contains values want ≡ any (λ x. x == want) values
contains-any values want =
    contains_lem
    ∙ found_at-any (sort_strings values) want (sort_strings-IsSorted values)
    ∙ any-sort_strings (λ x. x == want) values
  where
    contains_lem : contains values want ≡ found_at (sort_strings values) want
    contains_lem = unfold contains in refl
