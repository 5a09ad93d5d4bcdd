-- ===== src/Policy/Search.antt =====
-- `contains` of internal/policy/policy.go: it sorts a copy and searches it by bisection, as
-- sort.Strings and sort.SearchStrings do.
use pulse_agent.Prelude.{
  ℕ, zero, suc, ◌+◌, ◌/◌, String, Bool, true, false, not, List, [], ◌∷◌, Option, none, some, ltb,
  ◌==◌, length, get_elem?, if◌then◌else◌,
}
use pulse_agent.Prelude.Order.{str_lt}

unfoldable pub insert_sorted : String → List String → List String
insert_sorted x [] = x ∷ []
insert_sorted x (y ∷ ys) =
    let rest = insert_sorted x ys in if str_lt y x then y ∷ rest else x ∷ y ∷ ys

-- sort.Strings: equal strings are the same, so the sorted list does not depend on the algorithm.
unfoldable pub sort_strings : List String → List String
sort_strings [] = []
sort_strings (x ∷ xs) = insert_sorted x (sort_strings xs)

-- a[h] >= want
unfoldable pub not_below : List String → String → ℕ → Bool
not_below a want h = elim (get_elem? a h) [ none ↦ true | some x ↦ not (str_lt x want) ]

-- The loop of sort.Search over i and j, on fuel.
unfoldable pub search_loop : ℕ → List String → String → ℕ → ℕ → ℕ
search_loop zero a want i j = i
search_loop (suc fuel) a want i j =
    let h = (i + j) / 2 in
    let right = search_loop fuel a want (h + 1) j in
    let left = search_loop fuel a want i h in
    if ltb i j then (if not_below a want h then left else right) else i

unfoldable pub search_strings : List String → String → ℕ
search_strings a want = search_loop (length a + 1) a want 0 (length a)

unfoldable pub holds_at : Option String → String → Bool
holds_at none want = false
holds_at (some x) want = x == want

-- The index test and the comparison: `get_elem?` is none past the end.
unfoldable pub found_at : List String → String → Bool
found_at sorted want = holds_at (get_elem? sorted (search_strings sorted want)) want

unfoldable pub contains : List String → String → Bool
unfolding found_at search_strings sort_strings insert_sorted search_loop str_lt not_below holds_at
contains values want = found_at (sort_strings values) want
