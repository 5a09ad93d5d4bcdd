-- ===== src/Prelude/Text.antt =====
-- What the sources use of Go's `strings` package, over native texts (valid UTF-8).
use Prim.Native.Char.{code}
use Prim.Native.Nat.{ℕ}
use Prim.Native.String.{String}
use mathlib.Core.Bool.{Bool, true, false, ◌&&◌, ◌||◌}
use mathlib.Core.List.{List, [], ◌∷◌, reverse}
use pulse_agent.Prelude.Tests.{leb, eqb, if◌then◌else◌}
use pulse_agent.Prelude.Lists.{any}

-- The code points of a text.
abbrev pub codes : String → List ℕ
codes String.[] = []
codes (String.◌∷◌ c s) = code c ∷ codes s

-- unicode.IsSpace
unfoldable pub is_space : ℕ → Bool
is_space c =
    (leb 9 c && leb c 13)
    || eqb c 32
    || eqb c 0x85
    || eqb c 0xa0
    || eqb c 0x1680
    || (leb 0x2000 c && leb c 0x200a)
    || eqb c 0x2028
    || eqb c 0x2029
    || eqb c 0x202f
    || eqb c 0x205f
    || eqb c 0x3000

unfoldable pub trim_left : List ℕ → List ℕ
unfolding is_space
trim_left [] = []
trim_left (c ∷ s) = let rest = trim_left s in if is_space c then rest else c ∷ s

-- strings.TrimSpace
unfoldable pub trim_space : List ℕ → List ℕ
unfolding trim_left
trim_space s = reverse (trim_left (reverse (trim_left s)))

abbrev pub eq_codes : List ℕ → List ℕ → Bool
eq_codes [] [] = true
eq_codes (a ∷ s) (b ∷ t) = eqb a b && eq_codes s t
eq_codes _ _ = false

-- strings.TrimSpace(value) == value
unfoldable pub is_trimmed : String → Bool
unfolding trim_space
is_trimmed s = eq_codes (trim_space (codes s)) (codes s)

-- strings.ContainsRune(value, '\x00')
unfoldable pub contains_nul : String → Bool
contains_nul s = any (λ c. eqb c 0) (codes s)

-- strings.TrimSpace(value) == ""
unfoldable pub is_blank : String → Bool
unfolding trim_space
is_blank s = eq_codes (trim_space (codes s)) []
