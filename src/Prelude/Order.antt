-- ===== src/Prelude/Order.antt =====
-- The order of texts by their code points, which is the byte order of their UTF-8 encodings.
use Prim.Native.Char.{code}
use text.Mathlib.TextEquality.{Char-path}
use Prim.Native.String.{String}
use mathlib.Core.Path.{◌≡◌, refl}
use mathlib.Core.Logic.{◌⊎◌, inl, inr}
use mathlib.Core.Bool.{Bool, true, false}
use native.Mathlib.Omega.{arith}
use pulse_agent.Prelude.Tests.{ltb, if◌then◌else◌, Bool-cases}

-- Go's `<` on strings. The order of UTF-8 bytes is the order of code points.
unfoldable pub str_lt : String → String → Bool
str_lt String.[] String.[] = false
str_lt String.[] (String.◌∷◌ d t) = true
str_lt (String.◌∷◌ c s) String.[] = false
str_lt (String.◌∷◌ c s) (String.◌∷◌ d t) =
    let rest = str_lt s t in
    if ltb (code c) (code d) then true else if ltb (code d) (code c) then false else rest

pub lt_irrefl : (s : String) → str_lt s s ≡ false
unfolding str_lt
lt_irrefl String.[] = refl
lt_irrefl (String.◌∷◌ c s) = ground (arith, lt_irrefl s)

-- `str_lt b a ≡ false` says that a comes no later than b.
pub le_lt_trans : (a b c : String) → str_lt b a ≡ false → str_lt b c ≡ true → str_lt a c ≡ true
unfolding str_lt
le_lt_trans String.[] String.[] String.[] h k = k
le_lt_trans String.[] String.[] (String.◌∷◌ z c) h k = refl
le_lt_trans String.[] (String.◌∷◌ y b) String.[] h k = k
le_lt_trans String.[] (String.◌∷◌ y b) (String.◌∷◌ z c) h k = refl
le_lt_trans (String.◌∷◌ x a) String.[] c h k = cc
le_lt_trans (String.◌∷◌ x a) (String.◌∷◌ y b) String.[] h k = cc
le_lt_trans (String.◌∷◌ x a) (String.◌∷◌ y b) (String.◌∷◌ z c) h k =
    ground (arith, le_lt_trans a b c)

pub le_trans : (a b c : String) → str_lt b a ≡ false → str_lt c b ≡ false → str_lt c a ≡ false
unfolding str_lt
le_trans String.[] b String.[] h k = refl
le_trans String.[] b (String.◌∷◌ z c) h k = refl
le_trans (String.◌∷◌ x a) String.[] c h k = cc
le_trans (String.◌∷◌ x a) (String.◌∷◌ y b) String.[] h k = cc
le_trans (String.◌∷◌ x a) (String.◌∷◌ y b) (String.◌∷◌ z c) h k = ground (arith, le_trans a b c)

cons_eq : (x y : _) (a b : String) → code x ≡ code y → a ≡ b → String.◌∷◌ x a ≡ String.◌∷◌ y b
cons_eq x y a b p q = cc (Char-path x y p)

pub le_antisym : (a b : String) → str_lt a b ≡ false → str_lt b a ≡ false → a ≡ b
unfolding str_lt
le_antisym String.[] String.[] h k = refl
le_antisym String.[] (String.◌∷◌ y b) h k = cc
le_antisym (String.◌∷◌ x a) String.[] h k = cc
le_antisym (String.◌∷◌ x a) (String.◌∷◌ y b) h k =
    cons_eq x y a b (ground arith) (le_antisym a b (ground arith) (ground arith))

pub lt_le : (a b : String) → str_lt a b ≡ true → str_lt b a ≡ false
unfolding str_lt
lt_le String.[] String.[] h = cc
lt_le String.[] (String.◌∷◌ y b) h = refl
lt_le (String.◌∷◌ x a) String.[] h = cc
lt_le (String.◌∷◌ x a) (String.◌∷◌ y b) h = ground (arith, lt_le a b)

pub lt_trans : (a b c : String) → str_lt a b ≡ true → str_lt b c ≡ true → str_lt a c ≡ true
lt_trans a b c h k = le_lt_trans a b c (lt_le a b h) k

-- Two texts are equal, or one comes first.
pub lt_cases : (a b : String) → (a ≡ b) ⊎ (str_lt a b ≡ true) ⊎ (str_lt b a ≡ true)
lt_cases a b = elim (Bool-cases (str_lt a b)) [
  | inl e ↦ inr (inl e)
  | inr e ↦ elim (Bool-cases (str_lt b a)) [
    | inl f ↦ inr (inr f)
    | inr f ↦ inl (le_antisym a b e f)
  ]
]
