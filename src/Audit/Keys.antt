-- ===== src/Audit/Keys.antt =====
-- The keys of the audit bucket, eventKey of internal/audit/chain.go: their text order is the order
-- of the indices.
use Prim.Native.Char.{Char, code}
use pulse_agent.Prelude.{
  ℕ, zero, suc, ◌+◌, ◌*◌, ◌/◌, ◌%◌, ◌^◌, ◌<◌, String, ◌≡◌, dec_lt, refl, ◌⊎◌, inl, inr, true, arith,
}
use pulse_agent.Prelude.Order.{str_lt}

digit : ℕ → Char
digit zero = "0"
digit (suc zero) = "1"
digit (suc (suc zero)) = "2"
digit (suc (suc (suc zero))) = "3"
digit (suc (suc (suc (suc zero)))) = "4"
digit (suc (suc (suc (suc (suc zero))))) = "5"
digit (suc (suc (suc (suc (suc (suc zero)))))) = "6"
digit (suc (suc (suc (suc (suc (suc (suc zero))))))) = "7"
digit (suc (suc (suc (suc (suc (suc (suc (suc zero)))))))) = "8"
digit _ = "9"

-- The last `width` decimal digits of a number, before a text.
padded : ℕ → ℕ → String → String
unfolding digit
padded zero n rest = rest
padded (suc width) n rest = padded width (n / 10) (String.◌∷◌ (digit (n % 10)) rest)

-- fmt.Sprintf("%020d", index): a uint64 has at most 20 digits.
unfoldable pub event_key : ℕ → String
unfolding padded
event_key index = padded 20 index ""

digit-code : (d : ℕ) → d < 10 → code (digit d) ≡ 48 + d
unfolding digit
digit-code zero h = refl
digit-code (suc zero) h = refl
digit-code (suc (suc zero)) h = refl
digit-code (suc (suc (suc zero))) h = refl
digit-code (suc (suc (suc (suc zero)))) h = refl
digit-code (suc (suc (suc (suc (suc zero))))) h = refl
digit-code (suc (suc (suc (suc (suc (suc zero)))))) h = refl
digit-code (suc (suc (suc (suc (suc (suc (suc zero))))))) h = refl
digit-code (suc (suc (suc (suc (suc (suc (suc (suc zero)))))))) h = refl
digit-code (suc (suc (suc (suc (suc (suc (suc (suc (suc n))))))))) h = omega arith

digit_lt :
    (a b : ℕ) (s t : String)
    → a < b
    → b < 10
    → str_lt (String.◌∷◌ (digit a) s) (String.◌∷◌ (digit b) t) ≡ true
unfolding str_lt
digit_lt a b s t h k = ground (arith, digit-code a (omega arith), digit-code b k)

padded_rest :
    (width n : ℕ) (s t : String)
    → str_lt s t ≡ true
    → str_lt (padded width n s) (padded width n t) ≡ true
unfolding padded
padded_rest zero n s t h = h
padded_rest (suc width) n s t h =
    padded_rest width (n / 10) (String.◌∷◌ (digit (n % 10)) s) (String.◌∷◌ (digit (n % 10)) t)
      (unfold str_lt in ground arith)

split_lt : (m n : ℕ) → m < n → (m / 10 < n / 10) ⊎ ((m / 10 ≡ n / 10) × (m % 10 < n % 10))
split_lt m n h = elim (dec_lt (m / 10) (n / 10)) [
  | yes less ↦ inl less
  | no more ↦ inr (omega arith, omega arith)
]

pow-step : (width : ℕ) → 10 ^ suc width ≡ 10 * 10 ^ width
pow-step width = omega arith

padded_lt :
    (width m n : ℕ) (s t : String)
    → m < n
    → n < 10 ^ width
    → str_lt (padded width m s) (padded width n t) ≡ true
unfolding padded
padded_lt zero m n s t h k = absurd (omega arith)
padded_lt (suc width) m n s t h k = elim (split_lt m n h) [
  | inl less ↦ padded_lt width (m / 10) (n / 10) _ _ less (omega (arith, pow-step width))
  | inr (same, less) ↦
      rw same (padded_rest width (n / 10) _ _ (digit_lt _ _ s t less (omega arith)))
]

-- A larger index has a later key.
pub event_key_lt : (m n : ℕ) → m < n → n < 2 ^ 64 → str_lt (event_key m) (event_key n) ≡ true
unfolding event_key
event_key_lt m n h k = padded_lt 20 m n "" "" h (omega arith)
