-- ===== src/Delivery/Backoff.antt =====
-- The delay between attempts, backoff of internal/delivery/delivery.go.
use pulse_agent.Prelude.{
  ℕ, zero, suc, ◌-◌, ◌*◌, ◌/◌, ◌^◌, ◌≤◌, min, ◌≡◌, inl, inr, true, false, Bool-cases, if◌then◌else◌,
  ltb, arith,
}
use pulse_agent.Prelude.Int.{ℤ, pos, negsuc, pos_part, ◌≤ℤ◌, ltb_ℤ, max_int64}
use pulse_agent.Contract.{Duration}
use pulse_agent.Delivery.Types.{DispatcherOptions}
use pulse_agent.Delivery.Options.{valid_options, double, backoff_loop, backoff}

grows : (a p : ℕ) → 1 ≤ p → a ≤ a * p
grows a p h = grind arith

ltb-false : (m i : ℕ) → ltb m i ≡ false → i ≤ m
ltb-false m i h = ground arith

pow_pos : (k : ℕ) → 1 ≤ 2 ^ k
pow_pos zero = omega arith
pow_pos (suc k) = omega (arith, pow_pos k)

mul_one : (b : ℕ) → b * 1 ≡ b
mul_one b = omega arith

next_power : (b k : ℕ) → b * 2 ^ suc k ≡ (2 * b) * 2 ^ k
next_power b k = grind arith

pos-double : (b m : ℕ) → b ≤ m / 2 → m ≤ max_int64 → double (pos b) ≡ pos (2 * b)
unfolding double
pos-double b m h k = ground arith

backoff_loop-min :
    (rounds b m : ℕ)
    → b ≤ m
    → m ≤ max_int64
    → backoff_loop rounds (pos b) (pos m) ≡ pos (min (b * 2 ^ rounds) m)
unfolding backoff_loop
backoff_loop-min zero b m h k = ground (arith, mul_one b)
backoff_loop-min (suc rounds) b m h k = elim (Bool-cases (ltb b m)) [
  | inr e ↦ ground (arith, grows b (2 ^ suc rounds) (pow_pos (suc rounds)))
  | inl e ↦ elim (Bool-cases (ltb (m / 2) b)) [
    | inl f ↦ ground (arith, next_power b rounds, grows (2 * b) (2 ^ rounds) (pow_pos rounds))
    | inr f ↦ ground (
      arith,
      next_power b rounds,
      pos-double b m (ground arith) k,
      backoff_loop-min rounds (2 * b) m (ground arith) k,
    )
  ]
]

abbrev delay_of : Duration → Duration → ℤ → Duration
delay_of initial limit attempt =
    if ltb_ℤ attempt (pos 1) then initial else backoff_loop (pos_part attempt - 1) initial limit

delay-min :
    (k : ℕ) (i m : Duration)
    → ltb_ℤ i (pos 1000000) ≡ false
    → ltb_ℤ m i ≡ false
    → m ≤ℤ pos max_int64
    → delay_of i m (pos (suc k)) ≡ pos (min (pos_part i * 2 ^ k) (pos_part m))
delay-min k (negsuc i) m h g b = absurd (ground arith)
delay-min k (pos i) (negsuc m) h g b = absurd (ground arith)
delay-min k (pos i) (pos m) h g b =
    ground (arith, backoff_loop-min k i m (ground arith) (ground arith))

delay_bounds :
    (attempt : ℤ) (i m : Duration)
    → ltb_ℤ i (pos 1000000) ≡ false
    → ltb_ℤ m i ≡ false
    → m ≤ℤ pos max_int64
    → (i ≤ℤ delay_of i m attempt) × (delay_of i m attempt ≤ℤ m)
delay_bounds (negsuc n) i m h g b = ground arith
delay_bounds (pos zero) i m h g b = ground arith
delay_bounds (pos (suc k)) (negsuc i) m h g b = absurd (ground arith)
delay_bounds (pos (suc k)) (pos i) (negsuc m) h g b = absurd (ground arith)
delay_bounds (pos (suc k)) (pos i) (pos m) h g b =
    rw (delay-min k (pos i) (pos m) h g b)
      (omega (arith, grows i (2 ^ k) (pow_pos k), ltb-false m i (ground arith)))

-- The delay before the retry that follows attempt number k + 1 is the initial one doubled k times, at
-- most the largest one: no doubling overflows.
pub backoff-min :
    (o : DispatcherOptions) (k : ℕ)
    → valid_options o ≡ true
    → o.max_backoff ≤ℤ pos max_int64
    → backoff o (pos (suc k))
      ≡ pos (min (pos_part o.initial_backoff * 2 ^ k) (pos_part o.max_backoff))
unfolding backoff valid_options
backoff-min o k v b = delay-min k o.initial_backoff o.max_backoff (ground arith) (ground arith) b

-- Every delay lies between the initial and the largest one, whatever the attempt.
pub backoff_bounds :
    (o : DispatcherOptions) (attempt : ℤ)
    → valid_options o ≡ true
    → o.max_backoff ≤ℤ pos max_int64
    → (o.initial_backoff ≤ℤ backoff o attempt) × (backoff o attempt ≤ℤ o.max_backoff)
unfolding backoff valid_options
backoff_bounds o attempt v b =
    delay_bounds attempt o.initial_backoff o.max_backoff (ground arith) (ground arith) b
