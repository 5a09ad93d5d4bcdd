-- ===== src/Prelude/Result.antt =====
-- Go's `(value, error)` results: a value, or the sentinel that `errors.Is` finds in the error.
use Prim.Native.String.{String}
use mathlib.Core.Path.{◌≡◌, refl}
use mathlib.Core.Logic.{◌⊎◌, inl, inr}
use mathlib.Core.Bool.{Bool, true, false}
use mathlib.Core.Option.{Option, none, some}

-- The sentinel errors of the modelled packages; a sentinel that several packages declare under one
-- name stands once. `foreign` is an error that a dependency returns.
pub data Error : Type 0 where
  invalid_contract invalid_state_transition : Error
  invalid_options invalid_request : Error
  invalid_transaction unknown_bucket integrity invalid_key audit_append_only : Error
  corrupt_journal idempotency_conflict command_not_executable : Error
  invalid_signal corrupt_incident : Error
  queue_full delivery_conflict corrupt_queue : Error
  invalid_approval_options invalid_decision command_not_found decision_conflict command_expired :
      Error
  invalid_event chain_invalid chain_capacity : Error
  corrupt_result : Error
  docker_unavailable docker_timeout deadline_exceeded : Error
  foreign : String → Error

pub data Result {ℓ} (Value : Type ℓ) : Type ℓ where
  err : Error → Result Value
  ok : Value → Result Value

-- `if bad { return e }`
abbrev pub fail_if : Bool → Error → Result (Unit {0})
fail_if true e = err e
fail_if false e = ok tt

-- err == nil
abbrev pub is_ok {ℓ} : {A : Type ℓ} → Result A → Bool
is_ok (ok a) = true
is_ok (err e) = false

-- A failure of the wrapped call, whatever it was, as this sentinel.
abbrev pub or_error {ℓ} : {A : Type ℓ} → Option A → Error → Result A
or_error none e = err e
or_error (some a) e = ok a

infixl 5 ◌>>◌ ◌>>=◌
-- The statements after one that may return an error and has no value.
abbrev pub ◌>>◌ {ℓ} : {V : Type ℓ} → Result (Unit {0}) → Result V → Result V
err e >> rest = err e
ok _ >> rest = rest

-- The same after one that has a value.
abbrev pub ◌>>=◌ {ℓ κ} : {U : Type ℓ} {V : Type κ} → Result U → (U → Result V) → Result V
err e >>= rest = err e
ok u >>= rest = rest u

-- The error of a result that has one.
abbrev pub map_error {ℓ} : {A : Type ℓ} → (Error → Error) → Result A → Result A
map_error f (ok a) = ok a
map_error f (err e) = err (f e)

pub Result-cases {ℓ} :
    {A : Type ℓ} (r : Result A) → ((a : A) × (r ≡ ok a)) ⊎ ((e : Error) × (r ≡ err e))
Result-cases (ok a) = inl (a, refl)
Result-cases (err e) = inr (e, refl)
