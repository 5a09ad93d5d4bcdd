-- ===== src/Recovery/Keys.antt =====
-- The keys of internal/recovery/journal.go. `sha256_hex` is the hexadecimal SHA-256 digest.
use Prim.Native.String.{◌++◌}
use pulse_agent.Prelude.{ℕ, zero, suc, ◌/◌, ◌%◌, ltb, String, List, [], ◌∷◌, if◌then◌else◌}
use pulse_agent.Prelude.Int.{ℤ, pos, negsuc}
use pulse_agent.Contract.{RecoveryCommand}

abbrev pub journal_record_prefix : String
journal_record_prefix = "command/"

abbrev pub idempotency_index_prefix : String
idempotency_index_prefix = "idempotency/"

digit : ℕ → String
digit zero = "0"
digit (suc zero) = "1"
digit (suc (suc zero)) = "2"
digit (suc (suc (suc zero))) = "3"
digit (suc (suc (suc (suc zero)))) = "4"
digit (suc (suc (suc (suc (suc zero))))) = "5"
digit (suc (suc (suc (suc (suc (suc zero)))))) = "6"
digit (suc (suc (suc (suc (suc (suc (suc zero))))))) = "7"
digit (suc (suc (suc (suc (suc (suc (suc (suc zero)))))))) = "8"
digit _ = "9"

-- The decimal digits of a number below 10 ^ fuel.
digits : ℕ → ℕ → String
unfolding digit
digits zero n = ""
digits (suc fuel) n =
    let front = digits fuel (n / 10) in if ltb n 10 then digit n else front ++ digit (n % 10)

-- strconv.Itoa: an int64 has at most 19 digits.
unfoldable pub itoa : ℤ → String
unfolding digits
itoa (pos n) = digits 19 n
itoa (negsuc n) = "-" ++ digits 19 (suc n)

-- strings.Join(values, "\x00") + "\x00"
joined : List String → String
joined [] = ""
joined (value ∷ rest) = value ++ ("\0" ++ joined rest)

module _ (sha256_hex : String → String) where
  unfoldable pub stable_key : String → List String → String
  unfolding joined
  stable_key prefix values = prefix ++ sha256_hex (joined values)

  unfoldable pub record_key : RecoveryCommand → String
  unfolding stable_key itoa
  record_key command = stable_key journal_record_prefix (
      command.incident_id
      ∷ command.runbook_id
      ∷ command.runbook_digest
      ∷ command.target_id
      ∷ itoa command.action_index
      ∷ [])

  unfoldable pub idempotency_index_key : String → String
  unfolding stable_key
  idempotency_index_key idempotency_key = stable_key idempotency_index_prefix (idempotency_key ∷ [])
