-- ===== src/Stabilization/Documents.antt =====
-- load and persist of internal/stabilization/verifier.go. The JSON documents go through `codec`.
use pulse_agent.Prelude.{String, not, ◌||◌, Option, none, some, ◌==◌, if◌then◌else◌}
use pulse_agent.Prelude.Int.{ℤ, eqb_ℤ}
use pulse_agent.Prelude.Result.{
  Result, ok, err, corrupt_result, ◌>>=◌, ◌>>◌, fail_if, is_ok, or_error,
}
use pulse_agent.Store.{Bolt, bucket_stabilization_results, get, put, update}
use pulse_agent.Recovery.Types.{Codec}
use pulse_agent.Stabilization.Types.{StabilizationRecord}
use pulse_agent.Stabilization.Record.{validate_stabilization_record, result_key}

module _ (bolt : Bolt) (sha256_hex : String → String) (codec : Codec StabilizationRecord) where
  open bolt use {Tx}

  -- The document under a key, which has to be about the attempt.
  unfoldable pub checked_document : String → ℤ → Option String → Result (Option StabilizationRecord)
  checked_document command_id attempt none = ok none
  checked_document command_id attempt (some document) = do
    r ← or_error (codec.decode document) corrupt_result
    fail_if (not (is_ok (validate_stabilization_record r))) corrupt_result
    fail_if (not (r.command_id == command_id) || not (eqb_ℤ r.attempt attempt)) corrupt_result
    ok (some r)

  unfoldable pub load : String → ℤ → Tx → Result (Option StabilizationRecord)
  load command_id attempt tx = do
    document ← get bolt tx bucket_stabilization_results (result_key sha256_hex command_id attempt)
    checked_document command_id attempt document

  -- The callback of persist's transaction.
  unfoldable pub put_document : String → String → Tx → Result (Unit {0} × Tx)
  put_document key document tx = do
    tx' ← put bolt tx bucket_stabilization_results key document
    ok (tt, tx')

  -- The transaction, where a document was encoded.
  unfoldable pub store_document : String → Result String → Tx → Result (Unit {0}) × Tx
  store_document key (err e) tx = (err e, tx)
  store_document key (ok document) tx = update bolt (put_document key document) tx

  unfoldable pub persist : StabilizationRecord → Tx → Result (Unit {0}) × Tx
  persist r tx =
      if not (is_ok (validate_stabilization_record r))
      then (err corrupt_result, tx)
      else store_document (result_key sha256_hex r.command_id r.attempt) (codec.marshal r) tx
