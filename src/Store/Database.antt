-- ===== src/Store/Database.antt =====
-- The closed set of buckets of internal/store/store.go, and what the store relies on of bbolt.
use pulse_agent.Prelude.{
  ℕ, String, ◌≡◌, ◌≢◌, ◌⊎◌, Bool, true, List, [], ◌∷◌, All, Option, none, some, get_elem?,
}
use pulse_agent.Prelude.Order.{str_lt}
use pulse_agent.Prelude.Result.{Error, Result, ok}

-- `bucket_other` is any name outside allowedBuckets.
pub data Bucket : Type 0 where
  bucket_configuration_versions bucket_incidents bucket_analysis_references : Bucket
  bucket_approvals bucket_command_journal bucket_audit bucket_stabilization_results : Bucket
  bucket_delivery_queue bucket_service_targets bucket_runbooks bucket_ingress_receipts : Bucket
  bucket_lifecycle_events bucket_incident_reports : Bucket
  bucket_other : String → Bucket

-- Pairs in the strict order of their keys.
abbrev pub IsOrdered : List (String × String) → Type 0
IsOrdered [] = Unit {0}
IsOrdered (p ∷ rest) = All (λ q. str_lt p.0 q.0 ≡ true) rest × IsOrdered rest

-- One bbolt transaction over the named buckets, with what bbolt documents: a read returns the last
-- write under its key, a write touches one key of one bucket, and a walk visits every pair once, in
-- the byte order of the keys.
-- Values are the texts (JSON, or a key) that the packages store.
pub record Bolt : Type 1 where
  pub Tx : Type 0
  pub has_bucket : Tx → Bucket → Bool
  pub read : Tx → Bucket → String → Option String
  pub write : Tx → Bucket → String → String → Result Tx
  pub remove : Tx → Bucket → String → Result Tx
  pub entries : Tx → Bucket → List (String × String)
  -- What committing the transaction to disk reports.
  pub commit_error : Tx → Option Error
  pub read-write_self :
      (t : Tx) (b : Bucket) (k v : String) (t' : Tx) → write t b k v ≡ ok t' → read t' b k ≡ some v
  pub read-write_ne :
      (t : Tx) (b : Bucket) (k v : String) (t' : Tx) (c : Bucket) (j : String)
      → write t b k v ≡ ok t'
      → (c ≢ b) ⊎ (j ≢ k)
      → read t' c j ≡ read t c j
  pub read-remove_self :
      (t : Tx) (b : Bucket) (k : String) (t' : Tx) → remove t b k ≡ ok t' → read t' b k ≡ none
  pub read-remove_ne :
      (t : Tx) (b : Bucket) (k : String) (t' : Tx) (c : Bucket) (j : String)
      → remove t b k ≡ ok t'
      → (c ≢ b) ⊎ (j ≢ k)
      → read t' c j ≡ read t c j
  pub has_bucket-write :
      (t : Tx) (b : Bucket) (k v : String) (t' : Tx) (c : Bucket)
      → write t b k v ≡ ok t'
      → has_bucket t' c ≡ has_bucket t c
  pub has_bucket-remove :
      (t : Tx) (b : Bucket) (k : String) (t' : Tx) (c : Bucket)
      → remove t b k ≡ ok t'
      → has_bucket t' c ≡ has_bucket t c
  pub read-entries :
      (t : Tx) (b : Bucket) (i : ℕ) (k v : String)
      → get_elem? (entries t b) i ≡ some (k, v)
      → read t b k ≡ some v
  pub entries-read :
      (t : Tx) (b : Bucket) (k v : String)
      → read t b k ≡ some v
      → (i : ℕ) × (get_elem? (entries t b) i ≡ some (k, v))
  pub entries-IsOrdered : (t : Tx) (b : Bucket) → IsOrdered (entries t b)
