-- ===== src/Store/Tx.antt =====
-- The methods of Tx and the managed transactions of Store in internal/store/store.go.
use pulse_agent.Prelude.{String, Bool, true, false, not, List, [], ◌∷◌, Option, none, some, ◌==◌}
use pulse_agent.Prelude.Result.{
  Error, Result, ok, err, unknown_bucket, integrity, invalid_key, audit_append_only, ◌>>=◌, ◌>>◌,
  fail_if,
}
use pulse_agent.Store.Database.{Bucket, bucket_audit, bucket_other, Bolt}

unfoldable pub is_allowed : Bucket → Bool
is_allowed (bucket_other name) = false
is_allowed _ = true

unfoldable pub is_audit : Bucket → Bool
is_audit bucket_audit = true
is_audit _ = false

-- The walk of ForEach: `fn` is the callback, and its state the variables that it captures.
abbrev pub for_each_entry {ℓ} :
    {S : Type ℓ} → (S → String → String → Result S) → List (String × String) → S → Result S
for_each_entry fn [] s = ok s
for_each_entry fn ((key, value) ∷ rest) s = fn s key value >>= for_each_entry fn rest

module _ (bolt : Bolt) where
  open bolt use {Tx, has_bucket, read, write, remove, entries, commit_error}

  -- tx.bucket: the bucket has to be in the contract and in the database.
  unfoldable pub check_bucket : Tx → Bucket → Result (Unit {0})
  unfolding is_allowed
  check_bucket tx bucket = do
    fail_if (not (is_allowed bucket)) unknown_bucket
    fail_if (not (has_bucket tx bucket)) integrity

  unfoldable pub put : Tx → Bucket → String → String → Result Tx
  unfolding check_bucket is_audit
  put tx bucket key value = do
    check_bucket tx bucket
    fail_if (is_audit bucket) audit_append_only
    fail_if (key == "") invalid_key
    write tx bucket key value

  -- The value and the `found` flag are one option.
  unfoldable pub get : Tx → Bucket → String → Result (Option String)
  unfolding check_bucket
  get tx bucket key = do
    check_bucket tx bucket
    fail_if (key == "") invalid_key
    ok (read tx bucket key)

  unfoldable pub delete : Tx → Bucket → String → Result Tx
  unfolding check_bucket is_audit
  delete tx bucket key = do
    check_bucket tx bucket
    fail_if (is_audit bucket) audit_append_only
    fail_if (key == "") invalid_key
    remove tx bucket key

  is_present : Option String → Bool
  is_present none = false
  is_present (some value) = true

  unfoldable pub append_audit : Tx → String → String → Result Tx
  unfolding check_bucket is_present
  append_audit tx key value = do
    check_bucket tx bucket_audit
    fail_if (key == "") invalid_key
    fail_if (is_present (read tx bucket_audit key)) audit_append_only
    write tx bucket_audit key value

  unfoldable pub for_each {ℓ} :
      {S : Type ℓ} → Tx → Bucket → (S → String → String → Result S) → S → Result S
  unfolding check_bucket
  for_each tx bucket fn s = do check_bucket tx bucket; for_each_entry fn (entries tx bucket) s

  -- What a managed transaction leaves: an error of the callback, or of the commit, leaves the state
  -- as it was.
  abbrev pub committed {ℓ} : {A : Type ℓ} → Option Error → A → Tx → Tx → Result A × Tx
  committed none a state state' = (ok a, state')
  committed (some e) a state state' = (err e, state)

  abbrev pub settle {ℓ} : {A : Type ℓ} → Tx → Result (A × Tx) → Result A × Tx
  settle state (ok (a, state')) = committed (commit_error state') a state state'
  settle state (err e) = (err e, state)

  -- Store.Update
  unfoldable pub update {ℓ} : {A : Type ℓ} → (Tx → Result (A × Tx)) → Tx → Result A × Tx
  update fn state = settle state (fn state)

  -- Store.View: the callback cannot write.
  abbrev pub view {ℓ} : {A : Type ℓ} → (Tx → Result A) → Tx → Result A
  view fn state = fn state
