-- ===== src/Store/Laws.antt =====
-- Reads after writes, rollback, and the append-only audit bucket of internal/store/store.go.
use pulse_agent.Prelude.{
  String, ◌≡◌, ◌≢◌, ◌⊎◌, inl, inr, refl, ap, ◌∙◌, false, List, [], ◌∷◌, Option, none, some, ◌==◌,
  arith,
}
use pulse_agent.Prelude.Result.{Error, Result, ok, err}
use pulse_agent.Store.Database.{Bucket, bucket_audit, Bolt}
use pulse_agent.Store.Tx.{
  is_audit, check_bucket, put, get, delete, append_audit, committed, settle, update,
}

module _ (bolt : Bolt) where
  open bolt use {
    Tx, has_bucket, read, write, remove, commit_error, read-write_self, read-write_ne,
    read-remove_ne, has_bucket-write,
  }

  -- A put that succeeds is a write of its bucket, which is not the audit bucket.
  pub put-inv :
      (tx tx' : Tx) (b : Bucket) (k v : String)
      → put bolt tx b k v ≡ ok tx'
      → (write tx b k v ≡ ok tx')
        × (check_bucket bolt tx b ≡ ok tt)
        × ((k == "") ≡ false)
        × (is_audit b ≡ false)
  unfolding put
  put-inv tx tx' b k v h = ground arith

  -- What was put is what a get returns.
  pub get-put_self :
      (tx tx' : Tx) (b : Bucket) (k v : String)
      → put bolt tx b k v ≡ ok tx'
      → get bolt tx' b k ≡ ok (some v)
  unfolding get check_bucket
  get-put_self tx tx' b k v h =
      let (w, c, n, a) = put-inv tx tx' b k v h in
      ground (arith, read-write_self tx b k v tx' w, has_bucket-write tx b k v tx' b w)

  -- A put leaves every other key of its bucket, and every other bucket, as it was.
  pub get-put_ne :
      (tx tx' : Tx) (b c : Bucket) (k v j : String)
      → put bolt tx b k v ≡ ok tx'
      → (c ≢ b) ⊎ (j ≢ k)
      → get bolt tx' c j ≡ get bolt tx c j
  unfolding get check_bucket
  get-put_ne tx tx' b c k v j h n =
      let (w, _, _, a) = put-inv tx tx' b k v h in
      ground (arith, read-write_ne tx b k v tx' c j w n, has_bucket-write tx b k v tx' c w)

  committed-err {ℓ} :
      {A : Type ℓ} (o : Option Error) (a : A) (s s' : Tx) {e : Error}
      → (committed bolt o a s s').0 ≡ err e
      → (committed bolt o a s s').1 ≡ s
  committed-err none a s s' h = cc
  committed-err (some x) a s s' h = refl

  settle-err {ℓ} :
      {A : Type ℓ} (s : Tx) (r : Result (A × Tx)) {e : Error}
      → (settle bolt s r).0 ≡ err e
      → (settle bolt s r).1 ≡ s
  settle-err s (ok (a, s')) h = committed-err (commit_error s') a s s' h
  settle-err s (err x) h = refl

  -- A transaction that returns an error leaves the state as it was.
  pub update-err {ℓ} :
      {A : Type ℓ} (fn : Tx → Result (A × Tx)) (s : Tx) {e : Error}
      → (update bolt fn s).0 ≡ err e
      → (update bolt fn s).1 ≡ s
  unfolding update
  update-err fn s h = settle-err s (fn s) h

  committed-ok {ℓ} :
      {A : Type ℓ} (o : Option Error) (a : A) (s s' : Tx) {b : A}
      → (committed bolt o a s s').0 ≡ ok b
      → let r : Result (A × Tx) = ok (a, s') in r ≡ ok (b, (committed bolt o a s s').1)
  committed-ok none a s s' h = cc
  committed-ok (some x) a s s' h = cc

  settle-ok {ℓ} :
      {A : Type ℓ} (s : Tx) (r : Result (A × Tx)) {b : A}
      → (settle bolt s r).0 ≡ ok b
      → r ≡ ok (b, (settle bolt s r).1)
  settle-ok s (ok (a, s')) h = committed-ok (commit_error s') a s s' h
  settle-ok s (err x) h = cc

  -- A transaction that succeeds returns what its callback returned, and leaves its state.
  pub update-ok {ℓ} :
      {A : Type ℓ} (fn : Tx → Result (A × Tx)) (s : Tx) {b : A}
      → (update bolt fn s).0 ≡ ok b
      → fn s ≡ ok (b, (update bolt fn s).1)
  unfolding update
  update-ok fn s h = settle-ok s (fn s) h

  -- One writing call of a transaction.
  pub data WriteCall : Type 0 where
    put_call : Bucket → String → String → WriteCall
    delete_call : Bucket → String → WriteCall
    append_call : String → String → WriteCall

  unfoldable pub call : WriteCall → Tx → Result Tx
  call (put_call b k v) tx = put bolt tx b k v
  call (delete_call b k) tx = delete bolt tx b k
  call (append_call k v) tx = append_audit bolt tx k v

  -- A call that fails writes nothing.
  abbrev left_by : Result Tx → Tx → Tx
  left_by (ok tx') tx = tx'
  left_by (err e) tx = tx

  unfoldable pub run_calls : List WriteCall → Tx → Tx
  run_calls [] tx = tx
  run_calls (c ∷ cs) tx = run_calls cs (left_by (call c tx) tx)

  is_audit-ne : (b : Bucket) → is_audit b ≡ false → bucket_audit ≢ b
  unfolding is_audit
  is_audit-ne b h e = cc (h, ap is_audit e)

  delete-inv :
      (tx tx' : Tx) (b : Bucket) (k : String)
      → delete bolt tx b k ≡ ok tx'
      → (remove tx b k ≡ ok tx') × (is_audit b ≡ false)
  unfolding delete
  delete-inv tx tx' b k h = ground arith

  pub append-inv :
      (tx tx' : Tx) (k v : String)
      → append_audit bolt tx k v ≡ ok tx'
      → (write tx bucket_audit k v ≡ ok tx') × (read tx bucket_audit k ≡ none)
  unfolding append_audit
  append-inv tx tx' k v h = ground arith

  call-audit :
      (c : WriteCall) (tx tx' : Tx) (k v : String)
      → call c tx ≡ ok tx'
      → read tx bucket_audit k ≡ some v
      → read tx' bucket_audit k ≡ some v
  unfolding call
  call-audit (put_call b j w) tx tx' k v h r =
      let (written, c, n, a) = put-inv tx tx' b j w h in
      read-write_ne tx b j w tx' bucket_audit k written (inl (is_audit-ne b a)) ∙ r
  call-audit (delete_call b j) tx tx' k v h r =
      let (removed, a) = delete-inv tx tx' b j h in
      read-remove_ne tx b j tx' bucket_audit k removed (inl (is_audit-ne b a)) ∙ r
  call-audit (append_call j w) tx tx' k v h r =
      let (written, absent) = append-inv tx tx' j w h in
      read-write_ne tx bucket_audit j w tx' bucket_audit k written
        (inr (λ e. cc (r, absent, ap (read tx bucket_audit) e)))
      ∙ r

  left_by-audit :
      (c : WriteCall) (tx : Tx) (o : Result Tx) (k v : String)
      → call c tx ≡ o
      → read tx bucket_audit k ≡ some v
      → read (left_by o tx) bucket_audit k ≡ some v
  left_by-audit c tx (ok tx') k v e r = call-audit c tx tx' k v e r
  left_by-audit c tx (err x) k v e r = r

  -- A persisted audit record is never replaced or removed, whatever writing calls follow, whether
  -- they succeed or fail.
  pub audit_append_only :
      (cs : List WriteCall) (tx : Tx) (k v : String)
      → read tx bucket_audit k ≡ some v
      → read (run_calls cs tx) bucket_audit k ≡ some v
  unfolding run_calls
  audit_append_only [] tx k v r = r
  audit_append_only (c ∷ cs) tx k v r =
      audit_append_only cs (left_by (call c tx) tx) k v (left_by-audit c tx (call c tx) k v refl r)
