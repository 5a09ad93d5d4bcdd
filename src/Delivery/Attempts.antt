-- ===== src/Delivery/Attempts.antt =====
-- How often retryOrFail of internal/delivery/delivery.go lets an item be tried again.
use pulse_agent.Prelude.{
  ℕ, zero, suc, ◌+◌, ◌<◌, String, ◌≡◌, refl, sym, subst, ap, ◌∙◌, ◌⊎◌, inl, inr, Bool, true, false,
  not, if◌then◌else◌, arith,
}
use pulse_agent.Prelude.Int.{ℤ, pos, inc, ◌<ℤ◌, ◌≤ℤ◌, leb_ℤ, max_int64}
use pulse_agent.Prelude.Result.{Result, ok, err, invalid_request, Result-cases}
use pulse_agent.Contract.{
  Time, add_time, DeliveryQueueItem, DeliveryState, delivery_failed, delivery_expired,
  eq_delivery_state,
}
use pulse_agent.Store.{Bolt, update}
use pulse_agent.Store.Laws.{update-ok}
use pulse_agent.Recovery.Types.{Codec}
use pulse_agent.Recovery.Coordinator.Deps.{◌>>=◌, pure}
use pulse_agent.Audit.{AuditCodec}
use pulse_agent.Delivery.Types.{DispatcherOptions, DeliveryResult, StoredItem, DeliveryDeps, Post}
use pulse_agent.Delivery.Options.{backoff, valid_token, max_payload_ref_length}
use pulse_agent.Delivery.Queue.{
  is_pending, load_item, put_item, schedule_retry_tx, mark_terminal_tx, end_current,
  audit_delivery_failure,
}
use pulse_agent.Delivery.Dispatch.{
  RetryPlan, give_up, lapse, try_again, retry_plan, outcome, transact, mark_terminal,
  after_audit_id, retry_by, retry_or_fail,
}

module _ (o : DispatcherOptions) where
  -- What a retry is given: one attempt more, below the limit, and a time before the expiry.
  pub record Again (item : DeliveryQueueItem) (now : Time) (attempt : ℤ) (at : Time) : Type 0 where
    pub counted : attempt ≡ inc item.attempt_count
    pub below : leb_ℤ o.max_attempts attempt ≡ false
    pub delayed : at ≡ add_time now (backoff o attempt)
    pub alive : at < item.expires_at

  retry_plan-Again :
      (item : DeliveryQueueItem) (now : Time) (attempt : ℤ) (at : Time)
      → retry_plan o item now ≡ try_again attempt at
      → Again item now attempt at
  unfolding retry_plan
  retry_plan-Again item now attempt at h = record {
    counted = ground arith;
    below = ground arith;
    delayed = ground arith;
    alive = ground arith;
  }

module _ (bolt : Bolt) (audit : AuditCodec) (codec : Codec DeliveryQueueItem) where
  open bolt use {Tx}

  schedule_retry-item :
      (key : String) (attempt : ℤ) (at : Time) (tx tx' : Tx) {item : DeliveryQueueItem}
      → schedule_retry_tx bolt audit codec key attempt at tx ≡ ok (item, tx')
      → (item.attempt_count ≡ attempt) × (item.next_attempt_at ≡ at) × (is_pending item ≡ true)
  schedule_retry-item key attempt at tx tx' h =
      elim (Result-cases (load_item bolt audit codec tx key)) [
        | inr (x, l) ↦ absurd (unfold schedule_retry_tx in ground arith)
        | inl (current, l) ↦
            elim (Result-cases (
              put_item bolt audit codec tx key
                (record current { attempt_count = attempt; next_attempt_at = at }))) [
                  | inr (x, p) ↦ absurd (unfold schedule_retry_tx in ground arith)
                  | inl (t, p) ↦
                      unfold schedule_retry_tx is_pending in
                      (ground arith, ground arith, ground arith)
                ]
      ]

  end_current-state :
      (key audit_id : String) (now : Time) (state : DeliveryState) (reason : String)
      (current : DeliveryQueueItem) (tx tx' : Tx) (done : Bool) {item : DeliveryQueueItem}
      → eq_delivery_state state state ≡ true
      → eq_delivery_state current.state state ≡ done
      → end_current bolt audit codec key audit_id now state reason current tx done ≡ ok (item, tx')
      → eq_delivery_state item.state state ≡ true
  unfolding end_current
  end_current-state key audit_id now state reason current tx tx' true {item} s e h =
      let same : current ≡ item = ground arith in rw (← same) e
  end_current-state key audit_id now state reason current tx tx' false {item} s e h =
      let updated = record current { state = state } in
      elim (Result-cases (
        audit_delivery_failure bolt audit codec audit_id updated now reason
          (λ t. put_item bolt audit codec t key updated) tx)) [
            | inr (x, a) ↦ absurd (ground arith)
            | inl (t, a) ↦ let same : updated ≡ item = ground arith in rw (← same) s
          ]

  mark_terminal_tx-state :
      (key audit_id : String) (now : Time) (state : DeliveryState) (reason : String) (tx tx' : Tx)
      {item : DeliveryQueueItem}
      → eq_delivery_state state state ≡ true
      → mark_terminal_tx bolt audit codec key audit_id now state reason tx ≡ ok (item, tx')
      → eq_delivery_state item.state state ≡ true
  mark_terminal_tx-state key audit_id now state reason tx tx' {item} s h =
      elim (Result-cases (load_item bolt audit codec tx key)) [
        | inr (x, l) ↦ absurd (unfold mark_terminal_tx in ground arith)
        | inl (current, l) ↦
            end_current-state key audit_id now state reason current tx tx'
              (eq_delivery_state current.state state) {item = item} s refl
              (unfold mark_terminal_tx in ground arith)
      ]

outcome-ok :
    (sent retrying : Bool) (reason : String) (r : Result DeliveryQueueItem) {res : DeliveryResult}
    → outcome sent retrying reason r ≡ ok res
    → (r ≡ ok res.item) × (res.retrying ≡ retrying)
outcome-ok sent retrying reason (err e) h = absurd (cc h)
outcome-ok sent retrying reason (ok item) h = (ground arith, ground arith)

module _ (bolt : Bolt) (audit : AuditCodec) (codec : Codec DeliveryQueueItem) (deps : DeliveryDeps)
    (o : DispatcherOptions) where
  after_audit_id-ok :
      (s : StoredItem) (now : Time) (state : DeliveryState) (reason : String) (r : Result String)
      (w : Post bolt deps) {res : DeliveryResult}
      → eq_delivery_state state state ≡ true
      → (after_audit_id bolt audit codec deps o s now state reason r w).0 ≡ ok res
      → (res.retrying ≡ false) × (eq_delivery_state res.item.state state ≡ true)
  unfolding after_audit_id
  after_audit_id-ok s now state reason (err e) w same h = absurd (cc h)
  after_audit_id-ok s now state reason (ok audit_id) w {res} same h =
      by_token (not (valid_token audit_id max_payload_ref_length)) h
    where
      transaction : bolt.Tx → Result DeliveryQueueItem × bolt.Tx
      transaction = update bolt (mark_terminal_tx bolt audit codec s.key audit_id now state reason)

      by_token :
          (b : Bool)
          → ((if b then pure (err invalid_request) else (do
            updated ← transact bolt audit codec deps o transaction
            pure (outcome false false reason updated)))
              w).0
            ≡ ok res
          → (res.retrying ≡ false) × (eq_delivery_state res.item.state state ≡ true)
      by_token true h = absurd (cc h)
      by_token false h =
          let (found, retrying) = outcome-ok false false reason (transaction w.db).0 h in
          let t =
            update-ok bolt (mark_terminal_tx bolt audit codec s.key audit_id now state reason) w.db
              found in
          (
            retrying,
            mark_terminal_tx-state bolt audit codec s.key audit_id now state reason w.db _ same t,
          )

  -- A failed attempt that is recorded is a retry below the limit of attempts, later than now by the
  -- backoff and before the item's expiry, or the end of the item.
  pub data Recorded (s : StoredItem) (now : Time) (res : DeliveryResult) : Type 0 where
    again :
        res.retrying ≡ true
        → Again o s.item now res.item.attempt_count res.item.next_attempt_at
        → is_pending res.item ≡ true
        → Recorded s now res
    exhausted :
        res.retrying ≡ false
        → leb_ℤ o.max_attempts (inc s.item.attempt_count) ≡ true
        → eq_delivery_state res.item.state delivery_failed ≡ true
        → Recorded s now res
    expired :
        res.retrying ≡ false
        → eq_delivery_state res.item.state delivery_expired ≡ true
        → Recorded s now res

  retry_by-Recorded :
      (s : StoredItem) (now : Time) (reason : String) (p : RetryPlan) (w : Post bolt deps)
      {res : DeliveryResult}
      → retry_plan o s.item now ≡ p
      → (retry_by bolt audit codec deps o s now reason p w).0 ≡ ok res
      → Recorded s now res
  unfolding retry_by after_audit_id mark_terminal
  retry_by-Recorded s now reason give_up w {res} e h =
      let (r, f) =
        after_audit_id-ok s now delivery_failed "attempts_exhausted"
          (deps.new_audit_event_id w.outside).0
          (record w { outside = (deps.new_audit_event_id w.outside).1 }) {res = res} refl h in
      exhausted r (given_up s.item now e) f
    where
      given_up :
          (item : DeliveryQueueItem) (now : Time)
          → retry_plan o item now ≡ give_up
          → leb_ℤ o.max_attempts (inc item.attempt_count) ≡ true
      given_up item now e = unfold retry_plan in ground arith
  retry_by-Recorded s now reason lapse w {res} e h =
      let (r, f) =
        after_audit_id-ok s now delivery_expired "expired" (deps.new_audit_event_id w.outside).0
          (record w { outside = (deps.new_audit_event_id w.outside).1 }) {res = res} refl h in
      expired r f
  retry_by-Recorded s now reason (try_again attempt at) w {res} e h =
      let plan = retry_plan-Again o s.item now attempt at e in
      let (found, retrying) =
        outcome-ok false true reason
          (update bolt (schedule_retry_tx bolt audit codec s.key attempt at) w.db).0 h in
      let t = update-ok bolt (schedule_retry_tx bolt audit codec s.key attempt at) w.db found in
      let (n, a, p) = schedule_retry-item bolt audit codec s.key attempt at w.db _ t in
      again retrying
        (subst (λ x. Again o s.item now x res.item.next_attempt_at) (sym n)
          (subst (λ x. Again o s.item now attempt x) (sym a) plan))
        p

  -- A failed attempt that is recorded without an error is one of three: a retry, pending, with one
  -- attempt more but fewer than the limit, at a time that is later by the backoff and before the
  -- expiry; a failed item, when the attempts reach the limit; or an expired item.
  pub retry_or_fail-Recorded :
      (s : StoredItem) (now : Time) (reason : String) (w : Post bolt deps) (res : DeliveryResult)
      → (retry_or_fail bolt audit codec deps o s now reason w).0 ≡ ok res
      → Recorded s now res
  unfolding retry_or_fail
  retry_or_fail-Recorded s now reason w res h =
      retry_by-Recorded s now reason (retry_plan o s.item now) w {res = res} refl h

  -- Failed attempts of one item, one after the other, each recorded as a retry: their number, and the
  -- item and the world after them. Between two attempts the world may change in any way.
  pub data RetryRun (s : StoredItem) : ℕ → StoredItem → Type 0 where
    no_retry : RetryRun s zero s
    one_more :
        {n : ℕ} {t : StoredItem} (now : Time) (reason : String) (w : Post bolt deps)
        (res : DeliveryResult)
        → RetryRun s n t
        → (retry_or_fail bolt audit codec deps o t now reason w).0 ≡ ok res
        → res.retrying ≡ true
        → RetryRun s (suc n) (record { key = t.key; item = res.item })

  Recorded-count :
      (s : StoredItem) (now : Time) (res : DeliveryResult) (a : ℕ)
      → Recorded s now res
      → res.retrying ≡ true
      → s.item.attempt_count ≡ pos a
      → a < max_int64
      → (res.item.attempt_count ≡ pos (suc a)) × (pos (suc a) <ℤ o.max_attempts)
  Recorded-count s now res a (again r g p) h e b =
      let counted = g.counted in let below = g.below in ground arith
  Recorded-count s now res a (exhausted r g p) h e b = absurd (cc (r, h))
  Recorded-count s now res a (expired r g) h e b = absurd (cc (r, h))

  -- The attempts of an item are bounded: after n recorded retries of an item that has been tried a
  -- times its counter is a + n, and it is below the configured limit if there was a retry at all.
  pub RetryRun-bounded :
      (s t : StoredItem) (n a : ℕ)
      → RetryRun s n t
      → s.item.attempt_count ≡ pos a
      → a < max_int64
      → o.max_attempts ≤ℤ pos max_int64
      → (t.item.attempt_count ≡ pos (a + n)) × ((n ≡ 0) ⊎ (pos (a + n) <ℤ o.max_attempts))
  RetryRun-bounded s t n a no_retry e b m = (rw e (ap pos (omega arith)), inl refl)
  RetryRun-bounded s _ _ a (one_more {n} {t} now reason w res r h g) e b m =
      let (count, small) = RetryRun-bounded s t n a r e b m in
      let (next, below) =
        Recorded-count t now res (a + n) (retry_or_fail-Recorded t now reason w res h) g count
          (room a n small b m) in
      (next ∙ ap pos (omega arith), inr (omega (arith, below)))
    where
      room :
          (a n : ℕ)
          → (n ≡ 0) ⊎ (pos (a + n) <ℤ o.max_attempts)
          → a < max_int64
          → o.max_attempts ≤ℤ pos max_int64
          → a + n < max_int64
      room a n (inl z) b m = omega arith
      room a n (inr l) b m = omega arith
