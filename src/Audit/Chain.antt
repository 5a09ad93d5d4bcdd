-- ===== src/Audit/Chain.antt =====
-- The operations of internal/audit/chain.go.
use Prim.Native.String.{len}
use pulse_agent.Prelude.{
  ℕ, suc, ◌-◌, ◌^◌, ltb, leb, eqb, any, all, String, Bool, not, ◌&&◌, ◌||◌, List, [], ◌∷◌, Option,
  none, some, ◌==◌,
}
use pulse_agent.Prelude.Text.{codes}
use pulse_agent.Prelude.Result.{
  Error, Result, ok, err, invalid_event, chain_invalid, chain_capacity, ◌>>=◌, ◌>>◌, fail_if,
  or_error, is_ok, map_error,
}
use pulse_agent.Contract.{is_zero, schema_version_v1}
use pulse_agent.Store.{Bolt, bucket_audit, append_audit, for_each}
use pulse_agent.Audit.Types.{AuditEvent, CanonicalEvent, ChainState, ChainWalk, AuditCodec}
use pulse_agent.Audit.Keys.{event_key}

abbrev pub max_field_bytes : ℕ
max_field_bytes = 128

abbrev pub max_uint64 : ℕ
max_uint64 = 2 ^ 64 - 1

-- Letters, digits and `._-:/@`.
unfoldable pub is_audit_character : ℕ → Bool
is_audit_character c =
    (leb 97 c && leb c 122)
    || (leb 65 c && leb c 90)
    || (leb 48 c && leb c 57)
    || any (λ d. eqb c d) (codes "._-:/@")

unfoldable pub is_hex_character : ℕ → Bool
is_hex_character c = (leb 48 c && leb c 57) || (leb 97 c && leb c 102) || (leb 65 c && leb c 70)

-- hex.DecodeString takes digits of either case.
unfoldable pub valid_digest : String → Bool
unfolding is_hex_character
valid_digest value = eqb (len value) 64 && all is_hex_character (codes value)

abbrev pub zero_state : ChainState
zero_state = record { next_index = 0; previous_digest = "" }

abbrev pub eq_chain_state : ChainState → ChainState → Bool
eq_chain_state a b = eqb a.next_index b.next_index && a.previous_digest == b.previous_digest

abbrev pub canonical_event : (codec : AuditCodec) → AuditEvent → CanonicalEvent
canonical_event codec e = record {
  schema_version = e.schema_version;
  event_id = e.event_id;
  aggregate_type = e.aggregate_type;
  aggregate_id = e.aggregate_id;
  actor_identity = e.actor_identity;
  action = e.action;
  result = e.result;
  reason_code = e.reason_code;
  occurred_at = codec.format_time e.occurred_at;
  previous_digest = e.previous_digest;
}

abbrev pub audit_fields : AuditEvent → List String
audit_fields e =
    e.event_id ∷ e.aggregate_type ∷ e.aggregate_id ∷ e.actor_identity ∷ e.action ∷ e.result
    ∷ e.reason_code ∷ []

-- Every failure of the walk but a full key space.
unfoldable pub chain_error : Error → Error
chain_error chain_capacity = chain_capacity
chain_error _ = chain_invalid

-- An absent previous digest is allowed.
unfoldable pub valid_previous : String → Bool
unfolding valid_digest
valid_previous digest = digest == "" || valid_digest digest

-- The rest of the callback of readChain, after decoding. The index never wraps.
unfoldable pub link_event : ChainWalk → AuditEvent → Result ChainWalk
link_event w e = do
  fail_if (not (e.previous_digest == w.state.previous_digest)) chain_invalid
  fail_if (any (λ id. id == e.event_id) w.seen) chain_invalid
  fail_if (eqb w.state.next_index max_uint64) chain_capacity
  ok (record {
    state = record { next_index = suc w.state.next_index; previous_digest = e.digest };
    seen = e.event_id ∷ w.seen;
  })

abbrev pub empty_walk : ChainWalk
empty_walk = record { state = zero_state; seen = [] }

-- The digest has to be that of the event.
unfoldable pub checked_event : AuditEvent → Result String → Result AuditEvent
checked_event e (err x) = err chain_invalid
checked_event e (ok expected) = do fail_if (not (e.digest == expected)) chain_invalid; ok e

module _ (codec : AuditCodec) where
  unfoldable pub valid_audit_field : String → Bool
  unfolding is_audit_character
  valid_audit_field value =
      not (value == "" || ltb max_field_bytes (len value))
      && not (codec.contains_sensitive value)
      && all is_audit_character (codes value)

  unfoldable pub validate_event_fields : AuditEvent → Result (Unit {0})
  unfolding valid_audit_field
  validate_event_fields e = do
    fail_if (not (e.schema_version == schema_version_v1) || is_zero e.occurred_at) invalid_event
    fail_if (not (all valid_audit_field (audit_fields e))) invalid_event

  unfoldable pub canonical_bytes : AuditEvent → Result String
  unfolding validate_event_fields valid_previous
  canonical_bytes e = do
    validate_event_fields e
    fail_if (not (valid_previous e.previous_digest)) invalid_event
    codec.marshal_canonical (canonical_event codec e)

  unfoldable pub canonical_digest : AuditEvent → Result String
  unfolding canonical_bytes
  canonical_digest e = do canonical ← canonical_bytes e; ok (codec.sha256_hex canonical)

  unfoldable pub validate_stored_event : AuditEvent → Result (Unit {0})
  unfolding validate_event_fields valid_digest valid_previous
  validate_stored_event e = do
    validate_event_fields e
    fail_if (not (valid_digest e.digest) || not (valid_previous e.previous_digest)) invalid_event

  unfoldable pub decode_event : String → Result AuditEvent
  unfolding validate_stored_event canonical_digest checked_event
  decode_event document = do
    e ← or_error (codec.decode document) chain_invalid
    fail_if (not (is_ok (validate_stored_event e))) chain_invalid
    checked_event e (canonical_digest e)

  unfoldable pub read_event : ChainWalk → String → String → Result ChainWalk
  unfolding decode_event link_event
  read_event w key document = do
    fail_if (not (key == event_key w.state.next_index)) chain_invalid
    e ← decode_event document
    link_event w e

  module _ (bolt : Bolt) where
    open bolt use {Tx}

    unfoldable pub walk_chain : Tx → Result ChainWalk
    unfolding read_event
    walk_chain tx = for_each bolt tx bucket_audit read_event empty_walk

    unfoldable pub read_chain : Tx → Result ChainState
    unfolding walk_chain chain_error
    read_chain tx = do w ← map_error chain_error (walk_chain tx); ok w.state

    unfoldable pub validate_chain : Tx → Result (Unit {0})
    unfolding read_chain
    validate_chain tx = do state ← read_chain tx; ok tt

    -- The part of Append after the change: digest, marshal and store.
    unfoldable pub append_linked : ChainState → AuditEvent → Tx → Result (AuditEvent × Tx)
    unfolding canonical_digest
    append_linked state event tx = do
      fail_if (eqb state.next_index max_uint64) chain_capacity
      let linked = record event { previous_digest = state.previous_digest }
      digest ← canonical_digest linked
      let digested = record linked { digest = digest }
      document ← codec.marshal digested
      tx' ← append_audit bolt tx (event_key state.next_index) document
      ok (digested, tx')

    -- The change runs over a valid chain, and must leave it in the same state.
    unfoldable pub apply_change : ChainState → Option (Tx → Result Tx) → Tx → Result Tx
    unfolding read_chain
    apply_change state none tx = ok tx
    apply_change state (some change) tx = do
      tx' ← change tx
      after_change ← read_chain tx'
      fail_if (not (eq_chain_state after_change state)) chain_invalid
      ok tx'

    unfoldable pub append : Tx → AuditEvent → Option (Tx → Result Tx) → Result (AuditEvent × Tx)
    unfolding read_chain validate_event_fields append_linked apply_change
    append tx event change = do
      state ← read_chain tx
      fail_if (not (event.previous_digest == "") || not (event.digest == "")) invalid_event
      validate_event_fields event
      tx' ← apply_change state change tx
      append_linked state event tx'
