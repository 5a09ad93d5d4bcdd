-- ===== src/Scenarios/Auditing.antt =====
-- A chain of one audit event, and the theorems on the audit chain at concrete inputs.

use pulse_agent.Prelude.{
  ℕ, zero, suc, String, ◌≡◌, refl, ap, ◌⊎◌, true, false, [], ◌∷◌, none, length, arith,
}
use native.Mathlib.Decide.{ℕ_discrete}
use pulse_agent.Prelude.Order.{str_lt}
use pulse_agent.Prelude.Result.{ok, err, chain_invalid}
use pulse_agent.Store.{bucket_audit, check_bucket, append_audit, for_each, is_allowed}
use pulse_agent.Audit.{
  AuditEvent, CanonicalEvent, AuditCodec, is_audit_character, is_hex_character, valid_digest,
  valid_audit_field, validate_event_fields, valid_previous, canonical_bytes, canonical_digest,
  validate_stored_event, checked_event, decode_event, link_event, read_event, walk_chain,
  read_chain, chain_error, append_linked, apply_change, append,
}
use pulse_agent.Audit.Keys.{event_key, event_key_lt}
use pulse_agent.Audit.Append.{Appends, read_chain-append}
use pulse_agent.Audit.Tamper.{
  IsChain, audit_events, head_digest, Collision, read_chain-IsChain, read_chain-tamper_evident,
  events_of,
}
use pulse_agent.Scenarios.Memory.{memory, memory_open, Pairs, String-discrete}
use pulse_agent.Scenarios.Codecs.{
  marshal_two, decode_two, decode-marshal_two, marshal_two-inj, marshal_two-len,
}

-- Stands for a digest.
abbrev pub zero_digest : String
zero_digest = "0000000000000000000000000000000000000000000000000000000000000000"

unfoldable pub AuditEvent-discrete : Discrete AuditEvent
AuditEvent-discrete = hlevel (String-discrete, ℕ_discrete)

unfoldable pub CanonicalEvent-discrete : Discrete CanonicalEvent
CanonicalEvent-discrete = hlevel String-discrete

-- Stands for a time format.
unfoldable pub ticks : ℕ → String
ticks zero = ""
ticks (suc n) = String.◌∷◌ "|" (ticks n)

ticks-inj : (s t : ℕ) → ticks s ≡ ticks t → s ≡ t
unfolding ticks
ticks-inj zero zero h = refl
ticks-inj zero (suc t) h = absurd (cc h)
ticks-inj (suc s) zero h = absurd (cc h)
ticks-inj (suc s) (suc t) h = ap suc (ticks-inj s t (cc h))

-- Two events have documents: `a` and `b`, and of canonical documents only that of `a` and `b`.
module _ (a b : AuditEvent) (c d : CanonicalEvent) where
  abbrev pub audit_codec_of : AuditCodec
  audit_codec_of = record {
    limit = 65536;
    marshal = marshal_two AuditEvent-discrete a b;
    decode = decode_two AuditEvent-discrete a b;
    marshal_canonical = marshal_two CanonicalEvent-discrete c d;
    format_time = ticks;
    sha256_hex = λ s. zero_digest;
    contains_sensitive = λ s. false;
    decode-marshal = decode-marshal_two AuditEvent-discrete a b;
  }

abbrev pub first_event : AuditEvent
first_event = record {
  schema_version = "v1";
  event_id = "event-1";
  aggregate_type = "delivery";
  aggregate_id = "delivery-1";
  actor_identity = "system";
  action = "delivery.failed";
  result = "failed";
  reason_code = "expired";
  occurred_at = 3;
  previous_digest = "";
  digest = "";
}

abbrev pub first_digested : AuditEvent
first_digested = record first_event { digest = zero_digest }

abbrev pub first_canonical : CanonicalEvent
first_canonical = record {
  schema_version = "v1";
  event_id = "event-1";
  aggregate_type = "delivery";
  aggregate_id = "delivery-1";
  actor_identity = "system";
  action = "delivery.failed";
  result = "failed";
  reason_code = "expired";
  occurred_at = "|||";
  previous_digest = "";
}

-- The same event appended a second time.
abbrev again_digested : AuditEvent
again_digested = record first_digested { previous_digest = zero_digest }

abbrev again_canonical : CanonicalEvent
again_canonical = record first_canonical { previous_digest = zero_digest }

abbrev pub sample_audit : AuditCodec
sample_audit = audit_codec_of first_digested again_digested first_canonical again_canonical

abbrev first_stored : Pairs
first_stored = (bucket_audit, event_key 0, "one") ∷ []

-- Opens the audit chain, for evaluation.
unfoldable pub audit_open : Unit {0}
unfolding memory_open is_audit_character is_hex_character valid_digest valid_audit_field
    validate_event_fields valid_previous canonical_bytes canonical_digest validate_stored_event
    checked_event decode_event link_event read_event walk_chain read_chain chain_error append_linked
    apply_change append event_key AuditEvent-discrete CanonicalEvent-discrete ticks marshal_two
    decode_two check_bucket append_audit for_each is_allowed ℕ_discrete events_of audit_events
audit_open = tt

first_appended : append sample_audit memory [] first_event none ≡ ok (first_digested, first_stored)
unfolding audit_open
first_appended = refl

first_read :
    read_chain sample_audit memory first_stored
    ≡ ok (record { next_index = 1; previous_digest = zero_digest })
unfolding audit_open
first_read = refl

abbrev twice_stored : Pairs
twice_stored = (bucket_audit, event_key 1, "two") ∷ first_stored

-- The same event ID a second time is appended, and the chain is not readable any more.
duplicate_appended :
    append sample_audit memory first_stored first_event none ≡ ok (again_digested, twice_stored)
unfolding audit_open
duplicate_appended = refl

duplicate_blocks : read_chain sample_audit memory twice_stored ≡ err chain_invalid
unfolding audit_open
duplicate_blocks = refl

shape : (document : String) → valid_digest (sample_audit.sha256_hex document) ≡ true
unfolding valid_digest is_hex_character
shape document = refl

event_key_lt_example : str_lt (event_key 9) (event_key 10) ≡ true
event_key_lt_example = event_key_lt 9 10 (omega arith) (omega arith)

read_chain-append_example :
    Appends sample_audit shape memory first_stored twice_stored first_event again_digested none
read_chain-append_example =
    read_chain-append sample_audit shape memory first_stored twice_stored first_event again_digested
      none (marshal_two-len AuditEvent-discrete first_digested again_digested again_digested)
      duplicate_appended

read_chain-IsChain_example :
    IsChain sample_audit (audit_events sample_audit memory first_stored)
    × (1 ≡ length (audit_events sample_audit memory first_stored))
    × (zero_digest ≡ head_digest (audit_events sample_audit memory first_stored))
read_chain-IsChain_example =
    read_chain-IsChain sample_audit memory first_stored
      (record { next_index = 1; previous_digest = zero_digest }) first_read

read_chain-tamper_evident_example :
    (audit_events sample_audit memory first_stored ≡ audit_events sample_audit memory first_stored)
    ⊎ Collision sample_audit
read_chain-tamper_evident_example =
    read_chain-tamper_evident sample_audit
      (marshal_two-inj CanonicalEvent-discrete first_canonical again_canonical) ticks-inj memory
      first_stored first_stored (record { next_index = 1; previous_digest = zero_digest })
      (record { next_index = 1; previous_digest = zero_digest }) first_read first_read refl
