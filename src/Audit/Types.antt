-- ===== src/Audit/Types.antt =====
-- The records of internal/audit/chain.go, the AuditEvent of internal/contract, and what the chain
-- asks of JSON, SHA-256, the time format and internal/redaction.
use Prim.Native.String.{len}
use pulse_agent.Prelude.{ℕ, ◌≤◌, String, ◌≡◌, Bool, Option, some, List}
use pulse_agent.Prelude.Result.{Result, ok}
use pulse_agent.Contract.{Time}

pub record AuditEvent : Type 0 where
  pub schema_version : String
  pub event_id : String
  pub aggregate_type : String
  pub aggregate_id : String
  pub actor_identity : String
  pub action : String
  pub result : String
  pub reason_code : String
  pub occurred_at : Time
  pub previous_digest : String
  pub digest : String

-- The fields under the digest, with the time as a text.
pub record CanonicalEvent : Type 0 where
  pub schema_version : String
  pub event_id : String
  pub aggregate_type : String
  pub aggregate_id : String
  pub actor_identity : String
  pub action : String
  pub result : String
  pub reason_code : String
  pub occurred_at : String
  pub previous_digest : String

pub record ChainState : Type 0 where
  pub next_index : ℕ
  pub previous_digest : String

-- The variables that the callback of readChain captures: the state and the event IDs seen.
pub record ChainWalk : Type 0 where
  pub state : ChainState
  pub seen : List String

-- What the package calls: strict decoding within a size limit, marshalling, time.RFC3339Nano of an
-- instant in UTC, SHA-256 in hexadecimal, and redaction.ContainsSensitive.
pub record AuditCodec : Type 0 where
  pub limit : ℕ
  pub marshal : AuditEvent → Result String
  pub decode : String → Option AuditEvent
  pub marshal_canonical : CanonicalEvent → Result String
  pub format_time : Time → String
  pub sha256_hex : String → String
  pub contains_sensitive : String → Bool
  pub decode-marshal :
      (e : AuditEvent) (d : String) → marshal e ≡ ok d → len d ≤ limit → decode d ≡ some e
