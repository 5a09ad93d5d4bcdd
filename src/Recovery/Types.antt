-- ===== src/Recovery/Types.antt =====
-- The records of internal/recovery/journal.go and of docker.Snapshot, and the dependencies of the
-- journal: JSON documents and a digest.
use Prim.Native.String.{len}
use pulse_agent.Prelude.{ℕ, ◌≤◌, String, ◌≡◌, Bool, Option, some}
use pulse_agent.Prelude.Result.{Result, ok}
use pulse_agent.Contract.{Time, RecoveryCommand, ServiceTarget, TypedAction}

pub data Phase : Type 0 where
  phase_pending phase_awaiting_approval phase_approved phase_executing : Phase
  phase_stabilizing phase_completed phase_verify_and_notify : Phase
  phase_other : String → Phase

-- docker.Snapshot, and its zero value.
pub record DockerSnapshot : Type 0 where
  pub target_id : String
  pub running : Bool
  pub healthy : Bool

abbrev pub empty_snapshot : DockerSnapshot
empty_snapshot = record { target_id = ""; running = Bool.false; healthy = Bool.false }

pub record Reconciliation : Type 0 where
  pub observed_at : Time
  pub verified : Bool
  pub snapshot : DockerSnapshot

pub record JournalRecord : Type 0 where
  pub schema_version : String
  pub command : RecoveryCommand
  pub target : ServiceTarget
  pub action : TypedAction
  pub phase : Phase
  pub reconciliation : Option Reconciliation

-- json.Marshal, and contract.Decode before its validation step, for one type of document. A
-- document within the size limit decodes to what was encoded.
pub record Codec (A : Type 0) : Type 0 where
  pub limit : ℕ
  pub marshal : A → Result String
  pub decode : String → Option A
  pub decode-marshal : (a : A) (d : String) → marshal a ≡ ok d → len d ≤ limit → decode d ≡ some a
