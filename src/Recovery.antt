-- ===== src/Recovery.antt =====
-- internal/recovery: the durable command journal, its phases, and the coordinator that drives one
-- recovery command from a policy decision to the Docker adapter.
pub mod Types
pub mod Keys
pub mod Record
pub mod Transitions
pub mod Journal
pub mod Phases
pub mod Validity
pub mod Runs
pub mod Writes
pub mod Entries
pub mod Persistence
pub mod Coordinator
pub mod Approval
