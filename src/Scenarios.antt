-- ===== src/Scenarios.antt =====
-- Concrete inputs: tests and instances of the theorems.
pub mod Memory
pub mod Samples
pub mod Tests
mod Instances
mod Decisions
mod Stabilizing
pub mod Codecs
pub mod Auditing
mod Delivering
mod Approving
mod Resuming
