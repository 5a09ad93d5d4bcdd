-- ===== src/Stabilization.antt =====
-- internal/stabilization: the health of a target after a recovery action, sample by sample.
pub mod Types
pub mod Record
pub mod Documents
pub mod Verifier
pub mod Outcomes
pub mod Samples
pub mod Retries
