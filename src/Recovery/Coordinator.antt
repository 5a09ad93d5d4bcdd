-- ===== src/Recovery/Coordinator.antt =====
-- internal/recovery/coordinator.go: Submit, Resume, Reconcile and CompleteStabilization, over the
-- journal and the coordinator's dependencies.
pub mod Deps
pub mod Check
pub mod Execute
pub mod Submit
pub mod Restart
pub mod Judgement
pub mod Safety
pub mod Preparing
pub mod Reach
pub mod Resumption
pub mod Silence
