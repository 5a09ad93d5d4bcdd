-- ===== src/Audit.antt =====
-- internal/audit/chain.go: audit events appended in one transaction with the change they record, and
-- linked by digests.
mod Types
pub mod Keys
mod Chain
mod Walk
pub mod Append
pub mod Change
pub mod Tamper
pub use Types.*
unfoldable pub use Chain.*
