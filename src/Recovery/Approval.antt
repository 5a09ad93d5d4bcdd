-- ===== src/Recovery/Approval.antt =====
-- internal/recovery/approval.go: the decisions of local administrators on commands that await one.
mod Types
mod Plan
mod Decide
mod Source
pub mod Matched
pub mod Immutable
pub mod Kept
mod Stored
mod Chosen
mod Recorded
pub mod Accepted
pub mod Attached
unfoldable pub use Types.*
unfoldable pub use Plan.*
unfoldable pub use Decide.*
unfoldable pub use Source.*
