-- ===== src/Policy.antt =====
-- internal/policy: recovery authorization. `Evaluate` is a pure function of a registry snapshot and
-- the facts of one request.
pub mod Types
pub mod Search
pub mod Sorted
pub mod Bisect
pub mod Facts
pub mod Decide
pub mod Clearance
pub mod Safety
pub use Types.*
unfoldable pub use Search.{contains}
unfoldable pub use Facts.*
unfoldable pub use Decide.*
