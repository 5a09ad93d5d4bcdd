-- ===== src/Delivery.antt =====
-- internal/delivery/delivery.go: the durable queue of webhook deliveries and its dispatcher.
mod Types
mod Options
mod Queue
mod Dispatch
mod Rounds
pub mod Backoff
mod Counting
mod Items
pub mod Capacity
pub mod Enqueue
pub mod Sends
pub mod Due
pub mod Attempts
pub mod Blocked
pub use Types.*
unfoldable pub use Options.*
unfoldable pub use Queue.*
unfoldable pub use Dispatch.*
unfoldable pub use Rounds.*
