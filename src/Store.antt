-- ===== src/Store.antt =====
-- internal/store/store.go: the transactions through which every package reads and writes the local
-- state. The database, bbolt, is a parameter.
mod Database
mod Tx
pub mod Entries
pub mod Laws
pub use Database.*
unfoldable pub use Tx.*
