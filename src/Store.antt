-- ===== src/Store.antt =====
-- tracker/store/bolt_storage_handler.go: the tracker's persistent state.
pub mod Bolt
pub mod Monad
pub mod Data
pub mod Open
pub mod Codec
pub mod Blocks
pub mod Events
pub mod Memory
pub mod Queue
pub mod Samples
mod Tests
