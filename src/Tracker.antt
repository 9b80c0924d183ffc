-- ===== src/Tracker.antt =====
-- tracker/: the event tracker, which follows the chain head and the tracked programs' transactions.
pub mod Retry
pub mod Slots
pub mod Storage
pub mod ChainHead
pub mod Payload
pub mod Cpi
pub mod Action
pub mod Signatures
pub mod Processing
pub mod Config
mod Tests
