-- ===== src/Sendtx.antt =====
-- sendtx/: the instructions and the transactions of the bridge.
mod Tests
pub mod Ed25519
pub mod Program
pub mod Config
pub mod Data
pub mod Monad
pub mod Mints
pub mod Build
pub mod Instructions
pub mod Budget
pub mod Transaction
