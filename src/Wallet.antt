-- ===== src/Wallet.antt =====
-- wallet/: keys, addresses and lookup tables.
mod Tests
pub mod Keys
pub mod Address
pub mod Extend
pub mod Resolver
