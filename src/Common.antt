-- ===== src/Common.antt =====
-- common/: the limits on the calls of a node.
mod Tests
pub mod Limits
