-- ===== src/SenderKeys.antt =====
-- The sender keys of private groups: pkg/groups/state.go and pkg/groups/service.go.
pub mod Key
pub mod Messages
pub mod Advance
pub mod Mismatch
pub mod Distribution
mod Tests
