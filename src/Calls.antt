-- ===== src/Calls.antt =====
-- pkg/rtc/session.go: the call sessions and their manager.
pub mod Session
pub mod Manager
pub mod Changes
pub mod Cleanup
pub mod Consistency
pub mod Runs
pub mod Expiry
pub mod Lifecycle
pub mod Ended
pub mod Finality
pub mod Peers
mod Tests
