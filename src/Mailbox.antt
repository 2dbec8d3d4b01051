-- ===== src/Mailbox.antt =====
-- pkg/mailbox/storage.go: the storage of messages for peers that are offline.
pub mod Database
pub mod Keys
pub mod Metadata
pub mod Storage
pub mod RateLimit
pub mod Quota
pub mod Messages
pub mod Deposits
mod Tests
