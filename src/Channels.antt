-- ===== src/Channels.antt =====
-- pkg/groups/channel.go: channels and their posts.
pub mod State
pub mod Store
pub mod Service
pub mod Posting
pub mod Subscriptions
pub mod Sync
pub mod Steps
pub mod Posts
pub mod Counts
pub mod Runs
mod Tests
