-- ===== src/Public.antt =====
-- pkg/groups/public.go: public groups with moderation.
pub mod Actions
pub mod Service
pub mod Moderation
pub mod ProofOfWork
pub mod Bans
mod Tests
