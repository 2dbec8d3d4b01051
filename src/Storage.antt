-- ===== src/Storage.antt =====
-- pkg/storage: the records that are kept, and the store in memory.
pub mod Records
pub mod Memory
pub mod Reading
pub mod Spec
pub mod Refinement
pub mod Implements
pub mod Runs
pub mod Posts
pub mod Answers
pub mod Pages
mod Tests
