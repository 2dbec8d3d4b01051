-- ===== src/Groups.antt =====
-- pkg/groups: the state of a group, its updates, and the service of private groups.
pub mod State
pub mod Members
pub mod Roster
pub mod Removal
pub mod Changes
pub mod Update
pub mod ByteOrder
pub mod SplitBrain
mod Tests
