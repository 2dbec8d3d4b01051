-- ===== src/Membership.antt =====
-- Who is in a group: the methods of `Service` in pkg/groups/service.go that change groups.
pub mod Methods
pub mod Rotation
pub mod Updates
pub mod Departure
mod Tests
