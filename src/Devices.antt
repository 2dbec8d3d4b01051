-- ===== src/Devices.antt =====
-- pkg/multidevice/revocation.go: the revocation of devices.
pub mod Revocation
pub mod Certificates
pub mod ActiveDevices
mod Tests
