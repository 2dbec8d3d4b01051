-- ===== src/Ratchet.antt =====
-- pkg/ratchet: the X3DH key agreement and the Double Ratchet.
pub mod Crypto
pub mod State
pub mod X3dh
pub mod Skipped
pub mod Cipher
pub mod Bounds
pub mod Chain
pub mod Advance
pub mod Delivery
pub mod Conversation
pub mod Handshake
pub mod Replay
mod Tests
