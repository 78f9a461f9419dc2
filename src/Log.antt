-- ===== src/Log.antt =====
-- crates/ubiquisync-core/src/log: a peer's append-only log.
pub mod Entry
pub mod Hash
pub mod Cipher
pub mod Verify
pub mod Segment
pub mod Plaintext
pub mod Decoded
pub mod Join
