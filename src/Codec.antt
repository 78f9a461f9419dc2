-- ===== src/Codec.antt =====
-- crates/ubiquisync-core/src/codec: the byte codec on which every wire format of the system stands.
pub mod Varint
pub mod Writer
pub mod Reader
pub mod RoundTrip
pub mod Containers
pub mod Inverse
