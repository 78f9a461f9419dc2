-- ===== src/Tables.antt =====
-- crates/ubiquisync-tables: tables of typed rows that merge without conflicts.
pub mod Op
pub mod Reducer
pub mod Id
pub mod Validate
pub mod Codec
