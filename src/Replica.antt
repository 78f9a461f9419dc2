-- ===== src/Replica.antt =====
-- crates/ubiquisync-sql/src/replica: what a replica keeps beside the tables.
pub mod Clock
