-- ===== src/Locktime.antt =====
-- Lock times: units/src/locktime and litecoin/src/blockdata/locktime, and the sequence number of
-- litecoin/src/blockdata/transaction.rs.
pub mod Absolute
pub mod Relative
pub mod Sequence
