-- ===== src/Mweb.antt =====
-- The MWEB wire types of litecoin/src/blockdata/mimblewimble.rs.
pub mod Varint
pub mod Types
pub mod Parts
pub mod Kernel
pub mod Input
pub mod Output
pub mod Transaction
