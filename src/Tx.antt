-- ===== src/Tx.antt =====
-- Transactions of litecoin/src/blockdata/transaction.rs.
pub mod Witnesses
pub mod Types
pub mod Parts
pub mod Codec
pub mod Size
