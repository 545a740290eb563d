-- ===== src/Pow.antt =====
-- Proof of work: litecoin/src/pow.rs.
mod Powers
pub mod U256
pub mod Target
