-- ===== src/Wire.antt =====
-- The consensus encoding of litecoin/src/consensus/encode.rs.
pub mod Codec
pub mod Monad
pub mod RoundTrip
pub mod Ints
pub mod VarInt
pub mod Bytes
pub mod Vectors
pub mod Whole
