-- ===== src/Tests.antt =====
-- The theorems at concrete inputs, and short runs of the definitions.
mod Samples
mod Wire
mod Witness
mod Mweb
mod Tx
mod Locktime
mod Pow
mod Merkle
mod Block
mod Script
