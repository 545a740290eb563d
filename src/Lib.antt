-- ===== src/Lib.antt =====
-- rust-litecoin: the consensus encoding of Litecoin's blocks and transactions with their MWEB parts
-- and witnesses, scripts, lock times, the 256-bit integers of the proof of work, and merkle trees.
--
-- The program is a library of data types and their wire formats. An `Encodable` value writes
-- itself to a writer and returns the number of bytes that it wrote; a `Decodable` value is read
-- from a reader, which it moves past the bytes that it used. A transaction calls the codecs of its
-- inputs, outputs, lock time and MWEB part, and these call the codecs of integers, byte vectors and
-- vectors of values. Litecoin adds to the segwit format of Bitcoin a second flag bit, an optional
-- MWEB transaction, and the HogEx mark, which is the bit without such a transaction. A block whose
-- last transaction has that mark can carry an MWEB extension block.
--
-- Files and code:
--   Prelude        the shared names, Boolean tests on numbers, lists over the native numbers
--   Wire           io/src/lib.rs and litecoin/src/consensus/encode.rs
--     Codec        readers and writers: a reader is the list of the bytes left, a decoder gives a
--                  value and the rest or an `encode::Error`; an encoder gives its bytes and the
--                  length that the code counts
--     RoundTrip    the record of what a codec promises, and how it is composed
--     Ints, VarInt, Bytes, Vectors, Whole
--                  integers, `VarInt`, `Vec<u8>` with its chunked reader, `impl_vec!`, and
--                  `serialize`, `deserialize`, `deserialize_partial`
--   Locktime       units/src/locktime and litecoin/src/blockdata/locktime (Absolute, Relative), and
--                  `Sequence` of litecoin/src/blockdata/transaction.rs (Sequence)
--   Mweb           litecoin/src/blockdata/mimblewimble.rs: Types, the numbers in base 128 (Varint),
--                  Kernel, Input, Output and Transaction, each with its RoundTrip
--   Witness        litecoin/src/blockdata/witness.rs: the byte vector with its table of positions, and
--                  the operations that change and read it
--     Buffer       writing into a vector in place
--     Layout       the vector that a list of elements has
--     Fill, Push, Nth, Stack
--                  `from_slice`, `push_slice`, the iterator and `nth`, and the accessors of the last
--                  elements, against lists of elements
--     Decode, Codec
--                  the decoder with its growing vector, against one that only reads (Plain, Loop)
--     Spend        the reading as a taproot spend, and litecoin/src/taproot/mod.rs for the version of a
--                  leaf script
--     Stored       the witnesses that the operations build up
--   Tx             litecoin/src/blockdata/transaction.rs: Types, the codecs of inputs and outputs
--                  (Parts), and `consensus_encode` and `consensus_decode_from_finite_reader` of a
--                  whole transaction (Codec), over the interface that a witness fills (Witnesses)
--     Size         the sizes, the weight, and the lock-time tests of a transaction
--   Pow            litecoin/src/pow.rs: `U256` as two halves (U256), and the number that it stands for
--                  (Value), with its sums and differences (Arithmetic), shifts
--                  (Shift), products (Product, Multiply), and long division and the inverse (Divide);
--                  targets, their compact form and the retarget rule (Target)
--   Merkle         litecoin/src/merkle_tree: the merkle root of mod.rs in place (Level, Root), and the
--                  partial trees of block.rs (Partial): one node (Node, Inner), all nodes (Tree),
--                  `from_txids` and `extract_matches` (Whole), the sizes of its hashes (Sizes), the bits
--                  packed in bytes (Codec), and merkle blocks (Block)
--   Block          litecoin/src/blockdata/block.rs: the header, the MWEB extension block, the codec of a
--                  whole block (RoundTrip) and its sizes (Size)
--   Script         litecoin/src/blockdata/script and litecoin/src/blockdata/opcodes.rs
--     Opcode       the classes of opcodes
--     Number       `write_scriptint` with its buffer (Write), `read_scriptint` by what the bytes mean
--                  (Meaning), and the bytes that are minimal (Minimal)
--     Instruction  the iterator over instructions: its end (Progress), its positions (Position), what it
--                  makes of a push (Push), and what it accepts as minimal (Canonical)
--     Buf, Builder pushing onto a `ScriptBuf` (Extend, Minimal) and the `Builder` with the opcode that it
--                  keeps (Ints, Tracked)
--     Standard     the standard scripts, their constructors and tests (Program, Hashes, Versions)
--     Count        signature operations, bare multisig, redeem scripts and dust (Sigops, Multisig)
--   Tests          the theorems at concrete inputs
--
-- Numbers: a w-bit integer is a natural number, with its bound as a hypothesis or in a record of
-- validity, and wrap-around written as a remainder. Where the code panics, the result is `panic`,
-- `none` or a constructor of its own, as the comment at the definition says.
--
-- Fuel: `read_chunks` takes the number of bytes wanted as its number of rounds, since a round reads
-- at least one byte; `write_loop` of Mweb/Varint has the ten slots of the source's array;
-- `bit_length` of Pow/U256/Divide halves a u128 at most 128 times, and its division loop recurs on the
-- source's `shift`. `resize_if_needed` of Witness/Decode doubles a length of at least one, so the
-- required length bounds its rounds; the iterator of Witness has fewer elements than its vector has
-- bytes. An item of the iterator of Script takes a byte at
-- least, so one round more than the bytes is enough; the loop of `write_scriptint` leaves a magnitude of
-- 64 bits within eight rounds. Each round of `merkle_root_r` halves the hashes, and a level of a partial tree is at most half
-- as wide as the one below it, so the number of the hashes bounds both loops.
--
-- Parameters: `PublicKeys` (Mweb/Types) stands for the public keys of the secp256k1 crate, which
-- are written in 33 bytes and read back from them. `WitnessCodec` (Tx/Types) is what a
-- transaction uses of its witnesses, and `witnesses` (Tx/Witnesses) fills it with those of Witness. The hash function of
-- Merkle is a parameter: its theorems hold for any function from bytes to bytes, and those of a merkle
-- block, whose txids are given, for any such function that returns 32 bytes.
--
-- Not modelled: what only reserves memory (`with_capacity`), formatting and parsing of text, serde,
-- hash functions, the printing of scripts, PSBT, addresses, keys and signatures, and the
-- peer-to-peer messages.
pub mod Prelude
pub mod Wire
pub mod Locktime
pub mod Mweb
pub mod Witness
pub mod Tx
pub mod Pow
pub mod Merkle
pub mod Block
pub mod Script
pub mod Tests
