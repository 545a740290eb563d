-- ===== src/Merkle/Partial/Block.antt =====
-- `MerkleBlock` of litecoin/src/merkle_tree/block.rs: a header and a partial tree of the block's txids.
-- Those txids are a parameter, since computing them hashes transactions.
pub mod Wire
use rust_litecoin.Prelude.{ℕ, ◌≡◌, Bool, true, false, List, [], ◌∷◌, if◌then◌else◌}
use mathlib.Core.List.{map}
use rust_litecoin.Wire.Codec.{Result, ok, err, ◌and_then◌, Read, pure, ◌>>=◌, Write, ◌⊕◌}
use rust_litecoin.Wire.Whole.{consensus_decode}
use rust_litecoin.Block.{Header, encode_header, decode_header}
use rust_litecoin.Merkle.Partial.{
  PartialMerkleTree, merkle_root_mismatch, Extracted, extracted, refused, ◌and_extract◌, from_txids,
  same_hash, extract_matches,
}
use rust_litecoin.Merkle.Partial.Codec.{encode_tree, decode_tree}

pub record MerkleBlock : Type 0 where
  pub header : Header
  pub txn : PartialMerkleTree

-- `MerkleBlock::from_header_txids_with_predicate`
unfoldable pub from_header_txids_with_predicate :
    (List ℕ → List ℕ) → Header → List (List ℕ) → (List ℕ → Bool) → Result MerkleBlock
from_header_txids_with_predicate sha256d header block_txids match_txids =
    from_txids sha256d block_txids (map match_txids block_txids) and_then λ pmt.
    ok (record { header = header; txn = pmt })

-- `MerkleBlock::extract_matches`: the matches and their indexes
unfoldable pub extract_block_matches :
    (List ℕ → List ℕ) → MerkleBlock → Extracted (List (List ℕ) × List ℕ)
extract_block_matches sha256d mb =
    extract_matches sha256d (mb.txn) and_extract λ (merkle_root, found).
    if same_hash merkle_root (mb.header.merkle_root)
    then extracted found
    else refused merkle_root_mismatch

unfoldable pub encode_merkle_block : MerkleBlock → Write
encode_merkle_block mb = encode_header mb.header ⊕ encode_tree mb.txn

-- `MerkleBlock::consensus_decode`: header and tree are each read by their `consensus_decode`, behind
-- the limit. The header's fields and the tree's parts meet the same limit once more, where no more bytes
-- than that are left.
unfoldable pub decode_merkle_block : Read MerkleBlock
unfolding consensus_decode
decode_merkle_block = consensus_decode decode_header >>= λ header.
    consensus_decode decode_tree >>= λ txn. pure (record { header = header; txn = txn })
