-- ===== src/Merkle/Partial/Block/Wire.antt =====
-- A merkle block of litecoin/src/merkle_tree/block.rs through the wire.
use rust_litecoin.Prelude.{
  ℕ, suc, ◌+◌, ◌-◌, ◌*◌, ◌/◌, ◌≤◌, ◌<◌, ◌≡◌, refl, sym, ap, ◌∙◌, Bool, true, List, [], ◌∷◌, some,
  length, arith, All, ==_refl,
}
use mathlib.Core.List.{map}
use rust_litecoin.Wire.Codec.{ok}
use rust_litecoin.Wire.RoundTrip.{RoundTrip, RoundTrip->>=, RoundTrip-then}
use rust_litecoin.Wire.Whole.{RoundTrip-consensus_decode}
use rust_litecoin.Block.{Header}
use rust_litecoin.Block.RoundTrip.{IsValidHeader, RoundTrip-header}
use rust_litecoin.Block.Size.{header-Sized}
use rust_litecoin.Merkle.{calculate_root}
use rust_litecoin.Merkle.Partial.{extracted, same_hash, max_transactions}
use rust_litecoin.Merkle.Partial.Leaves.{matched_txids, matched_indexes}
use rust_litecoin.Merkle.Partial.Tree.{SiblingsDiffer}
use rust_litecoin.Merkle.Partial.Whole.{extract_matches-padded}
use rust_litecoin.Merkle.Partial.Sizes.{Is32, from_txids-Is32}
use rust_litecoin.Merkle.Partial.Codec.{padding, length-falses}
use rust_litecoin.Merkle.Partial.Codec.Padded.{IsValidTree, padded, RoundTrip-tree}
use rust_litecoin.Merkle.Partial.Block.{
  MerkleBlock, from_header_txids_with_predicate, extract_block_matches, encode_merkle_block,
  decode_merkle_block,
}

same_hash_refl : (xs : List ℕ) → same_hash xs xs ≡ true
unfolding same_hash
same_hash_refl [] = refl
same_hash_refl (x ∷ xs) = rw (==_refl x) (same_hash_refl xs)

length-map : (f : List ℕ → Bool) (xs : List (List ℕ)) → length xs ≡ length (map f xs)
length-map f [] = refl
length-map f (x ∷ xs) = ap suc (length-map f xs)

some-inj : (a b : List ℕ) → ok (some a) ≡ ok (some b) → a ≡ b
some-inj a b h = cc

-- What is read back
abbrev pub received : MerkleBlock → MerkleBlock
received mb = record mb { txn = padded mb.txn }

RoundTrip-merkle_block :
    (mb : MerkleBlock)
    → IsValidHeader mb.header
    → IsValidTree mb.txn
    → RoundTrip (encode_merkle_block mb) decode_merkle_block (received mb)
unfolding encode_merkle_block decode_merkle_block
RoundTrip-merkle_block mb vh vt =
    RoundTrip->>= _ _ _ _ mb.header _
      (RoundTrip-consensus_decode _ _ mb.header 80 (RoundTrip-header mb.header vh)
        (header-Sized mb.header vh) (omega arith))
      (RoundTrip-then _ _ _ (padded mb.txn) _ (RoundTrip-tree mb.txn vt) (λ s. refl))

-- A merkle block that is made for the txids of a block and a test on them is written, and what is read
-- back from its bytes gives the txids that pass the test, with their indexes. The header holds the
-- merkle root of the txids. There is a txid, there are at most as many as a block can have, they and
-- all hashes are of 32 bytes, and no two siblings have the same hash.
pub extract_block_matches-received :
    (sha256d : List ℕ → List ℕ) (header : Header) (txids : List (List ℕ)) (test : List ℕ → Bool)
    → IsValidHeader header
    → calculate_root sha256d txids ≡ ok (some header.merkle_root)
    → 0 < length txids
    → length txids ≤ max_transactions
    → ((bytes : List ℕ) → Is32 (sha256d bytes))
    → All Is32 txids
    → SiblingsDiffer sha256d txids
    → (mb : MerkleBlock) × (from_header_txids_with_predicate sha256d header txids test ≡ ok mb)
      × RoundTrip (encode_merkle_block mb) decode_merkle_block (received mb)
      × (extract_block_matches sha256d (received mb)
          ≡ extracted (matched_txids txids (map test txids), matched_indexes 0 (map test txids)))
unfolding from_header_txids_with_predicate extract_block_matches
extract_block_matches-received sha256d header txids test vh root_of some_there few h32 t32 differ =
    let matches = map test txids in
    let (t, root, built, extract, top, num, hashes, bits) =
      extract_matches-padded sha256d txids matches some_there few (length-map test txids) differ in
    let valid : IsValidTree t = record {
      num_fits = omega (arith, num, few);
      hashes_fit = omega (arith, hashes, few);
      hash_sizes = from_txids-Is32 sha256d txids matches t h32 t32 built;
      size_fits = omega (arith, hashes, bits, few);
    } in
    let mb : MerkleBlock = record { header = header; txn = t } in
    let pad = length-falses (8 * ((length (t.bits) + 7) / 8) - length (t.bits)) in
    let found = extract (padding (t.bits)) (omega (arith, pad)) (omega (arith, pad)) in
    let same : root ≡ header.merkle_root = some-inj root (header.merkle_root) (sym top ∙ root_of) in
    (
      mb,
      rw built refl,
      RoundTrip-merkle_block mb vh valid,
      rw (found, same, same_hash_refl (header.merkle_root)) refl,
    )
