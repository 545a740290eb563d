-- ===== src/Tests/Merkle.antt =====
-- A block of three transactions; the hash of bytes is the bytes themselves here.
use rust_litecoin.Prelude.{
  ℕ, zero, suc, ◌+◌, ◌*◌, ◌^◌, ◌≤◌, ◌≡◌, refl, sym, replicate, ◌==◌, Bool, true, false, List, [],
  ◌∷◌, some, arith,
}
use native.Mathlib.Nat.{pow-suc}
use rust_litecoin.Wire.Codec.{ok}
use rust_litecoin.Wire.RoundTrip.{RoundTrip}
use rust_litecoin.Block.{Header}
use rust_litecoin.Block.RoundTrip.{IsValidHeader}
use rust_litecoin.Merkle.Partial.Block.{
  MerkleBlock, from_header_txids_with_predicate, extract_block_matches, encode_merkle_block,
  decode_merkle_block,
}
use rust_litecoin.Merkle.Partial.Block.Wire.{received, extract_block_matches-received}
use rust_litecoin.Merkle.{
  merkle_root_r, copy_level, calculate_root, calculate_root_inline, parent_hash,
}
use rust_litecoin.Merkle.Root.{IsRoot, calculate_root_lem}
use rust_litecoin.Merkle.Partial.{
  PartialMerkleTree, extracted, from_txids, extract_matches, calc_hash, calc_tree_width, same_hash,
}
use rust_litecoin.Merkle.Partial.Width.{power_positive}
use rust_litecoin.Merkle.Partial.Leaves.{matched_txids, matched_indexes}
use rust_litecoin.Merkle.Partial.Tree.{SiblingsDiffer}
use rust_litecoin.Merkle.Partial.Whole.{extract_matches-from_txids}

abbrev unhashed : List ℕ → List ℕ
unhashed bytes = bytes

abbrev three : List (List ℕ)
three = (1 ∷ []) ∷ (2 ∷ []) ∷ (3 ∷ []) ∷ []

calculate_root_lem_example :
    (height : ℕ) × (root : List ℕ) × IsRoot unhashed three height root
    × (calculate_root unhashed three ≡ ok (some root))
    × (calculate_root_inline unhashed three ≡ ok (some root))
calculate_root_lem_example = calculate_root_lem unhashed three (omega arith)

three-SiblingsDiffer : SiblingsDiffer unhashed three
unfolding calc_hash calc_tree_width parent_hash same_hash
three-SiblingsDiffer zero zero l r inside e f =
    let left : l ≡ 1 ∷ [] = cc in let right : r ≡ 2 ∷ [] = cc in rw (left, right) refl
three-SiblingsDiffer zero (suc pos) l r inside e f = absurd (omega (arith, inside))
three-SiblingsDiffer (suc zero) zero l r inside e f =
    let left : l ≡ 1 ∷ 2 ∷ [] = cc in let right : r ≡ 3 ∷ 3 ∷ [] = cc in rw (left, right) refl
three-SiblingsDiffer (suc zero) (suc pos) l r inside e f = absurd (omega (arith, inside))
three-SiblingsDiffer (suc (suc h)) pos l r inside e f = absurd (omega (arith, inside, large pos h))
  where
    large : (pos h : ℕ) → 4 ≤ (pos * 2 + 1) * 2 ^ suc (suc h)
    large pos h =
        let q = 2 ^ suc (suc h) in
        let split : (pos * 2 + 1) * q ≡ pos * 2 * q + q = omega arith in
        omega (arith, split, pow-suc 2 (suc h), pow-suc 2 h, power_positive h)

abbrev flags : List Bool
flags = false ∷ true ∷ true ∷ []

extract_matches-from_txids_example :
    (t : PartialMerkleTree) × (root : List ℕ) × (from_txids unhashed three flags ≡ ok t)
    × (extract_matches unhashed t
        ≡ extracted (root, (matched_txids three flags, matched_indexes 0 flags)))
    × (calculate_root unhashed three ≡ ok (some root))
extract_matches-from_txids_example =
    extract_matches-from_txids unhashed three flags (omega arith) (omega arith) refl
      three-SiblingsDiffer

-- A hash function of 32 bytes, and two txids
abbrev hash_32 : List ℕ → List ℕ
hash_32 bytes = replicate 32 7

abbrev two_txids : List (List ℕ)
two_txids = replicate 32 1 ∷ replicate 32 2 ∷ []

abbrev is_second : List ℕ → Bool
is_second [] = false
is_second (b ∷ bytes) = b == 2

abbrev two_header : Header
two_header = record {
  version = 1;
  prev_blockhash = replicate 32 0;
  merkle_root = replicate 32 7;
  time = 2;
  bits = 3;
  nonce = 4;
}

two_header-IsValid : IsValidHeader two_header
two_header-IsValid = record {
  version_fits = omega arith;
  prev_size = refl;
  root_size = refl;
  time_fits = omega arith;
  bits_fit = omega arith;
  nonce_fits = omega arith;
}

two-SiblingsDiffer : SiblingsDiffer hash_32 two_txids
unfolding calc_hash calc_tree_width parent_hash same_hash
two-SiblingsDiffer zero zero l r inside e f =
    let left : l ≡ replicate 32 1 = sym (inj _ l e) in
    let right : r ≡ replicate 32 2 = sym (inj _ r f) in rw (left, right) refl
  where
    inj : (a b : List ℕ) → ok a ≡ ok b → a ≡ b
    inj a b h = cc
two-SiblingsDiffer zero (suc pos) l r inside e f = absurd (omega (arith, inside))
two-SiblingsDiffer (suc h) pos l r inside e f = absurd (omega (arith, inside, large pos h))
  where
    large : (pos h : ℕ) → 2 ≤ (pos * 2 + 1) * 2 ^ suc h
    large pos h =
        let q = 2 ^ suc h in
        let split : (pos * 2 + 1) * q ≡ pos * 2 * q + q = omega arith in
        omega (arith, split, pow-suc 2 h, power_positive h)

extract_block_matches-received_example :
    (mb : MerkleBlock) × (from_header_txids_with_predicate hash_32 two_header two_txids is_second
      ≡ ok mb)
    × RoundTrip (encode_merkle_block mb) decode_merkle_block (received mb)
    × (extract_block_matches hash_32 (received mb) ≡ extracted (replicate 32 2 ∷ [], 1 ∷ []))
unfolding calculate_root parent_hash merkle_root_r copy_level
extract_block_matches-received_example =
    extract_block_matches-received hash_32 two_header two_txids is_second two_header-IsValid refl
      (omega arith) (omega arith) (λ bytes. refl) (refl, (refl, tt)) two-SiblingsDiffer
