-- ===== src/Merkle/Partial.antt =====
-- Partial merkle trees of litecoin/src/merkle_tree/block.rs. Numbers are u32 in the source: the width
-- of a level is computed modulo 2 ^ 32.
pub mod Width
pub mod Leaves
pub mod Heights
pub mod Node
pub mod Inner
pub mod Tree
pub mod Whole
pub mod Sizes
pub mod Codec
pub mod Block
use rust_litecoin.Prelude.{
  ℕ, zero, suc, ◌+◌, ◌-◌, ◌*◌, ◌/◌, ◌%◌, ◌^◌, Bool, true, false, not, ◌||◌, List, [], ◌∷◌, ◌++◌,
  Option, none, some, length, get_elem?, ltb, ◌==◌, if◌then◌else◌,
}
use rust_litecoin.Wire.Codec.{Result, ok, err, panic, ◌and_then◌}
use rust_litecoin.Merkle.{index, parent_hash}

pub record PartialMerkleTree : Type 0 where
  pub num_transactions : ℕ
  pub bits : List Bool
  pub hashes : List (List ℕ)

-- `endless` is no value of the source: it stands for a height loop that does not end.
pub data MerkleBlockError : Type 0 where
  merkle_root_mismatch : MerkleBlockError
  no_transactions : MerkleBlockError
  too_many_transactions : MerkleBlockError
  too_many_hashes : MerkleBlockError
  not_enough_bits : MerkleBlockError
  not_all_bits_consumed : MerkleBlockError
  not_all_hashes_consumed : MerkleBlockError
  bits_array_overflow : MerkleBlockError
  hashes_array_overflow : MerkleBlockError
  identical_hashes_found : MerkleBlockError
  endless : MerkleBlockError

pub data Extracted (A : Type 0) : Type 0 where
  extracted : A → Extracted A
  refused : MerkleBlockError → Extracted A

-- `?` on such a result
infixl 5 ◌and_extract◌
abbrev pub ◌and_extract◌ : {A B : Type 0} → Extracted A → (A → Extracted B) → Extracted B
extracted a and_extract f = f a
refused e and_extract f = refused e

unfoldable pub calc_tree_width : ℕ → ℕ → ℕ
calc_tree_width num_transactions height = (num_transactions + 2 ^ height - 1) % 2 ^ 32 / 2 ^ height

-- The loop of `calc_tree_height` from its `height`
unfoldable pub height_from : ℕ → ℕ → ℕ → Result ℕ
height_from zero num_transactions height = err panic
height_from (suc fuel) num_transactions height =
    elim (ltb 1 (calc_tree_width num_transactions height)) [
      | true ↦ height_from fuel num_transactions (height + 1)
      | false ↦ ok height
    ]

-- A level above the leaves is narrower, so the number of leaves is enough fuel.
unfoldable pub calc_tree_height : ℕ → Result ℕ
calc_tree_height num_transactions = height_from (suc num_transactions) num_transactions 0

-- The loop over the leaves below a node, for `count` of them from `p`
unfoldable pub any_match : ℕ → List Bool → ℕ → ℕ → Result Bool
any_match num_transactions matches zero p = ok false
any_match num_transactions matches (suc count) p =
    if ltb p num_transactions
    then (index matches p and_then λ matched.
        any_match num_transactions matches count (p + 1) and_then λ more. ok (matched || more))
    else ok false

module _ (sha256d : List ℕ → List ℕ) (num_transactions : ℕ) where
  unfoldable pub calc_hash : List (List ℕ) → ℕ → ℕ → Result (List ℕ)
  calc_hash txids zero pos = index txids pos
  calc_hash txids (suc height) pos = calc_hash txids height (pos * 2) and_then λ left.
      (if ltb (pos * 2 + 1) (calc_tree_width num_transactions height)
        then calc_hash txids height (pos * 2 + 1)
        else ok left)
      and_then λ right. ok (parent_hash sha256d left right)

  -- The bit and the hash of a node below which nothing is visited
  unfoldable pub store :
      List (List ℕ) → ℕ → ℕ → Bool → List Bool × List (List ℕ) → Result (List Bool × List (List ℕ))
  store txids height pos parent_of_match (bits, hashes) =
      calc_hash txids height pos and_then λ hash.
      ok (bits ++ parent_of_match ∷ [], hashes ++ hash ∷ [])

  -- The bits and the hashes that the tree has so far, and those with the node
  unfoldable pub traverse_and_build :
      List (List ℕ)
      → List Bool
      → ℕ
      → ℕ
      → List Bool × List (List ℕ)
      → Result (List Bool × List (List ℕ))
  traverse_and_build txids matches zero pos tree =
      any_match num_transactions matches 1 pos and_then λ parent_of_match.
      store txids 0 pos parent_of_match tree
  traverse_and_build txids matches (suc height) pos (bits, hashes) =
      any_match num_transactions matches (2 ^ suc height) (pos * 2 ^ suc height)
      and_then λ parent_of_match.
          if not parent_of_match
          then store txids (suc height) pos parent_of_match (bits, hashes)
          else (traverse_and_build txids matches height (pos * 2)
                (bits ++ parent_of_match ∷ [], hashes)
              and_then λ tree.
                  if ltb (pos * 2 + 1) (calc_tree_width num_transactions height)
                  then traverse_and_build txids matches height (pos * 2 + 1) tree
                  else ok tree)

-- The two assertions of `from_txids` panic.
unfoldable pub from_txids : (List ℕ → List ℕ) → List (List ℕ) → List Bool → Result PartialMerkleTree
from_txids sha256d txids matches =
    if length txids == 0
    then err panic
    else if not (length txids == length matches)
    then err panic
    else (calc_tree_height (length txids % 2 ^ 32) and_then λ height.
        traverse_and_build sha256d (length txids % 2 ^ 32) txids matches height 0 ([], [])
        and_then λ tree.
            ok
              (record { num_transactions = length txids % 2 ^ 32; bits = tree.0; hashes = tree.1 }))

-- The counters and the two vectors that extraction fills
pub record Extraction : Type 0 where
  pub bits_used : ℕ
  pub hash_used : ℕ
  pub matches : List (List ℕ)
  pub indexes : List ℕ

-- The next bit
unfoldable pub use_bit : List Bool → Extraction → Extracted (Bool × Extraction)
use_bit bits state = elim (get_elem? bits (state.bits_used)) [
  | none ↦ refused bits_array_overflow
  | some bit ↦ extracted (bit, record state { bits_used = state.bits_used + 1 })
]

-- The next hash
unfoldable pub use_hash : List (List ℕ) → Extraction → Extracted (List ℕ × Extraction)
use_hash hashes state = elim (get_elem? hashes (state.hash_used)) [
  | none ↦ refused hashes_array_overflow
  | some hash ↦ extracted (hash, record state { hash_used = state.hash_used + 1 })
]

-- At height 0 a set bit marks a matched txid.
unfoldable pub push_match : ℕ → Bool → List ℕ × Extraction → List ℕ × Extraction
push_match pos false (hash, state) = (hash, state)
push_match pos true (hash, state) = (
  hash,
  record state { matches = state.matches ++ hash ∷ []; indexes = state.indexes ++ pos ∷ [] },
)

unfoldable pub same_hash : List ℕ → List ℕ → Bool
same_hash [] [] = true
same_hash [] (y ∷ ys) = false
same_hash (x ∷ xs) [] = false
same_hash (x ∷ xs) (y ∷ ys) = if x == y then same_hash xs ys else false

module _ (sha256d : List ℕ → List ℕ) (num_transactions : ℕ) where
  unfoldable pub join : List ℕ → List ℕ × Extraction → Extracted (List ℕ × Extraction)
  join left (right, state) =
      if same_hash right left
      then refused identical_hashes_found
      else extracted (parent_hash sha256d left right, state)

  unfoldable pub traverse_and_extract :
      List Bool → List (List ℕ) → ℕ → ℕ → Extraction → Extracted (List ℕ × Extraction)
  traverse_and_extract bits hashes zero pos state =
      use_bit bits state and_extract λ (parent_of_match, state').
      use_hash hashes state' and_extract λ found. extracted (push_match pos parent_of_match found)
  traverse_and_extract bits hashes (suc height) pos state =
      use_bit bits state and_extract λ (parent_of_match, state').
      if not parent_of_match
      then use_hash hashes state'
      else (traverse_and_extract bits hashes height (pos * 2) state' and_extract λ (left, state'').
          if ltb (pos * 2 + 1) (calc_tree_width num_transactions height)
          then (traverse_and_extract bits hashes height (pos * 2 + 1) state'' and_extract λ found.
              join left found)
          else extracted (parent_hash sha256d left left, state''))

-- `Weight::MAX_BLOCK / Weight::MIN_TRANSACTION`
abbrev pub max_transactions : ℕ
max_transactions = 4_000_000 / (4 * 60)

-- The two tests at the end: the bits are padded to whole bytes.
unfoldable pub all_consumed :
    PartialMerkleTree → List ℕ × Extraction → Extracted (List ℕ × (List (List ℕ) × List ℕ))
all_consumed t (root, state) =
    if not ((state.bits_used + 7) / 8 == (length t.bits % 2 ^ 32 + 7) / 8)
    then refused not_all_bits_consumed
    else if not (state.hash_used == length t.hashes % 2 ^ 32)
    then refused not_all_hashes_consumed
    else extracted (root, (state.matches, state.indexes))

unfoldable pub extract_from_height :
    (List ℕ → List ℕ) → PartialMerkleTree → Result ℕ → Extracted (List ℕ × (List (List ℕ) × List ℕ))
extract_from_height sha256d t (err e) = refused endless
extract_from_height sha256d t (ok height) =
    traverse_and_extract sha256d t.num_transactions t.bits t.hashes height 0
      (record { bits_used = 0; hash_used = 0; matches = []; indexes = [] })
    and_extract all_consumed t

-- The root, and the matched txids with their indexes
unfoldable pub extract_matches :
    (List ℕ → List ℕ) → PartialMerkleTree → Extracted (List ℕ × (List (List ℕ) × List ℕ))
extract_matches sha256d t =
    if t.num_transactions == 0
    then refused no_transactions
    else if ltb max_transactions t.num_transactions
    then refused too_many_transactions
    else if ltb t.num_transactions (length t.hashes % 2 ^ 32)
    then refused too_many_hashes
    else if ltb (length t.bits) (length t.hashes)
    then refused not_enough_bits
    else extract_from_height sha256d t (calc_tree_height t.num_transactions)
