-- ===== src/Merkle.antt =====
-- Merkle trees of litecoin/src/merkle_tree. A hash is the list of its bytes, and the double SHA-256
-- is a parameter. What panics in the source (an index out of range) is the error `panic`.
pub mod Pairs
pub mod Level
pub mod Root
pub mod Partial
use rust_litecoin.Prelude.{
  ℕ, zero, suc, ◌+◌, ◌-◌, ◌*◌, ◌/◌, ◌%◌, Bool, true, false, List, [], ◌∷◌, ◌++◌, Option, none, some,
  length, get_elem?, take, ltb, ◌==◌, if◌then◌else◌,
}
use rust_litecoin.Wire.Codec.{Result, ok, err, panic, ◌and_then◌}

-- `hashes[i]`
abbrev pub index : {A : Type 0} → List A → ℕ → Result A
index [] i = err panic
index (x ∷ xs) zero = ok x
index (x ∷ xs) (suc i) = index xs i

-- `hashes[i] = x`, for an index in range
abbrev pub set : {A : Type 0} → ℕ → A → List A → List A
set i x [] = []
set zero x (y ∷ ys) = x ∷ ys
set (suc i) x (y ∷ ys) = y ∷ set i x ys

unfoldable pub smaller : ℕ → ℕ → ℕ
smaller a b = if ltb b a then b else a

module _ (sha256d : List ℕ → List ℕ) where
  -- The two hashes are written to one engine.
  unfoldable pub parent_hash : List ℕ → List ℕ → List ℕ
  parent_hash left right = sha256d (left ++ right)

  -- The loop of `merkle_root_r` from `idx`, for `count` rounds
  unfoldable pub combine_level : ℕ → ℕ → List (List ℕ) → Result (List (List ℕ))
  combine_level zero idx hashes = ok hashes
  combine_level (suc count) idx hashes = index hashes (2 * idx) and_then λ hash1.
      index hashes (smaller (2 * idx + 1) (length hashes - 1)) and_then λ hash2.
      combine_level count (idx + 1) (set idx (parent_hash hash1 hash2) hashes)

  -- Each round halves the hashes, so their number is enough fuel. Without a hash the source would
  -- not end.
  unfoldable pub merkle_root_r : ℕ → List (List ℕ) → Result (List ℕ)
  merkle_root_r zero hashes = err panic
  merkle_root_r (suc fuel) hashes = elim (length hashes == 1) [
    | true ↦ index hashes 0
    | false ↦ combine_level ((length hashes + 1) / 2) 0 hashes and_then λ hashes'.
        merkle_root_r fuel (take (length hashes / 2 + length hashes % 2) hashes')
  ]

  unfoldable pub calculate_root_inline : List (List ℕ) → Result (Option (List ℕ))
  calculate_root_inline [] = ok none
  calculate_root_inline (hash ∷ []) = ok (some hash)
  calculate_root_inline (hash1 ∷ hash2 ∷ hashes) =
      merkle_root_r (suc (suc (length hashes))) (hash1 ∷ hash2 ∷ hashes) and_then λ root.
      ok (some root)

  -- The first level is computed while the hashes are copied.
  unfoldable pub copy_level : List (List ℕ) → List (List ℕ)
  copy_level [] = []
  copy_level (hash1 ∷ []) = parent_hash hash1 hash1 ∷ []
  copy_level (hash1 ∷ hash2 ∷ hashes) = parent_hash hash1 hash2 ∷ copy_level hashes

  unfoldable pub calculate_root : List (List ℕ) → Result (Option (List ℕ))
  calculate_root [] = ok none
  calculate_root (first ∷ []) = ok (some first)
  calculate_root (first ∷ second ∷ hashes) =
      merkle_root_r (length (copy_level (first ∷ second ∷ hashes)))
        (copy_level (first ∷ second ∷ hashes))
      and_then λ root. ok (some root)
