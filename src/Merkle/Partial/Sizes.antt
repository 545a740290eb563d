-- ===== src/Merkle/Partial/Sizes.antt =====
-- The hashes of a partial tree of litecoin/src/merkle_tree/block.rs are of the size that the hash
-- function and the txids have.
use rust_litecoin.Prelude.{
  ℕ, zero, suc, ◌+◌, ◌*◌, ◌^◌, ◌%◌, ◌≡◌, Bool, true, false, not, List, [], ◌∷◌, ◌++◌, length, ltb,
  ◌==◌, if◌then◌else◌, All,
}
use mathlib.Core.Path.{subst}
use rust_litecoin.Wire.Codec.{Result, ok, err, panic, ◌and_then◌}
use rust_litecoin.Merkle.{index, parent_hash}
use rust_litecoin.Merkle.Partial.{
  PartialMerkleTree, calc_tree_width, calc_tree_height, any_match, calc_hash, store,
  traverse_and_build, from_txids,
}

-- What holds of a result, unless it is an error
OnOk : {A : Type 0} → (A → Type 0) → Result A → Type 0
OnOk P (ok a) = P a
OnOk P (err e) = Unit

module _ {A B : Type 0} (P : A → Type 0) (Q : B → Type 0) where
  then-OnOk :
      (r : Result A) (f : A → Result B)
      → OnOk P r
      → ((a : A) → P a → OnOk Q (f a))
      → OnOk Q (r and_then f)
  unfolding OnOk
  then-OnOk (ok a) f h k = k a h
  then-OnOk (err e) f h k = tt

any-OnOk : {A : Type 0} (r : Result A) → OnOk (λ a. Unit) r
unfolding OnOk
any-OnOk (ok a) = tt
any-OnOk (err e) = tt

if-OnOk :
    {A : Type 0} (P : A → Type 0) (b : Bool) (r s : Result A)
    → OnOk P r
    → OnOk P s
    → OnOk P (if b then r else s)
if-OnOk P true r s h k = h
if-OnOk P false r s h k = k

abbrev pub Is32 : List ℕ → Type 0
Is32 hash = length hash ≡ 32

All-snoc : (xs : List (List ℕ)) (x : List ℕ) → All Is32 xs → Is32 x → All Is32 (xs ++ x ∷ [])
All-snoc [] x h hx = (hx, tt)
All-snoc (y ∷ xs) x (hy, h) hx = (hy, All-snoc xs x h hx)

index-OnOk : (xs : List (List ℕ)) (i : ℕ) → All Is32 xs → OnOk Is32 (index xs i)
unfolding OnOk
index-OnOk [] i h = tt
index-OnOk (x ∷ xs) zero (hx, h) = hx
index-OnOk (x ∷ xs) (suc i) (hx, h) = index-OnOk xs i h

abbrev TreeIs32 : List Bool × List (List ℕ) → Type 0
TreeIs32 tree = All Is32 (tree.1)

module _ (sha256d : List ℕ → List ℕ) (hashes_32 : (bytes : List ℕ) → Is32 (sha256d bytes)) (num : ℕ)
    (txids : List (List ℕ)) (txids_32 : All Is32 txids) where
  calc_hash-OnOk : (height pos : ℕ) → OnOk Is32 (calc_hash sha256d num txids height pos)
  unfolding calc_hash parent_hash OnOk
  calc_hash-OnOk zero pos = index-OnOk txids pos txids_32
  calc_hash-OnOk (suc height) pos =
      then-OnOk Is32 Is32 (calc_hash sha256d num txids height (pos * 2)) _
        (calc_hash-OnOk height (pos * 2))
        (λ left hl.
          then-OnOk Is32 Is32
            (if ltb (pos * 2 + 1) (calc_tree_width num height)
              then calc_hash sha256d num txids height (pos * 2 + 1)
              else ok left)
            _
            (if-OnOk Is32 (ltb (pos * 2 + 1) (calc_tree_width num height)) _ (ok left)
              (calc_hash-OnOk height (pos * 2 + 1)) hl)
            (λ right hr. hashes_32 (left ++ right)))

  store-OnOk :
      (height pos : ℕ) (b : Bool) (tree : List Bool × List (List ℕ))
      → TreeIs32 tree
      → OnOk TreeIs32 (store sha256d num txids height pos b tree)
  unfolding store OnOk
  store-OnOk height pos b (bits, hashes) h =
      then-OnOk Is32 TreeIs32 (calc_hash sha256d num txids height pos) _ (calc_hash-OnOk height pos)
        (λ hash hh. All-snoc hashes hash h hh)

  build-OnOk :
      (matches : List Bool) (height pos : ℕ) (tree : List Bool × List (List ℕ))
      → TreeIs32 tree
      → OnOk TreeIs32 (traverse_and_build sha256d num txids matches height pos tree)
  unfolding traverse_and_build OnOk
  build-OnOk matches zero pos tree h =
      then-OnOk (λ b. Unit) TreeIs32 (any_match num matches 1 pos) _
        (any-OnOk (any_match num matches 1 pos)) (λ b hb. store-OnOk 0 pos b tree h)
  build-OnOk matches (suc height) pos (bits, hashes) h =
      then-OnOk (λ b. Unit) TreeIs32 (any_match num matches (2 ^ suc height) (pos * 2 ^ suc height))
        _ (any-OnOk (any_match num matches (2 ^ suc height) (pos * 2 ^ suc height)))
        (λ b hb. if-OnOk TreeIs32 (not b) _ _ (store-OnOk (suc height) pos b (bits, hashes) h) (
          then-OnOk TreeIs32 TreeIs32
            (traverse_and_build sha256d num txids matches height (pos * 2) (bits ++ b ∷ [], hashes))
            _ (build-OnOk matches height (pos * 2) (bits ++ b ∷ [], hashes) h)
            (λ tree ht.
              if-OnOk TreeIs32 (ltb (pos * 2 + 1) (calc_tree_width num height)) _ (ok tree)
                (build-OnOk matches height (pos * 2 + 1) tree ht) ht)))

-- The hashes of the tree that `from_txids` builds
pub from_txids-Is32 :
    (sha256d : List ℕ → List ℕ) (txids : List (List ℕ)) (matches : List Bool)
    (t : PartialMerkleTree)
    → ((bytes : List ℕ) → Is32 (sha256d bytes))
    → All Is32 txids
    → from_txids sha256d txids matches ≡ ok t
    → All Is32 t.hashes
unfolding from_txids OnOk
from_txids-Is32 sha256d txids matches t hashes_32 txids_32 e =
    let n = length txids % 2 ^ 32 in
    let P : PartialMerkleTree → Type 0 = λ t. All Is32 (t.hashes) in
    subst (OnOk (λ t. All Is32 (t.hashes))) e (
      if-OnOk P (length txids == 0) (err panic) _ tt (
        if-OnOk P (not (length txids == length matches)) (err panic) _ tt (
          then-OnOk (λ h. Unit) P (calc_tree_height n) _ (any-OnOk (calc_tree_height n))
            (λ h hh.
              then-OnOk TreeIs32 P (traverse_and_build sha256d n txids matches h 0 ([], [])) _
                (build-OnOk sha256d hashes_32 n txids txids_32 matches h 0 ([], []) tt)
                (λ tree ht. ht)))))
