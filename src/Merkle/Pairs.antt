-- ===== src/Merkle/Pairs.antt =====
-- Lists that are indexed, and written in place.
use rust_litecoin.Prelude.{
  ℕ, zero, suc, ◌+◌, ◌≡◌, refl, ap, List, [], ◌∷◌, ◌++◌, length, drop, arith,
}
use rust_litecoin.Merkle.{index, set}

module _ {A : Type 0} where
  pub index-append : (xs ys : List A) (i : ℕ) → index (xs ++ ys) (length xs + i) ≡ index ys i
  index-append [] ys i = ap (index ys) (omega arith)
  index-append (x ∷ xs) ys i =
      let e : suc (length xs) + i ≡ suc (length xs + i) = omega arith in rw e (index-append xs ys i)

  pub index-drop : (n i : ℕ) (xs : List A) → index xs (n + i) ≡ index (drop n xs) i
  index-drop zero i xs = ap (index xs) (omega arith)
  index-drop (suc n) i [] = refl
  index-drop (suc n) i (x ∷ xs) =
      let e : suc n + i ≡ suc (n + i) = omega arith in rw e (index-drop n i xs)

  pub set-append :
      (x y : A) (xs ys : List A) → set (length xs) x (xs ++ y ∷ ys) ≡ (xs ++ x ∷ []) ++ ys
  set-append x y [] ys = refl
  set-append x y (z ∷ xs) ys = ap (λ zs. z ∷ zs) (set-append x y xs ys)
