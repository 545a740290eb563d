-- ===== src/Merkle/Level.antt =====
-- A round of `merkle_root_r` in place computes the level that `calculate_root` copies.
use rust_litecoin.Prelude.{
  ℕ, zero, suc, ◌+◌, ◌-◌, ◌*◌, ◌/◌, ◌%◌, ◌≤◌, ◌<◌, ◌≡◌, ◌≢◌, refl, sym, ap, ◌∙◌, List, [], ◌∷◌,
  ◌++◌, length, drop, drop_add, length-drop, length-append, append_assoc, append-nil, arith, lt→ltb,
  ge→ltb, take_front, ne→==,
}
use rust_litecoin.Wire.Codec.{ok}
use rust_litecoin.Merkle.{index, smaller, parent_hash, combine_level, copy_level, merkle_root_r}
use rust_litecoin.Merkle.Pairs.{index-append, index-drop, set-append}

module _ (sha256d : List ℕ → List ℕ) where
  pub length-copy_level :
      (hashes : List (List ℕ)) → length (copy_level sha256d hashes) ≡ (length hashes + 1) / 2
  unfolding copy_level
  length-copy_level [] = refl
  length-copy_level (a ∷ []) = refl
  length-copy_level (a ∷ b ∷ hashes) = omega (arith, length-copy_level hashes)

  -- A round reads two hashes of the part `t` that is left, the second one at `j` in it.
  round :
      (count j : ℕ) (done u : List (List ℕ)) (y a b : List ℕ)
      → index (drop (length done) (y ∷ u)) 0 ≡ ok a
      → index (drop (length done) (y ∷ u)) j ≡ ok b
      → smaller (2 * length done + 1) (length (done ++ y ∷ u) - 1) ≡ 2 * length done + j
      → combine_level sha256d (suc count) (length done) (done ++ y ∷ u)
        ≡ combine_level sha256d count
            (length (done ++ parent_hash sha256d a b ∷ []))
            ((done ++ parent_hash sha256d a b ∷ []) ++ u)
  unfolding combine_level
  round count j done u y a b first second last =
      let n = length done in
      let at : (i : ℕ) → index (done ++ y ∷ u) (2 * n + i) ≡ index (drop n (y ∷ u)) i = λ i.
        ap (index (done ++ y ∷ u)) (omega arith)
        ∙ index-append done (y ∷ u) (n + i)
        ∙ index-drop n i (y ∷ u) in
      let one : 2 * n ≡ 2 * n + 0 = omega arith in
      let next : n + 1 ≡ length (done ++ parent_hash sha256d a b ∷ []) =
        omega (arith, length-append done (parent_hash sha256d a b ∷ [])) in
      rw
        (
          ap (index (done ++ y ∷ u)) one ∙ at 0 ∙ first,
          last,
          at j ∙ second,
          set-append (parent_hash sha256d a b) y done u,
          next,
        )
        refl

  smaller-left : (a b : ℕ) → a ≤ b → smaller a b ≡ a
  unfolding smaller
  smaller-left a b h = rw (ge→ltb b a h) refl

  smaller-right : (a b : ℕ) → b < a → smaller a b ≡ b
  unfolding smaller
  smaller-right a b h = rw (lt→ltb b a h) refl

  drop-step :
      (done u : List (List ℕ)) (x y : List ℕ) (t : List (List ℕ))
      → drop 2 (drop (length done) (y ∷ u)) ≡ t
      → drop (length (done ++ x ∷ [])) u ≡ t
  drop-step done u x y t e =
      let n : length (done ++ x ∷ []) ≡ length done + 1 = length-append done (x ∷ []) in
      let two : suc (length done + 1) ≡ length done + 2 = omega arith in
      ap (λ k. drop k u) n ∙ ap (λ k. drop k (y ∷ u)) two ∙ drop_add (length done) 2 (y ∷ u) ∙ e

  -- Behind the level that is done, `t` is what is left of the hashes.
  level_lem :
      (count : ℕ) (done u t : List (List ℕ))
      → drop (length done) u ≡ t
      → count ≡ (length t + 1) / 2
      → (rest : List (List ℕ)) × (combine_level sha256d count (length done) (done ++ u)
          ≡ ok ((done ++ copy_level sha256d t) ++ rest))
  unfolding combine_level copy_level
  level_lem zero done u [] e c = (u, ap (λ xs. ok (xs ++ u)) (sym (append-nil done)))
  level_lem zero done u (a ∷ t) e c = absurd (omega (arith, c))
  level_lem (suc count) done u [] e c = absurd (omega (arith, c))
  level_lem (suc count) done [] (a ∷ t) e c =
      absurd (omega (arith, ap length e, length-drop {A = List ℕ} (length done) []))
  level_lem (suc count) done (y ∷ u) (a ∷ []) e c =
      let x = parent_hash sha256d a a in
      let total =
        smaller-right (2 * length done + 1) (length (done ++ y ∷ u) - 1) (
          omega (arith, ap length e, length-drop (length done) (y ∷ u), length-append done (y ∷ u)))
        ∙ omega
            (arith, ap length e, length-drop (length done) (y ∷ u), length-append done (y ∷ u)) in
      let step =
        round count 0 done u y a a (ap (λ xs. index xs 0) e) (ap (λ xs. index xs 0) e) total in
      let (rest, later) =
        level_lem count (done ++ x ∷ []) u [] (drop-step done u x y [] (ap (drop 2) e))
          (omega (arith, c)) in
      (rest, step ∙ later ∙ ap (λ xs. ok (xs ++ rest)) (append-nil (done ++ x ∷ [])))
  level_lem (suc count) done (y ∷ u) (a ∷ b ∷ t) e c =
      let x = parent_hash sha256d a b in
      let total = smaller-left (2 * length done + 1) (length (done ++ y ∷ u) - 1) (
        omega
          (arith, ap length e, length-drop (length done) (y ∷ u), length-append done (y ∷ u))) in
      let step =
        round count 1 done u y a b (ap (λ xs. index xs 0) e) (ap (λ xs. index xs 1) e) total in
      let (rest, later) =
        level_lem count (done ++ x ∷ []) u t (drop-step done u x y t (ap (drop 2) e))
          (omega (arith, c)) in
      (
        rest,
        step
            ∙ later
            ∙ ap (λ xs. ok (xs ++ rest)) (append_assoc done (x ∷ []) (copy_level sha256d t)),
      )

  -- A round of `merkle_root_r` on more than one hash goes on with the level above.
  pub merkle_root_r-copy_level :
      (fuel : ℕ) (hashes : List (List ℕ))
      → length hashes ≢ 1
      → merkle_root_r sha256d (suc fuel) hashes
        ≡ merkle_root_r sha256d fuel (copy_level sha256d hashes)
  unfolding merkle_root_r
  merkle_root_r-copy_level fuel hashes h =
      let (rest, level) = level_lem ((length hashes + 1) / 2) [] hashes hashes refl refl in
      let half : length hashes / 2 + length hashes % 2 ≡ length (copy_level sha256d hashes) =
        omega (arith, length-copy_level hashes) in
      rw
        (
          merkle_root_r,
          ne→== (length hashes) 1 h,
          level,
          half,
          take_front (copy_level sha256d hashes) rest,
        )
        refl
