-- ===== src/Merkle/Root.antt =====
-- The root of a list of hashes: both functions compute it, and it is what the levels end in.
use rust_litecoin.Prelude.{
  ℕ, zero, suc, ◌≤◌, ◌<◌, ◌≡◌, refl, sym, ◌∙◌, List, [], ◌∷◌, some, length, arith,
}
use rust_litecoin.Wire.Codec.{ok}
use rust_litecoin.Merkle.{copy_level, merkle_root_r, calculate_root, calculate_root_inline}
use rust_litecoin.Merkle.Level.{length-copy_level, merkle_root_r-copy_level}

module _ (sha256d : List ℕ → List ℕ) where
  -- The level that lies `height` above the hashes
  unfoldable pub level_at : ℕ → List (List ℕ) → List (List ℕ)
  level_at zero hashes = hashes
  level_at (suc height) hashes = level_at height (copy_level sha256d hashes)

  -- The heights below the root, and the root as the only hash of its level
  pub record IsRoot (hashes : List (List ℕ)) (height : ℕ) (root : List ℕ) : Type 0 where
    pub below : (h : ℕ) → h < height → 1 < length (level_at h hashes)
    pub at : level_at height hashes ≡ root ∷ []

  merkle_root_r-single :
      (fuel : ℕ) (hash : List ℕ) → merkle_root_r sha256d (suc fuel) (hash ∷ []) ≡ ok hash
  unfolding merkle_root_r
  merkle_root_r-single fuel hash = refl

  IsRoot-single : (hash : List ℕ) → IsRoot (hash ∷ []) 0 hash
  unfolding level_at
  IsRoot-single hash = record { below = λ h less. absurd (omega (arith, less)); at = refl }

  IsRoot-above :
      (hashes : List (List ℕ)) (height : ℕ) (root : List ℕ)
      → 1 < length hashes
      → IsRoot (copy_level sha256d hashes) height root
      → IsRoot hashes (suc height) root
  unfolding level_at
  IsRoot-above hashes height root more up = record { below = below'; at = up.at }
    where
      below' : (h : ℕ) → h < suc height → 1 < length (level_at h hashes)
      below' zero less = more
      below' (suc h) less = up.below h (omega (arith, less))

  -- `merkle_root_r` ends in the root, with any fuel that is as large as the number of the hashes.
  pub merkle_root_r-IsRoot :
      (bound : ℕ) (hashes : List (List ℕ))
      → 0 < length hashes
      → length hashes ≤ bound
      → (height : ℕ) × (root : List ℕ) × (height < length hashes)
        × IsRoot hashes height root
        × ((fuel : ℕ) → length hashes ≤ fuel → merkle_root_r sha256d fuel hashes ≡ ok root)
  merkle_root_r-IsRoot bound [] some_there fits = absurd (omega (arith, some_there))
  merkle_root_r-IsRoot zero (x ∷ xs) some_there fits = absurd (omega (arith, fits))
  merkle_root_r-IsRoot (suc bound) (x ∷ []) some_there fits =
      (0, x, some_there, IsRoot-single x, ends)
    where
      ends : (fuel : ℕ) → 1 ≤ fuel → merkle_root_r sha256d fuel (x ∷ []) ≡ ok x
      ends zero less = absurd (omega (arith, less))
      ends (suc fuel) less = merkle_root_r-single fuel x
  merkle_root_r-IsRoot (suc bound) (x ∷ y ∷ xs) some_there fits =
      let n = length-copy_level sha256d (x ∷ y ∷ xs) in
      let (height, root, low, top, ends) =
        merkle_root_r-IsRoot bound (copy_level sha256d (x ∷ y ∷ xs)) (omega (arith, n))
          (omega (arith, n, fits)) in
      (
        suc height,
        root,
        omega (arith, n, low),
        IsRoot-above (x ∷ y ∷ xs) height root (omega arith) top,
        λ fuel. above root ends fuel,
      )
    where
      above :
          (root : List ℕ)
          → ((fuel : ℕ)
              → length (copy_level sha256d (x ∷ y ∷ xs)) ≤ fuel
              → merkle_root_r sha256d fuel (copy_level sha256d (x ∷ y ∷ xs)) ≡ ok root)
          → (fuel : ℕ) → suc (suc (length xs)) ≤ fuel
          → merkle_root_r sha256d fuel (x ∷ y ∷ xs) ≡ ok root
      above root ends zero less = absurd (omega (arith, less))
      above root ends (suc fuel) less =
          merkle_root_r-copy_level sha256d fuel (x ∷ y ∷ xs) (λ e. absurd (omega (arith, e)))
          ∙ ends fuel (omega (arith, less, length-copy_level sha256d (x ∷ y ∷ xs)))

  -- Both functions end without a panic in the root of the hashes, the only hash of the first level
  -- that has one, if there is a hash at all.
  pub calculate_root_lem :
      (hashes : List (List ℕ))
      → 0 < length hashes
      → (height : ℕ) × (root : List ℕ) × IsRoot hashes height root
        × (calculate_root sha256d hashes ≡ ok (some root))
        × (calculate_root_inline sha256d hashes ≡ ok (some root))
  unfolding calculate_root calculate_root_inline
  calculate_root_lem [] some_there = absurd (omega (arith, some_there))
  calculate_root_lem (x ∷ []) some_there = (0, x, IsRoot-single x, refl, refl)
  calculate_root_lem (x ∷ y ∷ xs) some_there =
      let n = length-copy_level sha256d (x ∷ y ∷ xs) in
      let up = copy_level sha256d (x ∷ y ∷ xs) in
      let (height, root, low, top, ends) =
        merkle_root_r-IsRoot (length up) up (omega (arith, n)) (omega arith) in
      let inline =
        merkle_root_r-copy_level sha256d (suc (length xs)) (x ∷ y ∷ xs)
          (λ e. absurd (omega (arith, e)))
        ∙ ends (suc (length xs)) (omega (arith, n)) in
      (
        suc height,
        root,
        IsRoot-above (x ∷ y ∷ xs) height root (omega arith) top,
        rw (ends (length up) (omega arith)) refl,
        rw inline refl,
      )

  -- Computing the first level while copying makes no difference, also without a hash.
  pub calculate_root-inline :
      (hashes : List (List ℕ))
      → calculate_root sha256d hashes ≡ calculate_root_inline sha256d hashes
  unfolding calculate_root calculate_root_inline
  calculate_root-inline [] = refl
  calculate_root-inline (x ∷ xs) =
      let (height, root, top, e, f) = calculate_root_lem (x ∷ xs) (omega arith) in e ∙ sym f
