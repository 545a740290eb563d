-- ===== src/Merkle/Partial/Heights.antt =====
-- The levels of the tree, and the height at which there is only the root.
use rust_litecoin.Prelude.{
  ℕ, zero, suc, ◌+◌, ◌*◌, ◌/◌, ◌^◌, ◌≤◌, ◌<◌, ◌≡◌, refl, sym, ap, ◌∙◌, List, [], ◌∷◌, length, ltb,
  arith, ltb→lt, ltb→ge, lt→ltb, ge→ltb, Bool-cases, inl, inr,
}
use native.Mathlib.Nat.{pow-suc}
use rust_litecoin.Wire.Codec.{ok}
use rust_litecoin.Merkle.{index, copy_level, parent_hash}
use rust_litecoin.Merkle.Level.{length-copy_level}
use rust_litecoin.Merkle.Root.{level_at, IsRoot}
use rust_litecoin.Merkle.Partial.{height_from, calc_tree_height}
use rust_litecoin.Merkle.Partial.Width.{first_left, in_width}

module _ (sha256d : List ℕ → List ℕ) where
  level_at-copy_level :
      (h : ℕ) (hashes : List (List ℕ))
      → level_at sha256d h (copy_level sha256d hashes)
        ≡ copy_level sha256d (level_at sha256d h hashes)
  unfolding level_at
  level_at-copy_level zero hashes = refl
  level_at-copy_level (suc h) hashes = level_at-copy_level h (copy_level sha256d hashes)

  pub level_at-suc :
      (h : ℕ) (hashes : List (List ℕ))
      → level_at sha256d (suc h) hashes ≡ copy_level sha256d (level_at sha256d h hashes)
  unfolding level_at
  level_at-suc h hashes = level_at-copy_level h hashes

  half : (pos n : ℕ) → ltb pos ((n + 1) / 2) ≡ ltb (pos * 2) n
  half pos n = elim (Bool-cases (ltb (pos * 2) n)) [
    | inl e ↦ rw e (lt→ltb pos ((n + 1) / 2) (omega (arith, ltb→lt (pos * 2) n e)))
    | inr e ↦ rw e (ge→ltb pos ((n + 1) / 2) (omega (arith, ltb→ge (pos * 2) n e)))
  ]

  -- A position lies in a level if its first leaf does.
  pub in_level :
      (h pos : ℕ) (hashes : List (List ℕ))
      → ltb pos (length (level_at sha256d h hashes)) ≡ ltb (pos * 2 ^ h) (length hashes)
  unfolding level_at
  in_level zero pos hashes = ap (λ p. ltb p (length hashes)) (omega arith)
  in_level (suc h) pos hashes =
      ap (λ xs. ltb pos (length xs)) (level_at-suc h hashes)
      ∙ ap (ltb pos) (length-copy_level sha256d (level_at sha256d h hashes))
      ∙ half pos (length (level_at sha256d h hashes))
      ∙ in_level h (pos * 2) hashes
      ∙ ap (λ p. ltb p (length hashes)) (first_left pos h)

  -- The hash above two hashes, and above the last one of an odd number
  pub index-copy_level :
      (xs : List (List ℕ)) (pos : ℕ) (l r : List ℕ)
      → index xs (pos * 2) ≡ ok l
      → index xs (pos * 2 + 1) ≡ ok r
      → index (copy_level sha256d xs) pos ≡ ok (parent_hash sha256d l r)
  unfolding copy_level
  index-copy_level [] pos l r e f = absurd cc
  index-copy_level (a ∷ []) zero l r e f = absurd cc
  index-copy_level (a ∷ []) (suc pos) l r e f =
      let two : suc pos * 2 ≡ suc (suc (pos * 2)) = omega arith in let e' = rw two at e in absurd cc
  index-copy_level (a ∷ b ∷ xs) zero l r e f =
      let left : a ≡ l = cc in let right : b ≡ r = cc in rw (left, right) refl
  index-copy_level (a ∷ b ∷ xs) (suc pos) l r e f =
      let two : suc pos * 2 ≡ suc (suc (pos * 2)) = omega arith in
      let three : suc pos * 2 + 1 ≡ suc (suc (pos * 2 + 1)) = omega arith in
      index-copy_level xs pos l r (rw two at e) (rw three at f)

  pub index-copy_level-last :
      (xs : List (List ℕ)) (pos : ℕ) (l : List ℕ)
      → index xs (pos * 2) ≡ ok l
      → length xs ≤ pos * 2 + 1
      → index (copy_level sha256d xs) pos ≡ ok (parent_hash sha256d l l)
  unfolding copy_level
  index-copy_level-last [] pos l e h = absurd cc
  index-copy_level-last (a ∷ []) zero l e h = let left : a ≡ l = cc in rw left refl
  index-copy_level-last (a ∷ []) (suc pos) l e h =
      let two : suc pos * 2 ≡ suc (suc (pos * 2)) = omega arith in let e' = rw two at e in absurd cc
  index-copy_level-last (a ∷ b ∷ xs) zero l e h = absurd (omega (arith, h))
  index-copy_level-last (a ∷ b ∷ xs) (suc pos) l e h =
      let two : suc pos * 2 ≡ suc (suc (pos * 2)) = omega arith in
      index-copy_level-last xs pos l (rw two at e) (omega (arith, h))

  pub IsRoot-same :
      (hashes : List (List ℕ)) (h k : ℕ) (x y : List ℕ)
      → IsRoot sha256d hashes h x
      → IsRoot sha256d hashes k y
      → x ≡ y
  IsRoot-same hashes h k x y s t = elim (Bool-cases (ltb h k)) [
    | inl e ↦ absurd (omega (arith, t.below h (ltb→lt h k e), ap length (s.at)))
    | inr e ↦ elim (Bool-cases (ltb k h)) [
      | inl f ↦ absurd (omega (arith, s.below k (ltb→lt k h f), ap length (t.at)))
      | inr f ↦
          let same : h ≡ k = omega (arith, ltb→ge h k e, ltb→ge k h f) in
          only x y (sym (s.at) ∙ ap (λ n. level_at sha256d n hashes) same ∙ t.at)
    ]
  ]
    where
      only : (x y : List ℕ) → x ∷ [] ≡ y ∷ [] → x ≡ y
      only x y e = cc

-- The height is the first one at which one node covers all leaves.
pub record IsHeight (n height : ℕ) : Type 0 where
  pub below : (h : ℕ) → h < height → 2 ^ h < n
  pub covers : n ≤ 2 ^ height
  pub low : 2 ^ height < 2 * n

below_power : (h : ℕ) → h < 2 ^ h
below_power zero = omega arith
below_power (suc h) = omega (arith, below_power h, pow-suc 2 h)

next_power : (h : ℕ) → 2 ^ (h + 1) ≡ 2 ^ h * 2
next_power h = let e : h + 1 ≡ suc h = omega arith in ap (λ k. 2 ^ k) e ∙ pow-suc 2 h

below_next : (n h : ℕ) → 2 ^ h < n → ((k : ℕ) → k < h → 2 ^ k < n) → (k : ℕ) → k < h + 1 → 2 ^ k < n
below_next n h last below k less = elim (Bool-cases (ltb k h)) [
  | inl e ↦ below k (ltb→lt k h e)
  | inr e ↦ let same : k ≡ h = omega (arith, less, ltb→ge k h e) in rw same last
]

height_from_lem :
    (fuel n h : ℕ)
    → n < 2 ^ 30
    → n < h + fuel
    → h ≤ n
    → 2 ^ h < 2 * n
    → ((k : ℕ) → k < h → 2 ^ k < n)
    → (height : ℕ) × (height_from fuel n h ≡ ok height) × IsHeight n height
unfolding height_from
height_from_lem zero n h few enough low power below = absurd (omega (arith, enough, low))
height_from_lem (suc fuel) n h few enough low power below =
    let width = in_width n h 1 (omega (arith, few)) (omega (arith, few, power)) in
    let one : 1 * 2 ^ h ≡ 2 ^ h = omega arith in
    elim (Bool-cases (ltb (2 ^ h) n)) [
      | inl e ↦
          let (height, done, is) =
            height_from_lem fuel n (h + 1) few (omega (arith, enough))
              (omega (arith, below_power h, ltb→lt (2 ^ h) n e))
              (omega (arith, pow-suc 2 h, ltb→lt (2 ^ h) n e, next_power h))
              (below_next n h (ltb→lt (2 ^ h) n e) below) in
          (height, rw (height_from, width, one, e) done, is)
      | inr e ↦ (
        h,
        rw (height_from, width, one, e) refl,
        record { below = below; covers = ltb→ge (2 ^ h) n e; low = power },
      )
    ]

pub calc_tree_height_lem :
    (n : ℕ)
    → 0 < n
    → n < 2 ^ 30
    → (height : ℕ) × (calc_tree_height n ≡ ok height) × IsHeight n height
unfolding calc_tree_height
calc_tree_height_lem n some_there few =
    height_from_lem (suc n) n 0 few (omega arith) (omega arith) (omega (arith, some_there))
      (λ k less. absurd (omega (arith, less)))
