-- ===== src/Merkle/Partial/Tree.antt =====
-- Every node of the tree builds and extracts.
use rust_litecoin.Prelude.{
  ℕ, zero, suc, ◌+◌, ◌*◌, ◌^◌, ◌≤◌, ◌<◌, ◌≡◌, ◌∙◌, Bool, false, List, length, ltb, arith, ltb→lt,
  ltb→ge, Bool-cases, inl, inr,
}
use native.Mathlib.Nat.{pow-suc}
use rust_litecoin.Wire.Codec.{ok}
use rust_litecoin.Merkle.{parent_hash}
use rust_litecoin.Merkle.Partial.{calc_hash, same_hash}
use rust_litecoin.Merkle.Partial.Width.{first_left, in_width}
use rust_litecoin.Merkle.Partial.Leaves.{any_true}
use rust_litecoin.Merkle.Partial.Node.{Node, below, leaf, stored}
use rust_litecoin.Merkle.Partial.Inner.{
  calc_two, calc_one, level_two, level_one, two_children, one_child,
}

-- Two nodes with the same parent have different hashes.
abbrev pub SiblingsDiffer : (List ℕ → List ℕ) → List (List ℕ) → Type 0
SiblingsDiffer sha256d txids =
    (h pos : ℕ) (l r : List ℕ)
    → (pos * 2 + 1) * 2 ^ h < length txids
    → calc_hash sha256d (length txids) txids h (pos * 2) ≡ ok l
    → calc_hash sha256d (length txids) txids h (pos * 2 + 1) ≡ ok r
    → same_hash r l ≡ false

module _ (sha256d : List ℕ → List ℕ) (txids : List (List ℕ)) (matches : List Bool) where
  -- Every node of the tree
  pub Node-at :
      (h pos : ℕ)
      → length txids ≡ length matches
      → length txids < 2 ^ 31
      → 2 ^ h ≤ 2 ^ 31
      → SiblingsDiffer sha256d txids
      → pos * 2 ^ h < length txids
      → Node sha256d txids matches h pos
  Node-at zero pos e few low differ there = leaf sha256d txids matches pos e (omega (arith, there))
  Node-at (suc h) pos e few low differ there =
      let low' : 2 ^ h ≤ 2 ^ 31 = omega (arith, low, pow-suc 2 h) in
      let width = in_width (length txids) h (pos * 2 + 1) few low' in
      let l = Node-at h (pos * 2) e few low' differ (omega (arith, there, first_left pos h)) in
      elim (Bool-cases (ltb ((pos * 2 + 1) * 2 ^ h) (length txids))) [
        | inl both ↦
            let inside = ltb→lt ((pos * 2 + 1) * 2 ^ h) (length txids) both in
            let r = Node-at h (pos * 2 + 1) e few low' differ inside in
            let apart = differ h pos (l.hash) (r.hash) inside (l.calc) (r.calc) in
            elim (Bool-cases (any_true (below sha256d txids matches (suc h) pos))) [
              | inl found ↦
                  two_children sha256d txids matches h pos l r e (width ∙ both) apart found
              | inr none_there ↦
                  stored sha256d txids matches h pos (parent_hash sha256d (l.hash) (r.hash)) e there
                    (calc_two sha256d txids matches h pos (l.hash) (r.hash) (l.calc) (r.calc)
                      (width ∙ both))
                    (level_two sha256d txids matches h pos (l.hash) (r.hash) (l.level) (r.level))
                    none_there
            ]
        | inr one ↦
            let past = ltb→ge ((pos * 2 + 1) * 2 ^ h) (length txids) one in
            elim (Bool-cases (any_true (below sha256d txids matches (suc h) pos))) [
              | inl found ↦ one_child sha256d txids matches h pos l e (width ∙ one) past found
              | inr none_there ↦
                  stored sha256d txids matches h pos (parent_hash sha256d (l.hash) (l.hash)) e there
                    (calc_one sha256d txids matches h pos (l.hash) (l.calc) (width ∙ one))
                    (level_one sha256d txids matches h pos (l.hash) (l.level) past) none_there
            ]
      ]
