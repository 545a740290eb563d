-- ===== src/Script/Instruction/Progress.antt =====
-- The iterator of litecoin/src/blockdata/script/instruction.rs comes to an end.
use rust_litecoin.Prelude.{
  ℕ, zero, suc, ◌<◌, ◌≤◌, ◌≡◌, refl, ap, [], ◌∷◌, none, some, length, arith, inl, inr, Option-cases,
}
use rust_litecoin.Script.{Result}
use rust_litecoin.Script.Instruction.{Instruction, Instructions, next, items_within, items}
use rust_litecoin.Script.Instruction.Later.{next-shorter}

items_within-none :
    (fuel : ℕ) (it : Instructions) → (next it).0 ≡ none → items_within (suc fuel) it ≡ []
unfolding items_within
items_within-none fuel it e = rw (items_within, e) refl

items_within-some :
    (fuel : ℕ) (it : Instructions) (item : Result Instruction)
    → (next it).0 ≡ some item
    → items_within (suc fuel) it ≡ item ∷ items_within fuel (next it).1
unfolding items_within
items_within-some fuel it item e = rw (items_within, e) refl

items_within-enough :
    (fuel more : ℕ) (it : Instructions)
    → length (it.left) < fuel
    → length (it.left) < more
    → items_within fuel it ≡ items_within more it
items_within-enough zero more it h k = absurd (omega arith)
items_within-enough (suc fuel) zero it h k = absurd (omega arith)
items_within-enough (suc fuel) (suc more) it h k = elim (Option-cases (next it).0) [
  | inl e ↦ rw (items_within-none fuel it e, items_within-none more it e) refl
  | inr (item, e) ↦
      let s = next-shorter it item e in
      rw (items_within-some fuel it item e, items_within-some more it item e)
        (ap (λ xs. item ∷ xs)
          (items_within-enough fuel more (next it).1 (omega arith) (omega arith)))
]

-- The rounds given are enough on every script: iterating returns an item of `next` and then what
-- iterating from there returns, until `next` returns none.
pub items-next :
    (it : Instructions)
    → items it ≡ elim (next it).0 [ none ↦ [] | some item ↦ item ∷ items (next it).1 ]
unfolding items
items-next it = elim (Option-cases (next it).0) [
  | inl e ↦ rw (items_within-none (length (it.left)) it e, e) refl
  | inr (item, e) ↦
      let s = next-shorter it item e in
      rw (items_within-some (length (it.left)) it item e, e)
        (ap (λ xs. item ∷ xs)
          (items_within-enough (length (it.left)) (suc (length ((next it).1.left))) (next it).1
            (omega arith) (omega arith)))
]

-- There are not more items than bytes, which is the upper bound of `size_hint`.
items_within-length :
    (fuel : ℕ) (it : Instructions) → length (items_within fuel it) ≤ length (it.left)
unfolding items_within
items_within-length zero it = omega arith
items_within-length (suc fuel) it = elim (Option-cases (next it).0) [
  | inl e ↦ rw (items_within-none fuel it e) (omega arith)
  | inr (item, e) ↦
      rw (items_within-some fuel it item e)
        (omega (arith, next-shorter it item e, items_within-length fuel (next it).1))
]

pub items-bound : (it : Instructions) → length (items it) ≤ length (it.left)
unfolding items
items-bound it = items_within-length (suc (length (it.left))) it
