-- ===== src/Script/Buf/Minimal.antt =====
-- A script over which the iterator of litecoin/src/blockdata/script/instruction.rs finds minimal
-- pushes only is what the pushing of script/owned.rs writes.
use rust_litecoin.Prelude.{
  ℕ, zero, suc, ◌<◌, ◌≡◌, refl, sym, ap, ◌∙◌, true, List, [], ◌∷◌, ◌++◌, none, some, length, arith,
  All, append_assoc, append-nil,
}
use mathlib.Core.Path.{subst}
use rust_litecoin.Wire.Codec.{IsByte}
use rust_litecoin.Script.{Error, Result, ok, err, ◌and_script◌}
use rust_litecoin.Script.Instruction.{Instruction, Item, next, items, instructions_minimal}
use rust_litecoin.Script.Instruction.Later.{next-none, next-shorter}
use rust_litecoin.Script.Instruction.Progress.{items-next}
use rust_litecoin.Script.Instruction.Push.{iterator}
use rust_litecoin.Script.Instruction.Canonical.{ComesFrom, IsEncoding-push, next-encoding}
use rust_litecoin.Script.Buf.{push_instruction, push_all}
use rust_litecoin.Script.Buf.Extend.{all_ok}

All-back : (xs ys : List ℕ) → All IsByte (xs ++ ys) → All IsByte ys
All-back [] ys h = h
All-back (x ∷ xs) ys (hx, h) = All-back xs ys h

-- What iterating returns once the first item is known
abbrev items_after : Item → List (Result Instruction)
items_after r = elim r.0 [ none ↦ [] | some item ↦ item ∷ items r.1 ]

no_item : (item : Result Instruction) (rest : List (Result Instruction)) → item ∷ rest ≡ [] → ⊥
no_item item rest e = cc

one_item : (item : Result Instruction) (rest : List (Result Instruction)) → [] ≡ item ∷ rest → ⊥
one_item item rest e = cc

abbrev Pushes : List Instruction → List ℕ → Type 0
Pushes is bytes = (script : List ℕ) → push_all is script ≡ ok (script ++ bytes)

push_first :
    (i j : Instruction) (is : List Instruction) (front rest : List ℕ)
    → ((script : List ℕ) → push_instruction i script ≡ ok (script ++ front))
    → i ≡ j
    → Pushes is rest
    → Pushes (j ∷ is) (front ++ rest)
unfolding push_all
push_first i j is front rest h e more script =
    rw (sym e, h script, ◌and_script◌, more (script ++ front), append_assoc script front rest) refl

heads :
    (i j : Instruction) (xs ys : List (Result Instruction))
    → ok i ∷ xs ≡ ok j ∷ ys
    → (i ≡ j) × (xs ≡ ys)
heads i j xs ys e = (cc, cc)

no_error :
    (x : Error) (i : Instruction) (xs ys : List (Result Instruction)) → err x ∷ xs ≡ ok i ∷ ys → ⊥
no_error x i xs ys e = cc

step :
    (bytes : List ℕ) (is : List Instruction) (r : Item)
    → ((rest : List ℕ) (more : List Instruction)
        → length rest < length bytes
        → All IsByte rest
        → items (iterator rest true) ≡ all_ok more
        → Pushes more rest)
    → All IsByte bytes
    → next (iterator bytes true) ≡ r
    → ComesFrom bytes r
    → items_after r ≡ all_ok is
    → Pushes is bytes
unfolding push_all
step bytes [] (none, it) ih h e c k =
    rw (next-none bytes true (ap (λ r. r.0) e)) (λ script. rw (append-nil script) refl)
step bytes (i ∷ is) (none, it) ih h e c k = absurd (one_item (ok i) (all_ok is) k)
step bytes [] (some item, it) ih h e c k = absurd (no_item item (items it) k)
step bytes (i ∷ is) (some (err x), it) ih h e c k = absurd (no_error x i (items it) (all_ok is) k)
step bytes (j ∷ is) (some (ok i), it) ih h e (front, enc, split, keeps) k =
    let (same, rest) = heads i j (items it) (all_ok is) k in
    let shorter = next-shorter (iterator bytes true) (ok i) (ap (λ r. r.0) e) in
    let left : (next (iterator bytes true)).1.left ≡ it.left = ap (λ r. r.1.left) e in
    let whole : it ≡ iterator (it.left) true = ap (λ b. iterator (it.left) b) keeps in
    subst (Pushes (j ∷ is)) (sym split) (
      push_first i j is front (it.left) (λ script. IsEncoding-push i front script enc) same
        (ih (it.left) is (omega (arith, shorter, ap length left))
          (All-back front (it.left) (subst (All IsByte) split h)) (ap items (sym whole) ∙ rest)))

items-pushed :
    (fuel : ℕ) (bytes : List ℕ) (is : List Instruction)
    → length bytes < fuel
    → All IsByte bytes
    → items (iterator bytes true) ≡ all_ok is
    → Pushes is bytes
items-pushed zero bytes is small h e = absurd (omega arith)
items-pushed (suc fuel) bytes is small h e =
    step bytes is (next (iterator bytes true))
      (λ rest more shorter hr er. items-pushed fuel rest more (omega arith) hr er) h refl
      (next-encoding bytes h) (sym (items-next (iterator bytes true)) ∙ e)

-- A script of bytes over which iterating with minimal pushes enforced returns no error is what
-- pushing the returned instructions writes, byte for byte.
pub push_all-items_minimal :
    (script : List ℕ) (is : List Instruction)
    → All IsByte script
    → items (instructions_minimal script) ≡ all_ok is
    → push_all is [] ≡ ok script
push_all-items_minimal script is h e =
    items-pushed (suc (length script)) script is (omega arith) h e []
