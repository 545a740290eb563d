-- ===== src/Script.antt =====
-- Scripts of litecoin/src/blockdata/script: the types that its parts share. A script is the list of
-- its bytes.
pub mod Opcode
pub mod Number
pub mod Instruction
pub mod Buf
pub mod Builder
pub mod Standard
pub mod Count
use rust_litecoin.Prelude.{ℕ, zero, suc, List, [], ◌∷◌, Option, none, some}
use rust_litecoin.Tx.Types.{OutPoint}

-- `script::Error`. `panic` is no value of the source: it stands for what panics there.
pub data Error : Type 0 where
  non_minimal_push : Error
  early_end_of_script : Error
  numeric_overflow : Error
  unknown_spent_output : OutPoint → Error
  serialization : Error
  panic : Error

pub data Result {ℓ} (A : Type ℓ) : Type ℓ where
  ok : A → Result A
  err : Error → Result A

-- `?` on such a result
infixl 5 ◌and_script◌
abbrev pub ◌and_script◌ : {A B : Type 0} → Result A → (A → Result B) → Result B
ok a and_script f = f a
err e and_script f = err e

-- The last element of a slice
unfoldable pub last : {A : Type 0} → List A → Option A
last [] = none
last (x ∷ []) = some x
last (x ∷ y ∷ xs) = last (y ∷ xs)
