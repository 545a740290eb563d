-- ===== src/Script/Builder/Ints.antt =====
-- The numbers that `Builder` of litecoin/src/blockdata/script/builder.rs pushes, as the iterator of
-- script/instruction.rs returns them.
use rust_litecoin.Prelude.{ℕ, ◌≡◌, true, List, ◌++◌, some}
use rust_litecoin.Prelude.Int.{ℤ}
use rust_litecoin.Script.{ok}
use rust_litecoin.Script.Instruction.{Instruction, script_num, next}
use rust_litecoin.Script.Instruction.Push.{iterator}
use rust_litecoin.Script.Builder.{Builder, push_int}

-- What pushing a number appends: an instruction that stands for the number, where minimal pushes are
-- enforced, too
abbrev pub PushesNumber : ℤ → Builder → Type 0
PushesNumber n b =
    (i : Instruction) × (bytes : List ℕ) × (b' : Builder) × (push_int n b ≡ ok b')
    × (b'.script ≡ b.script ++ bytes)
    × ((rest : List ℕ) → next (iterator (bytes ++ rest) true) ≡ (some (ok i), iterator rest true))
    × (script_num i ≡ some n)
