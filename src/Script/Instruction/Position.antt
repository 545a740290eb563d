-- ===== src/Script/Instruction/Position.antt =====
-- The positions of `InstructionIndices` of litecoin/src/blockdata/script/instruction.rs.
use rust_litecoin.Prelude.{ℕ, ◌≤◌, ◌≡◌, Bool, List, length, drop}
use rust_litecoin.Script.Instruction.{Instruction, InstructionIndices, next_index}

-- The iterators over the indices of a script that calls of `next` lead to
pub data Visited : List ℕ → InstructionIndices → Type 0 where
  visited_start :
      (script : List ℕ) (minimal : Bool)
      → Visited script (record {
        instructions_left = record { left = script; enforce_minimal = minimal };
        position = 0;
      })
  visited_next :
      {script : List ℕ} {this : InstructionIndices}
      → Visited script this
      → Visited script (next_index this).1

-- The position is where the rest of the script starts.
abbrev pub IsAt : List ℕ → InstructionIndices → Type 0
IsAt script this =
    (this.position ≤ length script) × (drop (this.position) script ≡ this.instructions_left.left)
