-- ===== src/Script/Builder/Tracked.antt =====
-- The last opcode that `Builder` of litecoin/src/blockdata/script/builder.rs keeps, and the one that
-- script/owned.rs finds by iterating over the script.
use rust_litecoin.Prelude.{ℕ, ◌^◌, ◌<◌, ◌≡◌, false, List, [], length, All}
use rust_litecoin.Script.{ok}
use rust_litecoin.Script.Opcode.{opcode_to_verify}
use rust_litecoin.Script.Instruction.{Instruction}
use rust_litecoin.Script.Buf.{push_all}
use rust_litecoin.Script.Buf.Extend.{IsScriptable}
use rust_litecoin.Script.Builder
use rust_litecoin.Script.Builder.{Builder}
use rust_litecoin.Script.Builder.LastOp.{last_op_of}

-- The builders that are made from an empty one, or from a script of instructions that can be pushed, by
-- pushing opcodes above those of the pushes, the opcode 0 and slices, and by `push_verify`. `push_int`
-- is one of these: an opcode, the opcode 0 or a slice. The codes 1 to 78 pushed as opcodes, and a
-- script that breaks off within a push, make other builders.
pub data Built : Builder → Type 0 where
  built_new : Built Builder.new
  built_from :
      {script : List ℕ} (is : List Instruction)
      → All (IsScriptable false) is
      → push_all is [] ≡ ok script
      → Built (Builder.from_script script)
  built_op :
      {b : Builder} {code : ℕ} → Built b → 78 < code → code < 256 → Built (Builder.push_op code b)
  built_zero : {b : Builder} → Built b → Built (Builder.push_op 0 b)
  built_slice :
      {b b' : Builder} (bytes : List ℕ)
      → Built b
      → length bytes < 2 ^ 32
      → Builder.push_bytes bytes b ≡ ok b'
      → Built b'
  built_verify : {b : Builder} → Built b → Built (Builder.push_verify b)

-- The script is that of some instructions, and the opcode that is kept turns into the same opcode as
-- the last of them.
Tracks : Builder → List Instruction → Type 0
Tracks b is =
    (push_all is [] ≡ ok (b.script))
    × All (IsScriptable false) is
    × (opcode_to_verify (b.last_op) ≡ opcode_to_verify (last_op_of is))
