-- ===== src/Script/Buf.antt =====
-- `ScriptBuf` of litecoin/src/blockdata/script/owned.rs. A push that the source refuses with
-- a panic is the error `panic`; what only reserves memory is left out.
pub mod Extend
pub mod Minimal
use rust_litecoin.Prelude.{
  ℕ, zero, suc, ◌+◌, ◌-◌, ◌/◌, ◌%◌, ◌^◌, Bool, true, false, ◌&&◌, ◌||◌, List, [], ◌∷◌, ◌++◌, Option,
  none, some, length, take, drop, ltb, leb, ◌==◌, if◌then◌else◌,
}
use rust_litecoin.Script.{Result, ok, err, panic, last, ◌and_script◌}
use rust_litecoin.Script.Opcode.{
  op_pushdata1, op_pushdata2, op_pushdata4, op_verify, opcode_to_verify,
}
use rust_litecoin.Script.Instruction.{Instruction, push_data, op_code, items, instructions}

-- `ScriptBuf::push_opcode`
unfoldable pub push_opcode : ℕ → List ℕ → List ℕ
push_opcode code script = script ++ code ∷ []

-- The opcode and the length in front of `n` bytes
unfoldable pub push_header : ℕ → Result (List ℕ)
push_header n =
    if ltb n op_pushdata1
    then ok (n ∷ [])
    else if ltb n 0x100
    then ok (op_pushdata1 ∷ n ∷ [])
    else if ltb n 0x10000
    then ok (op_pushdata2 ∷ (n % 0x100) ∷ (n / 0x100) ∷ [])
    else if ltb n 0x100000000
    then ok (
        op_pushdata4
        ∷ (n % 0x100)
        ∷ (n / 0x100 % 0x100)
        ∷ (n / 0x10000 % 0x100)
        ∷ (n / 0x1000000)
        ∷ [])
    else err panic

-- `ScriptBuf::push_slice_no_opt`, and `ScriptBuf::push_slice`, which reserves memory before
unfoldable pub push_slice : List ℕ → List ℕ → Result (List ℕ)
push_slice bytes script =
    push_header (length bytes) and_script λ header. ok (script ++ (header ++ bytes))

unfoldable pub reserved_len_for_slice : ℕ → ℕ
reserved_len_for_slice len =
    len + (if leb len 0x4b then 1 else if leb len 0xff then 2 else if leb len 0xffff then 3 else 5)

-- `ScriptBuf::push_instruction` and `ScriptBuf::push_instruction_no_opt`
unfoldable pub push_instruction : Instruction → List ℕ → Result (List ℕ)
push_instruction (op_code code) script = ok (push_opcode code script)
push_instruction (push_data bytes) script = push_slice bytes script

-- `Instruction::script_serialized_len`
unfoldable pub script_serialized_len : Instruction → ℕ
script_serialized_len (op_code code) = 1
script_serialized_len (push_data bytes) = reserved_len_for_slice (length bytes)

-- A loop that pushes instructions
unfoldable pub push_all : List Instruction → List ℕ → Result (List ℕ)
push_all [] script = ok script
push_all (i ∷ is) script = push_instruction i script and_script λ script'. push_all is script'

-- `max < 6` on the upper bound of `size_hint`
abbrev pub is_few : Option ℕ → Bool
is_few none = false
is_few (some max) = ltb max 6

-- `ScriptBuf::extend` of what an iterator returns, with the upper bound that it gives. The
-- assertion panics.
unfoldable pub extend : Option ℕ → List Instruction → List ℕ → Result (List ℕ)
extend upper is script =
    if is_few upper
    then (if length (drop 5 is) == 0 then push_all (take 5 is) script else err panic)
    else push_all is script

-- `Script::last_opcode`
unfoldable pub last_opcode : List ℕ → Option ℕ
last_opcode script = elim (last (items (instructions script))) [
  | some (ok (op_code code)) ↦ some code
  | _ ↦ none
]

-- `Script::last_pushdata`
unfoldable pub last_pushdata : List ℕ → Option (List ℕ)
last_pushdata script = elim (last (items (instructions script))) [
  | some (ok (push_data bytes)) ↦ some bytes
  | _ ↦ none
]

-- `pop`
abbrev pub pop : List ℕ → List ℕ
pop script = take (length script - 1) script

-- `ScriptBuf::push_verify`
unfoldable pub push_verify_after : Option ℕ → List ℕ → List ℕ
push_verify_after last_op script = elim (opcode_to_verify last_op) [
  | some code ↦ push_opcode code (pop script)
  | none ↦ push_opcode op_verify script
]

unfoldable pub scan_and_push_verify : List ℕ → List ℕ
scan_and_push_verify script = push_verify_after (last_opcode script) script
