-- ===== src/Script/Instruction.antt =====
-- The instructions of a script: litecoin/src/blockdata/script/instruction.rs and `read_uint_iter` of
-- script/mod.rs. An iterator is the bytes that it has left; a usize has 64 bits.
pub mod Later
pub mod Progress
pub mod Push
pub mod Canonical
pub mod Position
use Prim.Native.Nat.{max}
use rust_litecoin.Prelude.{
  ℕ, zero, suc, ◌+◌, ◌-◌, ◌*◌, ◌/◌, ◌^◌, ◌%◌, Bool, true, false, ◌&&◌, ◌||◌, List, [], ◌∷◌, Option,
  none, some, length, take, drop, ltb, leb, ◌==◌, if◌then◌else◌,
}
use rust_litecoin.Prelude.Int.{ℤ, pos, negsuc}
use rust_litecoin.Script.{
  Result, ok, err, panic, early_end_of_script, non_minimal_push, numeric_overflow,
}
use rust_litecoin.Script.Opcode.{Class, push_bytes, ordinary, legacy, classify, between}
use rust_litecoin.Script.Number.{read_scriptint_non_minimal}

-- `Instruction`: `PushBytes` and `Op`
pub data Instruction : Type 0 where
  push_data : List ℕ → Instruction
  op_code : ℕ → Instruction

unfoldable pub opcode : Instruction → Option ℕ
opcode (op_code code) = some code
opcode (push_data bytes) = none

unfoldable pub pushed_bytes : Instruction → Option (List ℕ)
pushed_bytes (op_code code) = none
pushed_bytes (push_data bytes) = some bytes

-- `.ok()`
abbrev pub ok_only : {A : Type 0} → Result A → Option A
ok_only (ok a) = some a
ok_only (err e) = none

unfoldable pub script_num : Instruction → Option ℤ
script_num (op_code v) =
    if between 0x51 0x60 v
    then some (pos (v - 0x50))
    else if v == 0x4f
    then some (negsuc 0)
    else none
script_num (push_data bytes) = ok_only (read_scriptint_non_minimal bytes)

-- `Instructions`
pub record Instructions : Type 0 where
  pub left : List ℕ
  pub enforce_minimal : Bool

-- `nth(k)` of a slice's iterator drops one element more than `k`.
unfoldable pub kill : Instructions → Instructions
kill it = record it { left = drop (suc (max (length (it.left)) 1 - 1)) (it.left) }

unfoldable pub take_slice_or_kill : Instructions → ℕ → Result (List ℕ) × Instructions
take_slice_or_kill it len =
    if leb len (length (it.left))
    then (ok (take len (it.left)), record it { left = drop len (it.left) })
    else (err early_end_of_script, kill it)

-- `UintError`
pub data UintError : Type 0 where
  uint_early_end : UintError
  uint_overflow : UintError

pub data UintResult : Type 0 where
  uint_ok : ℕ → UintResult
  uint_err : UintError → UintResult

-- The loop of `read_uint_iter` over `size` more bytes, with `checked_shl` and `checked_add`
unfoldable pub read_uint_loop : ℕ → ℕ → ℕ → List ℕ → UintResult × List ℕ
read_uint_loop zero i ret bytes = (uint_ok ret, bytes)
read_uint_loop (suc size) i ret [] = (uint_ok ret, [])
read_uint_loop (suc size) i ret (item ∷ bytes) =
    elim (ltb (i * 8) 64 && ltb (item * 2 ^ (i * 8) % 2 ^ 64 + ret) (2 ^ 64)) [
      | true ↦ read_uint_loop size (suc i) (item * 2 ^ (i * 8) % 2 ^ 64 + ret) bytes
      | false ↦ (uint_err uint_overflow, bytes)
    ]

unfoldable pub read_uint_iter : List ℕ → ℕ → UintResult × List ℕ
read_uint_iter bytes size =
    if ltb (length bytes) size
    then (uint_err uint_early_end, bytes)
    else if ltb ((2 ^ 16 - 1) / 8) size
    then (uint_err uint_overflow, bytes)
    else read_uint_loop size 0 0 bytes

-- An item of the iterator, and what is left
abbrev pub Item : Type 0
Item = Option (Result Instruction) × Instructions

-- `.map(Instruction::PushBytes)`
abbrev pub pushed : Result (List ℕ) × Instructions → Item
pushed (ok bytes, it) = (some (ok (push_data bytes)), it)
pushed (err e, it) = (some (err e), it)

-- What follows a length that was read, or not
unfoldable pub push_of_len : Instructions → ℕ → UintResult × List ℕ → Item
push_of_len it min_push_len (uint_err e, bytes) =
    (some (err early_end_of_script), kill (record it { left = bytes }))
push_of_len it min_push_len (uint_ok n, bytes) =
    if it.enforce_minimal && ltb n min_push_len
    then (some (err non_minimal_push), kill (record it { left = bytes }))
    else if leb (2 ^ 32) n
    then (some (err numeric_overflow), record it { left = bytes })
    else pushed (take_slice_or_kill (record it { left = bytes }) n)

unfoldable pub next_push_data_len : Instructions → ℕ → ℕ → Item
next_push_data_len it len min_push_len = push_of_len it min_push_len (read_uint_iter (it.left) len)

-- The guard of the first arm: a single byte that has an opcode of its own
abbrev pub is_number : ℕ → Bool
is_number b = (b == 0x81) || (ltb 0 b && leb b 16)

abbrev pub starts_with_number : List ℕ → Bool
starts_with_number [] = false
starts_with_number (b ∷ bytes) = is_number b

abbrev pub is_empty : {A : Type 0} → List A → Bool
is_empty [] = true
is_empty (a ∷ more) = false

-- The arm for `Class::PushBytes`
unfoldable pub next_push : Instructions → ℕ → Item
next_push it n =
    if it.enforce_minimal && ((n == 1) && starts_with_number (it.left))
    then (some (err non_minimal_push), kill it)
    else if is_empty (it.left) && (n == 0)
    then (some (ok (push_data [])), it)
    else pushed (take_slice_or_kill it n)

-- The match on the class of an opcode
unfoldable pub next_of_class : Option Class → ℕ → Instructions → Item
next_of_class none byte it = (some (err panic), it)
next_of_class (some (push_bytes n)) byte it = next_push it n
next_of_class (some (ordinary code)) byte it =
    if code == 0x4c
    then next_push_data_len it 1 76
    else if code == 0x4d
    then next_push_data_len it 2 0x100
    else if code == 0x4e
    then next_push_data_len it 4 0x10000
    else (some (ok (op_code byte)), it)
next_of_class (some _) byte it = (some (ok (op_code byte)), it)

unfoldable pub next : Instructions → Item
next it = elim (it.left) [
  | [] ↦ (none, it)
  | byte ∷ bytes ↦ next_of_class (classify legacy byte) byte (record it { left = bytes })
]

-- `size_hint`
unfoldable pub size_hint : Instructions → ℕ × Option ℕ
size_hint it = if length (it.left) == 0 then (0, some 0) else (1, some (length (it.left)))

-- What iterating returns. An item takes one byte at least, so that their number and one are enough
-- rounds.
unfoldable pub items_within : ℕ → Instructions → List (Result Instruction)
items_within zero it = []
items_within (suc fuel) it = elim (next it).0 [
  | none ↦ []
  | some item ↦ item ∷ items_within fuel (next it).1
]

unfoldable pub items : Instructions → List (Result Instruction)
items it = items_within (suc (length (it.left))) it

-- `Script::instructions` and `Script::instructions_minimal`
abbrev pub instructions : List ℕ → Instructions
instructions script = record { left = script; enforce_minimal = false }

abbrev pub instructions_minimal : List ℕ → Instructions
instructions_minimal script = record { left = script; enforce_minimal = true }

-- `InstructionIndices`
pub record InstructionIndices : Type 0 where
  pub instructions_left : Instructions
  pub position : ℕ

-- An item with the position at which it starts
abbrev pub positioned : ℕ → Result Instruction → Result (ℕ × Instruction)
positioned at (ok instruction) = ok (at, instruction)
positioned at (err e) = err e

-- `next_with`, from what `next` returned
unfoldable pub next_with :
    InstructionIndices → Item → Option (Result (ℕ × Instruction)) × InstructionIndices
next_with this (none, it) = (none, record this { instructions_left = it })
next_with this (some item, it) = (
  some (positioned (this.position) item),
  record {
    instructions_left = it;
    position = this.position + (length (this.instructions_left.left) - length (it.left));
  },
)

-- `InstructionIndices::next`
unfoldable pub next_index :
    InstructionIndices → Option (Result (ℕ × Instruction)) × InstructionIndices
next_index this = next_with this (next (this.instructions_left))
