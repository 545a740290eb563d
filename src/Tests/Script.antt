-- ===== src/Tests/Script.antt =====
-- Numbers, pushes and standard scripts at concrete inputs.
use rust_litecoin.Prelude.{
  ℕ, ◌-◌, ◌*◌, ◌%◌, ◌^◌, ◌≤◌, ◌≡◌, ◌↔◌, refl, true, ◌&&◌, List, [], ◌∷◌, none, some, length, take,
  replicate, leb, ltb, ◌==◌, if◌then◌else◌, arith,
}
use rust_litecoin.Prelude.Int.{ℤ, negsuc}
use rust_litecoin.Script.{ok, err, panic, numeric_overflow, last}
use rust_litecoin.Script.Opcode.{Class, legacy, classify, with_opcode, is_success}
use rust_litecoin.Script.Opcode.Cases.{classify-total}
use rust_litecoin.Script.Number.{
  unsigned_abs, store, high_bit, write_last, write_bytes, write_scriptint, fold_bytes,
  scriptint_parse, no_sign_conflict, read_scriptint,
}
use rust_litecoin.Script.Number.RoundTrip.{
  read_scriptint-write_scriptint, write_scriptint-read_scriptint,
}
use rust_litecoin.Script.Instruction.{
  Instruction, push_data, op_code, next, items, instructions, instructions_minimal, items_within,
  next_of_class, next_push, take_slice_or_kill, InstructionIndices,
}
use rust_litecoin.Script.Instruction.Progress.{items-next}
use rust_litecoin.Script.Instruction.Push.{iterator}
use rust_litecoin.Script.Buf.{extend, push_all}
use rust_litecoin.Script.Buf.Extend.{all_ok, total_len, items-extend}
use rust_litecoin.Script.Buf.Minimal.{push_all-items_minimal}
use rust_litecoin.Script.Builder
use rust_litecoin.Script.Builder.{Builder}
use rust_litecoin.Script.Standard.{
  WitnessProgram, accepted, checked_program, new_witness_program, new_witness_program_unchecked,
  witness_version, new_p2pkh, new_p2sh, is_p2pkh, is_p2sh, is_p2wpkh, is_p2wsh, is_p2tr, version_of,
  version_from_opcode, version_from_num, byte_at,
}
use rust_litecoin.Script.Standard.Versions.{IsScriptLength, witness_version_iff}
use rust_litecoin.Script.Standard.Hashes.{Writes, standard_iff}
use rust_litecoin.Script.Count.{count_sigops, count_sigops_legacy, is_multisig}
use rust_litecoin.Script.Count.Sigops.{count_sigops-bounds}
use rust_litecoin.Script.Count.Multisig.{multisig_script, is_multisig_lem}

abbrev eight_zeros : List ℕ
eight_zeros = replicate 8 0

-- -255 takes a second byte for its sign.
abbrev minus_255 : ℤ
minus_255 = negsuc 254

abbrev minus_255_bytes : List ℕ
minus_255_bytes = 0xff ∷ 0x80 ∷ []

read_scriptint-write_scriptint_example :
    (written : List ℕ) × (len : ℕ) × (write_scriptint eight_zeros minus_255 ≡ ok (written, len))
    × (len ≤ 8)
    × (read_scriptint (take len written)
        ≡ (if ltb (unsigned_abs minus_255) (2 ^ 31) then ok minus_255 else err numeric_overflow))
read_scriptint-write_scriptint_example =
    read_scriptint-write_scriptint eight_zeros minus_255 refl (omega arith)

write_scriptint-read_scriptint_example :
    (written : List ℕ) × (write_scriptint eight_zeros minus_255 ≡ ok (written, 2))
    × (take 2 written ≡ minus_255_bytes)
unfolding read_scriptint scriptint_parse fold_bytes no_sign_conflict high_bit last
write_scriptint-read_scriptint_example =
    write_scriptint-read_scriptint eight_zeros minus_255_bytes minus_255 refl
      (omega arith, (omega arith, tt)) refl

-- The least i64 does not fit the buffer.
least_i64 : write_scriptint eight_zeros (negsuc (2 ^ 63 - 1)) ≡ err panic
unfolding write_scriptint write_bytes write_last store high_bit
least_i64 = refl

classify-total_example : (class : Class) × (classify legacy 0xba ≡ some class)
classify-total_example = classify-total legacy 0xba (omega arith)

abbrev two_instructions : List Instruction
two_instructions = push_data (1 ∷ 2 ∷ []) ∷ op_code 0xac ∷ []

abbrev two_bytes : List ℕ
two_bytes = 2 ∷ 1 ∷ 2 ∷ 0xac ∷ []

items-extend_example :
    (bytes : List ℕ) × (extend (some 2) two_instructions (0x51 ∷ []) ≡ ok (0x51 ∷ bytes))
    × (items (iterator bytes true) ≡ all_ok two_instructions)
    × (length bytes ≡ total_len two_instructions)
items-extend_example =
    items-extend true (some 2) two_instructions (0x51 ∷ []) (omega arith)
      ((omega arith, refl), ((omega arith, omega arith), tt))

push_all-items_minimal_example : push_all two_instructions [] ≡ ok two_bytes
unfolding items items_within next next_of_class next_push take_slice_or_kill classify with_opcode
    is_success
push_all-items_minimal_example =
    push_all-items_minimal two_bytes two_instructions
      (omega arith, (omega arith, (omega arith, (omega arith, tt)))) refl

items-next_example : items (instructions two_bytes) ≡ elim (next (instructions two_bytes)).0 [
  | none ↦ []
  | some item ↦ item ∷ items (next (instructions two_bytes)).1
]
items-next_example = items-next (instructions two_bytes)

abbrev at_start : InstructionIndices
at_start = record { instructions_left = instructions_minimal two_bytes; position = 0 }

abbrev at_op : InstructionIndices
at_op = record { instructions_left = instructions_minimal (0xac ∷ []); position = 3 }

abbrev check_sig : Builder
check_sig = Builder.push_op 0xac Builder.new

abbrev p2wpkh : List ℕ
p2wpkh = 0 ∷ 20 ∷ replicate 20 7

witness_version_iff_example :
    ((program : List ℕ) × (wp : WitnessProgram) × (checked_program 0 program ≡ accepted wp)
      × (new_witness_program wp ≡ ok p2wpkh))
    ↔ ((witness_version p2wpkh ≡ some 0) × IsScriptLength 0 p2wpkh)
witness_version_iff_example = witness_version_iff 0 p2wpkh (omega arith)

standard_iff_example :
    ((is_p2pkh p2wpkh ≡ true) ↔ Writes new_p2pkh 20 p2wpkh)
    × ((is_p2sh p2wpkh ≡ true) ↔ Writes new_p2sh 20 p2wpkh)
    × ((is_p2wpkh p2wpkh ≡ true) ↔ Writes (new_witness_program_unchecked 0) 20 p2wpkh)
    × ((is_p2wsh p2wpkh ≡ true) ↔ Writes (new_witness_program_unchecked 0) 32 p2wpkh)
    × ((is_p2tr p2wpkh ≡ true) ↔ Writes (new_witness_program_unchecked 1) 32 p2wpkh)
standard_iff_example = standard_iff p2wpkh

p2wpkh_is_one : is_p2wpkh p2wpkh ≡ true
unfolding is_p2wpkh witness_version version_of version_from_opcode version_from_num byte_at
p2wpkh_is_one = refl

count_sigops-bounds_example :
    (count_sigops two_bytes ≤ count_sigops_legacy two_bytes)
    × (count_sigops_legacy two_bytes ≤ 20 * 4)
count_sigops-bounds_example = count_sigops-bounds two_bytes

abbrev two_keys : List (List ℕ)
two_keys = replicate 33 2 ∷ replicate 33 3 ∷ []

is_multisig_lem_example :
    (script : List ℕ) × (push_all (multisig_script 1 two_keys 2) [] ≡ ok script)
    × (is_multisig script ≡ (2 == 2 % 256) && leb 1 (2 % 256))
is_multisig_lem_example =
    is_multisig_lem 1 2 two_keys (omega arith) (omega arith) (omega arith) (omega arith)
      (omega arith, (omega arith, tt))
