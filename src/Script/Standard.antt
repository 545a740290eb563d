-- ===== src/Script/Standard.antt =====
-- Standard scripts: the constructors of litecoin/src/blockdata/script/owned.rs and the tests of
-- script/borrowed.rs, with the versions of script/witness_version.rs. A hash, a key and a program are
-- their bytes; a version is its number. Where a length was tested before, an index is in range.
pub mod Program
pub mod Hashes
pub mod Versions
use rust_litecoin.Prelude.{
  ℕ, zero, suc, ◌+◌, ◌-◌, Bool, true, false, ◌&&◌, ◌||◌, not, List, [], ◌∷◌, Option, none, some,
  length, get_elem?, take, drop, ltb, leb, ◌==◌, if◌then◌else◌,
}
use rust_litecoin.Script.{Result, ok, err, ◌and_script◌}
use rust_litecoin.Script.Opcode.{
  op_pushbytes_0, op_pushnum_1, op_pushnum_16, op_return, op_dup, op_equal, op_equalverify,
  op_hash160, op_checksig, legacy, Class, return_op, illegal_op, classify,
}
use rust_litecoin.Script.Builder
use rust_litecoin.Script.Builder.{Builder}

abbrev into_script : Result Builder → Result (List ℕ)
into_script (ok b) = ok (b.script)
into_script (err e) = err e

-- `ScriptBuf::new_p2pk`
unfoldable pub new_p2pk : List ℕ → Result (List ℕ)
new_p2pk key =
    into_script
      (Builder.push_bytes key Builder.new and_script λ b. ok (Builder.push_op op_checksig b))

-- `ScriptBuf::new_p2pkh`, and `ScriptBuf::p2wpkh_script_code`
unfoldable pub new_p2pkh : List ℕ → Result (List ℕ)
new_p2pkh hash = into_script (
    Builder.push_bytes hash (Builder.push_op op_hash160 (Builder.push_op op_dup Builder.new))
    and_script λ b. ok (Builder.push_op op_checksig (Builder.push_op op_equalverify b)))

unfoldable pub new_p2sh : List ℕ → Result (List ℕ)
new_p2sh hash = into_script (
    Builder.push_bytes hash (Builder.push_op op_hash160 Builder.new) and_script λ b.
    ok (Builder.push_op op_equal b))

-- `Opcode::from` a version
unfoldable pub version_opcode : ℕ → ℕ
version_opcode zero = op_pushbytes_0
version_opcode (suc v) = op_pushnum_1 + suc v - 1

-- `WitnessVersion::try_from` a number and an opcode
unfoldable pub version_from_num : ℕ → Option ℕ
version_from_num v = if leb v 16 then some v else none

unfoldable pub version_from_opcode : ℕ → Option ℕ
version_from_opcode op =
    if op == 0
    then some 0
    else if leb op_pushnum_1 op && leb op op_pushnum_16
    then version_from_num (op - op_pushnum_1 + 1)
    else none

-- `WitnessProgram`, whose fields are private: it is made by `WitnessProgram::new`, or of a hash, a key
-- or a constant of a length that `new` accepts.
pub record WitnessProgram : Type 0 where
  pub version : ℕ
  pub program : List ℕ

-- `witness_program::Error`, and the result of the constructor
pub data ProgramError : Type 0 where
  invalid_length : ℕ → ProgramError
  invalid_segwit_v0_length : ℕ → ProgramError

pub data Checked : Type 0 where
  accepted : WitnessProgram → Checked
  refused : ProgramError → Checked

-- `WitnessProgram::new`
unfoldable pub checked_program : ℕ → List ℕ → Checked
checked_program version bytes =
    let program_len = length bytes in
    if ltb program_len 2 || ltb 40 program_len
    then refused (invalid_length program_len)
    else if (version == 0) && (not (program_len == 20) && not (program_len == 32))
    then refused (invalid_segwit_v0_length program_len)
    else accepted (record { version = version; program = bytes })

-- `ScriptBuf::new_witness_program`
unfoldable pub new_witness_program : WitnessProgram → Result (List ℕ)
new_witness_program wp = into_script (
    Builder.push_bytes (wp.program) (Builder.push_op (version_opcode (wp.version)) Builder.new)
    and_script λ b. ok b)

-- `ScriptBuf::new_witness_program_unchecked`, whose assertions are compiled into debug builds only
unfoldable pub new_witness_program_unchecked : ℕ → List ℕ → Result (List ℕ)
new_witness_program_unchecked version program = into_script (
    Builder.push_bytes program (Builder.push_op (version_opcode version) Builder.new)
    and_script λ b. ok b)

unfoldable pub new_op_return : List ℕ → Result (List ℕ)
new_op_return bytes =
    into_script
      (Builder.push_bytes bytes (Builder.push_op op_return Builder.new) and_script λ b. ok b)

-- `self.0[i] == b`
unfoldable pub byte_at : List ℕ → ℕ → ℕ → Bool
byte_at script i b = elim (get_elem? script i) [ none ↦ false | some c ↦ c == b ]

-- `Script::witness_version`, from the first two bytes
unfoldable pub version_of : ℕ → ℕ → ℕ → Option ℕ
version_of script_len ver_opcode push_opbyte =
    if ltb push_opbyte 2 || ltb 40 push_opbyte
    then none
    else if not (script_len - 2 == push_opbyte)
    then none
    else version_from_opcode ver_opcode

unfoldable pub witness_version : List ℕ → Option ℕ
witness_version (ver_opcode ∷ push_opbyte ∷ rest) =
    if not (leb 4 (suc (suc (length rest))) && leb (suc (suc (length rest))) 42)
    then none
    else version_of (suc (suc (length rest))) ver_opcode push_opbyte
witness_version _ = none

-- `== Some(WitnessVersion::V0)`
abbrev pub is_version : ℕ → Option ℕ → Bool
is_version v none = false
is_version v (some w) = w == v

unfoldable pub is_p2sh : List ℕ → Bool
is_p2sh script =
    (length script == 23)
    && (byte_at script 0 op_hash160 && (byte_at script 1 0x14 && byte_at script 22 op_equal))

unfoldable pub is_p2pkh : List ℕ → Bool
is_p2pkh script =
    (length script == 25)
    && (byte_at script 0 op_dup
        && (byte_at script 1 op_hash160
            && (byte_at script 2 0x14
                && (byte_at script 23 op_equalverify && byte_at script 24 op_checksig))))

-- `Script::p2pk_pubkey_bytes`
unfoldable pub p2pk_pubkey_bytes : List ℕ → Option (List ℕ)
p2pk_pubkey_bytes script =
    if (length script == 67) && (byte_at script 0 65 && byte_at script 66 op_checksig)
    then some (take 65 (drop 1 script))
    else if (length script == 35) && (byte_at script 0 33 && byte_at script 34 op_checksig)
    then some (take 33 (drop 1 script))
    else none

unfoldable pub is_p2wsh : List ℕ → Bool
is_p2wsh script =
    (length script == 34) && (is_version 0 (witness_version script) && byte_at script 1 0x20)

unfoldable pub is_p2wpkh : List ℕ → Bool
is_p2wpkh script =
    (length script == 22) && (is_version 0 (witness_version script) && byte_at script 1 0x14)

unfoldable pub is_p2tr : List ℕ → Bool
is_p2tr script =
    (length script == 34) && (is_version 1 (witness_version script) && byte_at script 1 0x20)

unfoldable pub is_op_return : List ℕ → Bool
is_op_return [] = false
is_op_return (b ∷ script) = b == op_return

-- `class == ReturnOp || class == IllegalOp`
abbrev fails : Option Class → Bool
fails (some return_op) = true
fails (some illegal_op) = true
fails _ = false

unfoldable pub is_provably_unspendable : List ℕ → Bool
is_provably_unspendable [] = false
is_provably_unspendable (b ∷ script) = fails (classify legacy b)

-- `Script::p2wpkh_script_code`
unfoldable pub p2wpkh_script_code : List ℕ → Option (Result (List ℕ))
p2wpkh_script_code script = if is_p2wpkh script then some (new_p2pkh (drop 2 script)) else none
