-- ===== src/Script/Opcode.antt =====
-- Opcodes of litecoin/src/blockdata/opcodes.rs. An opcode is its byte.
pub mod Cases
use rust_litecoin.Prelude.{
  ℕ, zero, suc, ◌+◌, ◌-◌, Bool, true, false, ◌&&◌, ◌||◌, List, [], ◌∷◌, Option, none, some, leb,
  ◌==◌, if◌then◌else◌,
}
use rust_litecoin.Prelude.Int.{ℤ, pos, negsuc}

-- `Opcode`
abbrev pub Opcode : Type 0
Opcode = ℕ

abbrev pub op_pushbytes_0 : ℕ
op_pushbytes_0 = 0x00

abbrev pub op_pushbytes_75 : ℕ
op_pushbytes_75 = 0x4b

abbrev pub op_pushdata1 : ℕ
op_pushdata1 = 0x4c

abbrev pub op_pushdata2 : ℕ
op_pushdata2 = 0x4d

abbrev pub op_pushdata4 : ℕ
op_pushdata4 = 0x4e

abbrev pub op_pushnum_neg1 : ℕ
op_pushnum_neg1 = 0x4f

abbrev pub op_pushnum_1 : ℕ
op_pushnum_1 = 0x51

abbrev pub op_pushnum_16 : ℕ
op_pushnum_16 = 0x60

abbrev pub op_verify : ℕ
op_verify = 0x69

abbrev pub op_return : ℕ
op_return = 0x6a

abbrev pub op_dup : ℕ
op_dup = 0x76

abbrev pub op_equal : ℕ
op_equal = 0x87

abbrev pub op_equalverify : ℕ
op_equalverify = 0x88

abbrev pub op_numequal : ℕ
op_numequal = 0x9c

abbrev pub op_numequalverify : ℕ
op_numequalverify = 0x9d

abbrev pub op_hash160 : ℕ
op_hash160 = 0xa9

abbrev pub op_checksig : ℕ
op_checksig = 0xac

abbrev pub op_checksigverify : ℕ
op_checksigverify = 0xad

abbrev pub op_checkmultisig : ℕ
op_checkmultisig = 0xae

abbrev pub op_checkmultisigverify : ℕ
op_checkmultisigverify = 0xaf

pub data ClassifyContext : Type 0 where
  tap_script : ClassifyContext
  legacy : ClassifyContext

abbrev pub is_legacy : ClassifyContext → Bool
is_legacy tap_script = false
is_legacy legacy = true

-- `Class`; an ordinary opcode is its byte, too.
pub data Class : Type 0 where
  push_num : ℤ → Class
  push_bytes : ℕ → Class
  return_op : Class
  success_op : Class
  illegal_op : Class
  no_op : Class
  ordinary : ℕ → Class

abbrev pub among : ℕ → List ℕ → Bool
among op [] = false
among op (o ∷ os) = (op == o) || among op os

abbrev pub between : ℕ → ℕ → ℕ → Bool
between low high op = leb low op && leb op high

-- The opcodes of `ordinary_opcode!`, in its order
abbrev pub ordinary_opcodes : List ℕ
ordinary_opcodes =
    0x4c ∷ 0x4d ∷ 0x4e ∷ 0x63 ∷ 0x64 ∷ 0x67 ∷ 0x68 ∷ 0x69 ∷ 0x6b ∷ 0x6c ∷ 0x6d ∷ 0x6e ∷ 0x6f ∷ 0x70
    ∷ 0x71 ∷ 0x72 ∷ 0x75 ∷ 0x76 ∷ 0x77 ∷ 0x78 ∷ 0x79 ∷ 0x7a ∷ 0x7b ∷ 0x7c ∷ 0x7d ∷ 0x73 ∷ 0x74
    ∷ 0x82 ∷ 0x87 ∷ 0x88 ∷ 0x8b ∷ 0x8c ∷ 0x8f ∷ 0x90 ∷ 0x91 ∷ 0x92 ∷ 0x93 ∷ 0x94 ∷ 0x9a ∷ 0x9b
    ∷ 0x9c ∷ 0x9d ∷ 0x9e ∷ 0x9f ∷ 0xa0 ∷ 0xa1 ∷ 0xa2 ∷ 0xa3 ∷ 0xa4 ∷ 0xa5 ∷ 0xa6 ∷ 0xa7 ∷ 0xa8
    ∷ 0xa9 ∷ 0xaa ∷ 0xab ∷ 0xac ∷ 0xad ∷ 0xae ∷ 0xaf ∷ 0xba ∷ []

-- `Ordinary::with`, which panics on any other opcode
unfoldable pub with_opcode : ℕ → Option Class
with_opcode op = if among op ordinary_opcodes then some (ordinary op) else none

-- The 15 opcodes that are illegal in the legacy context
abbrev pub disabled_opcodes : List ℕ
disabled_opcodes =
    0x7e ∷ 0x7f ∷ 0x80 ∷ 0x81 ∷ 0x83 ∷ 0x84 ∷ 0x85 ∷ 0x86 ∷ 0x8d ∷ 0x8e ∷ 0x95 ∷ 0x96 ∷ 0x97 ∷ 0x98
    ∷ 0x99 ∷ []

-- The opcodes that succeed in a tapscript
unfoldable pub is_success : ℕ → Bool
is_success op =
    (op == 80)
    || (op == 98)
    || between 126 129 op
    || between 131 134 op
    || between 137 138 op
    || between 141 142 op
    || between 149 153 op
    || between 187 254 op

-- `Opcode::classify`, with the panic of `Ordinary::with` as `none`
unfoldable pub classify : ClassifyContext → ℕ → Option Class
classify ctx op =
    if among op (0x65 ∷ 0x66 ∷ 0xff ∷ [])
    then some illegal_op
    else if among op disabled_opcodes && is_legacy ctx
    then some illegal_op
    else if not_legacy && is_success op
    then some success_op
    else if op == 0x61
    then some no_op
    else if between 0xb0 0xb9 op
    then some no_op
    else if op == op_return
    then some return_op
    else if among op (0x50 ∷ 0x89 ∷ 0x8a ∷ 0x62 ∷ []) && is_legacy ctx
    then some return_op
    else if is_legacy ctx && leb 0xba op
    then some return_op
    else if among op (op_checkmultisig ∷ op_checkmultisigverify ∷ []) && not_legacy
    then some return_op
    else if op == op_pushnum_neg1
    then some (push_num (negsuc 0))
    else if between op_pushnum_1 op_pushnum_16 op
    then some (push_num (pos (1 + op - op_pushnum_1)))
    else if leb op op_pushbytes_75
    then some (push_bytes op)
    else with_opcode op
  where
    not_legacy : Bool
    not_legacy = elim ctx [ tap_script ↦ true | legacy ↦ false ]

-- `Opcode::decode_pushnum`
unfoldable pub decode_pushnum : ℕ → Option ℕ
decode_pushnum op =
    if between op_pushnum_1 op_pushnum_16 op then some (op - op_pushnum_1 + 1) else none

-- `opcode_to_verify` of script/mod.rs
unfoldable pub opcode_to_verify : Option ℕ → Option ℕ
opcode_to_verify none = none
opcode_to_verify (some op) =
    if op == op_equal
    then some op_equalverify
    else if op == op_numequal
    then some op_numequalverify
    else if op == op_checksig
    then some op_checksigverify
    else if op == op_checkmultisig
    then some op_checkmultisigverify
    else none
