-- ===== src/Script/Builder.antt =====
-- `Builder` of litecoin/src/blockdata/script/builder.rs. A key that is pushed is the list of its
-- serialized bytes.
pub mod Ints
pub mod LastOp
pub mod Tracked
use rust_litecoin.Prelude.{
  ℕ, zero, suc, ◌+◌, List, [], Option, none, some, replicate, take, ltb, if◌then◌else◌,
}
use rust_litecoin.Prelude.Int.{ℤ, pos, negsuc}
use rust_litecoin.Locktime.Absolute
use rust_litecoin.Script.{Result, ok, ◌and_script◌}
use rust_litecoin.Script.Opcode.{
  op_pushbytes_0, op_pushnum_neg1, op_pushnum_1, op_verify, opcode_to_verify,
}
use rust_litecoin.Script.Number.{write_scriptint}
use rust_litecoin.Script.Buf.{push_opcode, push_slice, last_opcode, pop}

-- `Builder`: the script and the last opcode
pub record Builder : Type 0 where
  pub script : List ℕ
  pub last_op : Option ℕ

abbrev pub new : Builder
new = record { script = []; last_op = none }

unfoldable pub push_op : ℕ → Builder → Builder
push_op code b = record { script = push_opcode code (b.script); last_op = some code }

unfoldable pub push_bytes : List ℕ → Builder → Result Builder
push_bytes bytes b =
    push_slice bytes (b.script) and_script λ script. ok (record { script = script; last_op = none })

unfoldable pub push_verify : Builder → Builder
push_verify b = elim (opcode_to_verify (b.last_op)) [
  | some code ↦ push_op code (record b { script = pop (b.script) })
  | none ↦ push_op op_verify b
]

unfoldable pub push_int_non_minimal : ℤ → Builder → Result Builder
push_int_non_minimal n b =
    write_scriptint (replicate 8 0) n and_script λ (buf, len). push_bytes (take len buf) b

unfoldable pub push_int : ℤ → Builder → Result Builder
push_int (negsuc zero) b = ok (push_op op_pushnum_neg1 b)
push_int (negsuc (suc n)) b = push_int_non_minimal (negsuc (suc n)) b
push_int (pos zero) b = ok (push_op op_pushbytes_0 b)
push_int (pos (suc n)) b =
    if ltb n 16 then ok (push_op (n + op_pushnum_1) b) else push_int_non_minimal (pos (suc n)) b

-- `Builder::from` a script
unfoldable pub from_script : List ℕ → Builder
from_script script = record { script = script; last_op = last_opcode script }

-- `Builder::push_lock_time`
unfoldable pub push_lock_time : Absolute.LockTime → Builder → Result Builder
push_lock_time l b = push_int (pos (Absolute.to_consensus_u32 l)) b

-- `Builder::push_sequence`; a sequence is its u32.
unfoldable pub push_sequence : ℕ → Builder → Result Builder
push_sequence sequence b = push_int (pos sequence) b
