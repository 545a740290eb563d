-- ===== src/Script/Count.antt =====
-- What litecoin/src/blockdata/script/borrowed.rs finds out by iterating over a script.
pub mod Sigops
pub mod Multisig
use rust_litecoin.Prelude.{
  ℕ, zero, suc, ◌+◌, ◌*◌, ◌/◌, ◌%◌, ◌^◌, Bool, true, false, ◌&&◌, ◌||◌, not, List, [], ◌∷◌, Option,
  none, some, length, ltb, leb, ◌==◌, if◌then◌else◌,
}
use rust_litecoin.Wire.VarInt
use rust_litecoin.Script.{Result, ok, err, panic, last, ◌and_script◌}
use rust_litecoin.Script.Opcode.{
  op_checksig, op_checksigverify, op_checkmultisig, op_checkmultisigverify, decode_pushnum,
}
use rust_litecoin.Script.Instruction.{Instruction, push_data, op_code, items, instructions}
use rust_litecoin.Script.Standard.{is_op_return, witness_version}

-- The loop of `is_push_only`
unfoldable pub only_pushes : List (Result Instruction) → Bool
only_pushes [] = true
only_pushes (err e ∷ rest) = false
only_pushes (ok (push_data bytes) ∷ rest) = only_pushes rest
only_pushes (ok (op_code op) ∷ rest) = leb op 0x60 && only_pushes rest

unfoldable pub is_push_only : List ℕ → Bool
is_push_only script = only_pushes (items (instructions script))

-- The sigops of a CHECKMULTISIG
unfoldable pub multisig_sigops : Bool → Option ℕ → ℕ
multisig_sigops true (some pushnum) = pushnum
multisig_sigops true none = 20
multisig_sigops false cache = 20

-- The loop of `count_sigops_internal`, from its `n` and its `pushnum_cache`
unfoldable pub sigops_loop : Bool → ℕ → Option ℕ → List (Result Instruction) → ℕ
sigops_loop accurate n cache [] = n
sigops_loop accurate n cache (err e ∷ rest) = n
sigops_loop accurate n cache (ok (push_data bytes) ∷ rest) = sigops_loop accurate n none rest
sigops_loop accurate n cache (ok (op_code op) ∷ rest) =
    if (op == op_checksig) || (op == op_checksigverify)
    then sigops_loop accurate (n + 1) cache rest
    else if (op == op_checkmultisig) || (op == op_checkmultisigverify)
    then sigops_loop accurate (n + multisig_sigops accurate cache) cache rest
    else sigops_loop accurate n (decode_pushnum op) rest

unfoldable pub count_sigops_internal : Bool → List ℕ → ℕ
count_sigops_internal accurate script = sigops_loop accurate 0 none (items (instructions script))

unfoldable pub count_sigops : List ℕ → ℕ
count_sigops script = count_sigops_internal true script

unfoldable pub count_sigops_legacy : List ℕ → ℕ
count_sigops_legacy script = count_sigops_internal false script

-- How the loop of `is_multisig` over the keys ends: with `return false`, or with the number of keys
-- and the items that are left
pub data Keys : Type 0 where
  not_keys : Keys
  keys : ℕ → List (Result Instruction) → Keys

-- `pushnum != num_pubkeys` for an opcode that is a number
abbrev differs : Option ℕ → ℕ → Bool
differs none num = false
differs (some pushnum) num = not (pushnum == num)

-- The loop. `num_pubkeys` is a u8, which wraps around in a release build.
unfoldable pub keys_loop : ℕ → List (Result Instruction) → Keys
keys_loop num_pubkeys [] = keys num_pubkeys []
keys_loop num_pubkeys (err e ∷ rest) = keys num_pubkeys rest
keys_loop num_pubkeys (ok (push_data bytes) ∷ rest) = keys_loop ((num_pubkeys + 1) % 2 ^ 8) rest
keys_loop num_pubkeys (ok (op_code op) ∷ rest) =
    if differs (decode_pushnum op) num_pubkeys then not_keys else keys num_pubkeys rest

-- The end of the script: CHECKMULTISIG and no more
unfoldable pub ends_multisig : List (Result Instruction) → Bool
ends_multisig (ok (op_code op) ∷ []) = op == op_checkmultisig
ends_multisig _ = false

unfoldable pub multisig_keys : ℕ → Keys → Bool
multisig_keys required_sigs not_keys = false
multisig_keys required_sigs (keys num_pubkeys rest) =
    if ltb num_pubkeys required_sigs then false else ends_multisig rest

unfoldable pub multisig_after : Option ℕ → List (Result Instruction) → Bool
multisig_after none rest = false
multisig_after (some required_sigs) rest = multisig_keys required_sigs (keys_loop 0 rest)

unfoldable pub multisig_items : List (Result Instruction) → Bool
multisig_items (ok (op_code op) ∷ rest) = multisig_after (decode_pushnum op) rest
multisig_items _ = false

unfoldable pub is_multisig : List ℕ → Bool
is_multisig script = multisig_items (items (instructions script))

-- `any(|i| i.is_err() || i.unwrap().push_bytes().is_none())`
unfoldable pub any_no_push : List (Result Instruction) → Bool
any_no_push [] = false
any_no_push (ok (push_data bytes) ∷ rest) = any_no_push rest
any_no_push (ok (op_code op) ∷ rest) = true
any_no_push (err e ∷ rest) = true

abbrev last_push : Option (Result Instruction) → Option (List ℕ)
last_push (some (ok (push_data bytes))) = some bytes
last_push _ = none

unfoldable pub redeem_script : List ℕ → Option (List ℕ)
redeem_script script =
    if any_no_push (items (instructions script))
    then none
    else last_push (last (items (instructions script)))

-- What `consensus_encode` of a script returns
abbrev encoded_len : List ℕ → ℕ
encoded_len script = VarInt.size (length script) + length script

abbrev is_some : Option ℕ → Bool
is_some none = false
is_some (some v) = true

-- The bytes that spending the output takes
unfoldable pub spend_size : List ℕ → ℕ
spend_size script =
    if is_op_return script
    then 0
    else if is_some (witness_version script)
    then 32 + 4 + 1 + 107 / 4 + 4 + 8 + encoded_len script
    else 32 + 4 + 1 + 107 + 4 + 8 + encoded_len script

-- `minimal_non_dust_inner`, in satoshis: `checked_mul` is expected to succeed
unfoldable pub minimal_non_dust_inner : List ℕ → ℕ → Result ℕ
minimal_non_dust_inner script dust_relay_fee =
    if ltb (dust_relay_fee * spend_size script) (2 ^ 64)
    then ok (dust_relay_fee * spend_size script / 1000)
    else err panic

unfoldable pub minimal_non_dust : List ℕ → Result ℕ
minimal_non_dust script = minimal_non_dust_inner script 3000

-- `FeeRate::to_sat_per_kwu`, times 4 in u64
unfoldable pub minimal_non_dust_custom : List ℕ → ℕ → Result ℕ
minimal_non_dust_custom script sat_per_kwu =
    minimal_non_dust_inner script (sat_per_kwu * 4 % 2 ^ 64)
