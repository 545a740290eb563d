-- ===== src/Script/Count/Sigops.antt =====
-- Bounds on the signature operations that litecoin/src/blockdata/script/borrowed.rs counts.
use rust_litecoin.Prelude.{
  ℕ, ◌+◌, ◌-◌, ◌*◌, ◌≤◌, ◌≡◌, Bool, true, false, ◌&&◌, ◌||◌, List, [], ◌∷◌, Option, none, some,
  length, leb, ◌==◌, arith, Bool-cases, inl, inr,
}
use rust_litecoin.Script.{Result, ok, err}
use rust_litecoin.Script.Opcode.{
  op_checksig, op_checksigverify, op_checkmultisig, op_checkmultisigverify, decode_pushnum,
}
use rust_litecoin.Script.Instruction.{Instruction, push_data, op_code, items, instructions}
use rust_litecoin.Script.Instruction.Progress.{items-bound}
use rust_litecoin.Script.Count.{
  multisig_sigops, sigops_loop, count_sigops_internal, count_sigops, count_sigops_legacy,
}

abbrev IsSmall : Option ℕ → Type 0
IsSmall none = Unit
IsSmall (some n) = n ≤ 20

multisig_sigops-bound :
    (accurate : Bool) (cache : Option ℕ) → IsSmall cache → multisig_sigops accurate cache ≤ 20
unfolding multisig_sigops
multisig_sigops-bound true none h = omega arith
multisig_sigops-bound true (some n) h = h
multisig_sigops-bound false cache h = omega arith

decode_pushnum-IsSmall : (op : ℕ) → IsSmall (decode_pushnum op)
unfolding decode_pushnum
decode_pushnum-IsSmall op = elim (Bool-cases (leb 0x51 op && leb op 0x60)) [
  | inl e ↦ rw e (small op e)
  | inr e ↦ rw e tt
]
  where
    small : (op : ℕ) → (leb 0x51 op && leb op 0x60) ≡ true → op - 0x51 + 1 ≤ 20
    small op e = ground arith

sigops_le :
    (n m : ℕ) (cache cache' : Option ℕ) (is : List (Result Instruction))
    → n ≤ m
    → IsSmall cache
    → sigops_loop true n cache is ≤ sigops_loop false m cache' is
unfolding sigops_loop multisig_sigops
sigops_le n m cache cache' [] h small = h
sigops_le n m cache cache' (err e ∷ is) h small = h
sigops_le n m cache cache' (ok (push_data bytes) ∷ is) h small = sigops_le n m none none is h tt
sigops_le n m cache cache' (ok (op_code op) ∷ is) h small =
    let bound = multisig_sigops-bound true cache small in
    elim (Bool-cases ((op == op_checksig) || (op == op_checksigverify))) [
      | inl a ↦ rw a (sigops_le (n + 1) (m + 1) cache cache' is (omega arith) small)
      | inr a ↦ elim (Bool-cases ((op == op_checkmultisig) || (op == op_checkmultisigverify))) [
        | inl b ↦
            rw (a, b)
              (sigops_le (n + multisig_sigops true cache) (m + 20) cache cache' is (omega arith)
                small)
        | inr b ↦
            rw (a, b)
              (sigops_le n m (decode_pushnum op) (decode_pushnum op) is h
                (decode_pushnum-IsSmall op))
      ]
    ]

sigops_bound :
    (n : ℕ) (cache : Option ℕ) (is : List (Result Instruction))
    → sigops_loop false n cache is ≤ n + 20 * length is
unfolding sigops_loop multisig_sigops
sigops_bound n cache [] = omega arith
sigops_bound n cache (err e ∷ is) = omega arith
sigops_bound n cache (ok (push_data bytes) ∷ is) = omega (arith, sigops_bound n none is)
sigops_bound n cache (ok (op_code op) ∷ is) =
    elim (Bool-cases ((op == op_checksig) || (op == op_checksigverify))) [
      | inl a ↦ rw a (omega (arith, sigops_bound (n + 1) cache is))
      | inr a ↦ elim (Bool-cases ((op == op_checkmultisig) || (op == op_checkmultisigverify))) [
        | inl b ↦ rw (a, b) (omega (arith, sigops_bound (n + 20) cache is))
        | inr b ↦ rw (a, b) (omega (arith, sigops_bound n (decode_pushnum op) is))
      ]
    ]

-- The accurate count of the signature operations of a script is at most the legacy one, and that is
-- at most 20 for each byte of the script.
pub count_sigops-bounds :
    (script : List ℕ)
    → (count_sigops script ≤ count_sigops_legacy script)
      × (count_sigops_legacy script ≤ 20 * length script)
unfolding count_sigops count_sigops_legacy count_sigops_internal
count_sigops-bounds script = (
  sigops_le 0 0 none none (items (instructions script)) (omega arith) tt,
  omega
      (arith, sigops_bound 0 none (items (instructions script)), items-bound (instructions script)),
)
