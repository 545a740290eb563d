-- ===== src/Script/Count/Multisig.antt =====
-- `Script::is_multisig` of litecoin/src/blockdata/script/borrowed.rs on the scripts of its form.
use rust_litecoin.Prelude.{
  ℕ, suc, ◌+◌, ◌-◌, ◌%◌, ◌^◌, ◌<◌, ◌≤◌, ◌≡◌, refl, ap, ◌∙◌, true, false, not, ◌&&◌, List, [], ◌∷◌,
  some, length, leb, ltb, ◌==◌, if◌then◌else◌, arith, Bool-cases, inl, inr, All, le→leb,
}
use rust_litecoin.Script.{ok}
use rust_litecoin.Script.Opcode.{decode_pushnum, op_checkmultisig}
use rust_litecoin.Script.Instruction.{Instruction, push_data, op_code}
use rust_litecoin.Script.Buf.{push_all}
use rust_litecoin.Script.Buf.Extend.{all_ok, IsScriptable, written}
use rust_litecoin.Script.Count.{
  not_keys, keys, keys_loop, ends_multisig, multisig_keys, multisig_after, multisig_items,
  is_multisig,
}

-- Pushes of keys, and what follows
abbrev key_pushes : List (List ℕ) → List Instruction → List Instruction
key_pushes [] rest = rest
key_pushes (k ∷ ks) rest = push_data k ∷ key_pushes ks rest

-- `required <key> .. <key> total CHECKMULTISIG`
abbrev pub multisig_script : ℕ → List (List ℕ) → ℕ → List Instruction
multisig_script required ks total =
    op_code (0x50 + required)
    ∷ key_pushes ks (op_code (0x50 + total) ∷ op_code op_checkmultisig ∷ [])

pushnum : (n : ℕ) → 1 ≤ n → n ≤ 16 → decode_pushnum (0x50 + n) ≡ some n
unfolding decode_pushnum
pushnum n low high =
    let e : 0x50 + n - 0x51 + 1 ≡ n = omega arith in
    rw (le→leb 0x51 (0x50 + n) (omega arith), le→leb (0x50 + n) 0x60 (omega arith), e) refl

counted :
    (num : ℕ) (ks : List (List ℕ)) (rest : List Instruction)
    → keys_loop (num % 256) (all_ok (key_pushes ks rest))
      ≡ keys_loop ((num + length ks) % 256) (all_ok rest)
unfolding keys_loop
counted num [] rest = ap (λ n. keys_loop (n % 256) (all_ok rest)) (omega arith)
counted num (k ∷ ks) rest =
    let e : (num % 256 + 1) % 256 ≡ (num + 1) % 256 = omega arith in
    let f : num + 1 + length ks ≡ num + suc (length ks) = omega arith in
    rw (keys_loop, e) (counted (num + 1) ks rest ∙ rw f refl)

pushes-IsScriptable :
    (ks : List (List ℕ)) (rest : List Instruction)
    → All (λ k. length k < 2 ^ 32) ks
    → All (IsScriptable false) rest
    → All (IsScriptable false) (key_pushes ks rest)
pushes-IsScriptable [] rest h g = g
pushes-IsScriptable (k ∷ ks) rest (hk, h) g = ((hk, refl), pushes-IsScriptable ks rest h g)

decided :
    (required num total : ℕ)
    → multisig_keys required
        (if not (total == num) then not_keys else keys num (ok (op_code op_checkmultisig) ∷ []))
      ≡ (total == num) && leb required num
unfolding multisig_keys ends_multisig
decided required num total = elim (Bool-cases (total == num)) [
  | inr e ↦ rw e refl
  | inl e ↦ rw e (enough required num)
]
  where
    enough : (required num : ℕ) → (if ltb num required then false else true) ≡ leb required num
    enough required num = ground arith

items-is_multisig :
    (required total : ℕ) (ks : List (List ℕ))
    → 1 ≤ required
    → required ≤ 16
    → 1 ≤ total
    → total ≤ 16
    → multisig_items (all_ok (multisig_script required ks total))
      ≡ (total == length ks % 256) && leb required (length ks % 256)
unfolding multisig_items multisig_after keys_loop
items-is_multisig required total ks a b c d =
    let last = op_code (0x50 + total) ∷ op_code op_checkmultisig ∷ [] in
    let none_before : 0 + length ks ≡ length ks = omega arith in
    rw (pushnum required a b, counted 0 ks last, pushnum total c d, none_before)
      (decided required (length ks % 256) total)

-- A script that requires some of a number of keys, both between 1 and 16, can be written, whatever
-- keys stand between the numbers. `is_multisig` accepts it exactly when the second number is that of
-- the keys modulo 256 and the first is not above it: 257 keys are accepted as one.
pub is_multisig_lem :
    (required total : ℕ) (ks : List (List ℕ))
    → 1 ≤ required
    → required ≤ 16
    → 1 ≤ total
    → total ≤ 16
    → All (λ k. length k < 2 ^ 32) ks
    → (script : List ℕ) × (push_all (multisig_script required ks total) [] ≡ ok script)
      × (is_multisig script ≡ (total == length ks % 256) && leb required (length ks % 256))
unfolding is_multisig
is_multisig_lem required total ks a b c d h =
    let number : All (IsScriptable false) (op_code (0x50 + total) ∷ op_code op_checkmultisig ∷ []) =
      ((omega arith, omega arith), ((omega arith, omega arith), tt)) in
    let numbers : All (IsScriptable false) (multisig_script required ks total) =
      ((omega arith, omega arith), pushes-IsScriptable ks _ h number) in
    let (script, (pushes, reads, size)) =
      written false (multisig_script required ks total) numbers in
    (script, pushes [], ap multisig_items reads ∙ items-is_multisig required total ks a b c d)
