-- ===== src/Script/Standard/Program.antt =====
-- `Script::witness_version` of litecoin/src/blockdata/script/borrowed.rs and the programs that
-- `new_witness_program_unchecked` of script/owned.rs writes.
use rust_litecoin.Prelude.{
  ℕ, zero, suc, ◌+◌, ◌-◌, ◌≤◌, ◌≡◌, refl, sym, ap, ◌∙◌, Bool, true, false, not, ◌&&◌, ◌||◌, List,
  [], ◌∷◌, Option, none, some, length, leb, ltb, ◌==◌, if◌then◌else◌, arith, tests, Bool-cases, inl,
  inr, le→leb, lt→ltb, ge→ltb, ==_refl, ==_iff, ne→==, leb→le, ltb→ge,
}
use rust_litecoin.Script.{ok}
use rust_litecoin.Script.Opcode.Cases.{and_left}
use rust_litecoin.Script.Buf.{push_opcode, push_header, push_slice}
use rust_litecoin.Script.Builder
use rust_litecoin.Script.Standard.{
  version_opcode, version_from_num, version_from_opcode, new_witness_program_unchecked, version_of,
  witness_version,
}

-- A program of a length and a version that a script can hold
abbrev pub IsProgram : ℕ → List ℕ → Type 0
IsProgram version program = (version ≤ 16) × (2 ≤ length program) × (length program ≤ 40)

pub new_witness_program_unchecked-bytes :
    (version : ℕ) (program : List ℕ)
    → length program ≤ 40
    → new_witness_program_unchecked version program
      ≡ ok (version_opcode version ∷ length program ∷ program)
unfolding new_witness_program_unchecked Builder.push_bytes Builder.push_op push_slice push_opcode
    push_header
new_witness_program_unchecked-bytes version program h =
    rw (lt→ltb (length program) 76 (omega arith)) refl

version_from_opcode-version_opcode :
    (v : ℕ) → v ≤ 16 → version_from_opcode (version_opcode v) ≡ some v
unfolding version_from_opcode version_opcode version_from_num
version_from_opcode-version_opcode zero h = refl
version_from_opcode-version_opcode (suc v) h =
    let op = 0x51 + suc v - 1 in
    let e : op - 0x51 + 1 ≡ suc v = omega arith in
    rw
      (
        ne→== op 0 (λ z. omega (arith, z)),
        le→leb 0x51 op (omega arith),
        le→leb op 0x60 (omega arith),
        e,
        le→leb (suc v) 16 h,
      )
      refl

if_then_none :
    {A : Type 0} (b : Bool) (x : Option A) (a : A)
    → (if b then x else none) ≡ some a
    → (b ≡ true) × (x ≡ some a)
if_then_none true x a h = (refl, h)
if_then_none false x a h = absurd (cc)

if_none_else :
    {A : Type 0} (b : Bool) (x : Option A) (a : A)
    → (if b then none else x) ≡ some a
    → (b ≡ false) × (x ≡ some a)
if_none_else true x a h = absurd (cc)
if_none_else false x a h = (refl, h)

some-inj : (m n : ℕ) → some m ≡ some n → m ≡ n
some-inj m n h = cc

opcode_of_number : (op v : ℕ) → 0x51 ≤ op → op - 0x51 + 1 ≡ v → op ≡ version_opcode v
unfolding version_opcode
opcode_of_number op zero h e = absurd (omega (arith, e))
opcode_of_number op (suc v) h e = omega (arith, e)

version_opcode-of :
    (op v : ℕ) → version_from_opcode op ≡ some v → (v ≤ 16) × (op ≡ version_opcode v)
unfolding version_from_opcode version_opcode version_from_num
version_opcode-of op v h = elim (Bool-cases (op == 0)) [
  | inl e ↦
      let is_zero : 0 ≡ v = some-inj 0 v (sym (rw e refl) ∙ h) in
      rw (sym is_zero) (omega arith, (==_iff op 0).0 e)
  | inr e ↦ numbered (sym (rw e refl) ∙ h)
]
  where
    numbered :
        (if leb 0x51 op && leb op 0x60 then version_from_num (op - 0x51 + 1) else none) ≡ some v
        → (v ≤ 16) × (op ≡ version_opcode v)
    numbered h =
        let (range, found) = if_then_none (leb 0x51 op && leb op 0x60) _ v h in
        let (small, same) = if_then_none (leb (op - 0x51 + 1) 16) _ v found in
        let low = and_left (leb 0x51 op) (leb op 0x60) range in
        let e = some-inj (op - 0x51 + 1) v same in
        (omega (tests, small, e), opcode_of_number op v (leb→le 0x51 op low) e)

version_of-program :
    (version n op : ℕ)
    → version_from_opcode op ≡ some version
    → 2 ≤ n
    → n ≤ 40
    → version_of (suc (suc n)) op n ≡ some version
unfolding version_of
version_of-program version n op e low high =
    let back : suc (suc n) - 2 ≡ n = omega arith in
    rw (ge→ltb n 2 low, ge→ltb 40 n high, back, ==_refl n) e

pub witness_version-program :
    (version : ℕ) (program : List ℕ)
    → IsProgram version program
    → witness_version (version_opcode version ∷ length program ∷ program) ≡ some version
unfolding witness_version
witness_version-program version program (small, low, high) =
    let n = length program in
    rw (le→leb 4 (suc (suc n)) (omega arith), le→leb (suc (suc n)) 42 (omega arith))
      (version_of-program version n (version_opcode version)
        (version_from_opcode-version_opcode version small) low high)

pub negated : (b : Bool) → not b ≡ false → b ≡ true
negated true h = refl
negated false h = absurd (cc)

pub or_false : (a b : Bool) → (a || b) ≡ false → (a ≡ false) × (b ≡ false)
or_false true b h = absurd (cc)
or_false false b h = (refl, h)

abbrev Holds : ℕ → List ℕ → Type 0
Holds version script =
    (program : List ℕ) × IsProgram version program
    × (script ≡ version_opcode version ∷ length program ∷ program)

pub witness_version-Holds :
    (version : ℕ) (script : List ℕ) → witness_version script ≡ some version → Holds version script
unfolding witness_version version_of
witness_version-Holds version [] h = absurd (cc)
witness_version-Holds version (op ∷ []) h = absurd (cc)
witness_version-Holds version (op ∷ push ∷ program) h =
    let n = length program in
    let (sized, h') =
      if_none_else (not (leb 4 (suc (suc n)) && leb (suc (suc n)) 42)) _ version h in
    let (range, h'') = if_none_else (ltb push 2 || ltb 40 push) _ version h' in
    let (len, found) = if_none_else (not (suc (suc n) - 2 == push)) _ version h'' in
    let (low, high) = or_false (ltb push 2) (ltb 40 push) range in
    let same : suc (suc n) - 2 ≡ push = (==_iff (suc (suc n) - 2) push).0 (negated _ len) in
    let push_len : push ≡ n = omega (arith, same) in
    let (small, opcode) = version_opcode-of op version found in
    (
      program,
      (
        small,
        omega (arith, ltb→ge push 2 low, push_len),
        omega (arith, ltb→ge 40 push high, push_len),
      ),
      ap (λ x. x ∷ push ∷ program) opcode ∙ ap (λ x. version_opcode version ∷ x ∷ program) push_len,
    )
