-- ===== src/Script/Instruction/Canonical.antt =====
-- What the iterator of litecoin/src/blockdata/script/instruction.rs accepts where it enforces minimal
-- pushes.
use rust_litecoin.Prelude.{
  ℕ, ◌+◌, ◌*◌, ◌/◌, ◌%◌, ◌^◌, ◌<◌, ◌≤◌, ◌≡◌, refl, sym, ap, ◌∙◌, Bool, true, false, ◌&&◌, List, [],
  ◌∷◌, ◌++◌, none, some, length, take, drop, ltb, leb, ◌==◌, if◌then◌else◌, arith, tests,
  Bool-cases, inl, inr, ge→ltb, lt→ltb, take-append-drop, length-take, All, append_assoc, ==_iff,
}
use mathlib.Core.Path.{subst}
use rust_litecoin.Wire.Codec.{IsByte}
use rust_litecoin.Script.{ok, err}
use rust_litecoin.Script.Opcode.{ordinary, legacy, classify}
use rust_litecoin.Script.Opcode.Cases.{
  classify_push, classify_plain, classify_data1, classify_data2, classify_data4,
}
use rust_litecoin.Script.Instruction.{
  Instruction, push_data, op_code, Instructions, take_slice_or_kill, Item, pushed, push_of_len,
  next_push_data_len, next_push, next_of_class, next, starts_with_number, is_empty, uint_ok,
}
use rust_litecoin.Script.Instruction.Push.{iterator, HeaderOf, direct, one, two, four, next_plain}
use rust_litecoin.Script.Instruction.Push.Length.{
  read_uint_one, read_uint_two, read_uint_four, read_uint_short,
}
use rust_litecoin.Script.Buf.{push_header, push_instruction, push_slice, push_opcode}

-- What an instruction that was returned came from: its bytes are a minimal encoding of it, in front of
-- those that are left.
pub data IsEncoding : Instruction → List ℕ → Type 0 where
  of_data :
      {bytes header : List ℕ}
      → HeaderOf (length bytes) header
      → IsEncoding (push_data bytes) (header ++ bytes)
  of_op : {code : ℕ} → 78 < code → code < 256 → IsEncoding (op_code code) (code ∷ [])

-- An item that is no error comes from an encoding.
abbrev pub ComesFrom : List ℕ → Item → Type 0
ComesFrom bytes (none, it) = Unit
ComesFrom bytes (some (err e), it) = Unit
ComesFrom bytes (some (ok i), it) =
    (front : List ℕ) × IsEncoding i front × (bytes ≡ front ++ it.left) × (it.enforce_minimal ≡ true)

if_both :
    {B : Type 0} (P : B → Type 0) (b : Bool) (x y : B)
    → (b ≡ true → P x)
    → (b ≡ false → P y)
    → P (if b then x else y)
if_both P true x y p q = p refl
if_both P false x y p q = q refl

-- A slice that is taken behind a header of its length
slice_from :
    (header rest : List ℕ) (n : ℕ)
    → HeaderOf n header
    → ComesFrom (header ++ rest) (pushed (take_slice_or_kill (iterator rest true) n))
unfolding take_slice_or_kill
slice_from header rest n form =
    if_both (λ r. ComesFrom (header ++ rest) (pushed r)) (leb n (length rest)) _ _
      (λ e.
        let size : length (take n rest) ≡ n = omega (tests, length-take n rest, e) in
        (
          header ++ take n rest,
          of_data (subst (λ m. HeaderOf m header) (sym size) form),
          ap (λ xs. header ++ xs) (sym (take-append-drop n rest))
              ∙ sym (append_assoc header (take n rest) (drop n rest)),
          refl,
        ))
      (λ e. tt)

-- A length that was read behind the first bytes of a header
from_len :
    (header rest : List ℕ) (n least : ℕ) (it : Instructions)
    → it.enforce_minimal ≡ true
    → (least ≤ n → n < 2 ^ 32 → HeaderOf n header)
    → ComesFrom (header ++ rest) (push_of_len it least (uint_ok n, rest))
unfolding push_of_len
from_len header rest n least it e form = rw e (
    if_both (ComesFrom (header ++ rest)) (ltb n least) _ _ (λ short. tt)
      (λ enough.
        if_both (ComesFrom (header ++ rest)) (leb (2 ^ 32) n) _ _ (λ big. tt)
          (λ small. slice_from header rest n (form (omega tests) (omega tests)))))

from_one :
    (rest : List ℕ)
    → All IsByte rest
    → ComesFrom (0x4c ∷ rest) (next_push_data_len (iterator rest true) 1 76)
unfolding next_push_data_len push_of_len
from_one [] h = rw (read_uint_short [] 1 (omega arith)) tt
from_one (a ∷ rest) (ha, h) =
    rw (read_uint_one a rest ha)
      (from_len (0x4c ∷ a ∷ []) rest a 76 (iterator (a ∷ rest) true) refl (λ low high. one low ha))

from_two :
    (rest : List ℕ)
    → All IsByte rest
    → ComesFrom (0x4d ∷ rest) (next_push_data_len (iterator rest true) 2 0x100)
unfolding next_push_data_len push_of_len
from_two [] h = rw (read_uint_short [] 2 (omega arith)) tt
from_two (a ∷ []) h = rw (read_uint_short (a ∷ []) 2 (omega arith)) tt
from_two (a ∷ b ∷ rest) (ha, (hb, h)) =
    rw (read_uint_two a b rest ha hb) (
      from_len (0x4d ∷ a ∷ b ∷ []) rest (a + 256 * b) 0x100 (iterator (a ∷ b ∷ rest) true) refl
        form)
  where
    form : 0x100 ≤ a + 256 * b → a + 256 * b < 2 ^ 32 → HeaderOf (a + 256 * b) (0x4d ∷ a ∷ b ∷ [])
    form low high =
        let n = a + 256 * b in
        let e : n % 256 ≡ a = omega arith in
        let f : n / 256 ≡ b = omega arith in
        subst (λ xs. HeaderOf n (0x4d ∷ xs)) (ap (λ x. x ∷ n / 256 ∷ []) e ∙ ap (λ x. a ∷ x ∷ []) f)
          (two low (omega arith))

from_four :
    (rest : List ℕ)
    → All IsByte rest
    → ComesFrom (0x4e ∷ rest) (next_push_data_len (iterator rest true) 4 0x10000)
unfolding next_push_data_len push_of_len
from_four [] h = rw (read_uint_short [] 4 (omega arith)) tt
from_four (a ∷ []) h = rw (read_uint_short (a ∷ []) 4 (omega arith)) tt
from_four (a ∷ b ∷ []) h = rw (read_uint_short (a ∷ b ∷ []) 4 (omega arith)) tt
from_four (a ∷ b ∷ c ∷ []) h = rw (read_uint_short (a ∷ b ∷ c ∷ []) 4 (omega arith)) tt
from_four (a ∷ b ∷ c ∷ d ∷ rest) (ha, (hb, (hc, (hd, h)))) =
    rw (read_uint_four a b c d rest ha hb hc hd) (
      from_len (0x4e ∷ a ∷ b ∷ c ∷ d ∷ []) rest (a + 256 * (b + 256 * (c + 256 * d))) 0x10000
        (iterator (a ∷ b ∷ c ∷ d ∷ rest) true) refl form)
  where
    form :
        0x10000 ≤ a + 256 * (b + 256 * (c + 256 * d))
        → a + 256 * (b + 256 * (c + 256 * d)) < 2 ^ 32
        → HeaderOf (a + 256 * (b + 256 * (c + 256 * d))) (0x4e ∷ a ∷ b ∷ c ∷ d ∷ [])
    form low high =
        let n = a + 256 * (b + 256 * (c + 256 * d)) in
        let e : n % 256 ≡ a = omega arith in
        let f : n / 0x100 % 256 ≡ b = omega arith in
        let g : n / 0x10000 % 256 ≡ c = omega arith in
        let k : n / 0x1000000 ≡ d = omega arith in
        subst (λ xs. HeaderOf n (0x4e ∷ xs))
          (ap (λ x. x ∷ n / 0x100 % 256 ∷ n / 0x10000 % 256 ∷ n / 0x1000000 ∷ []) e
            ∙ ap (λ x. a ∷ x ∷ n / 0x10000 % 256 ∷ n / 0x1000000 ∷ []) f
            ∙ ap (λ x. a ∷ b ∷ x ∷ n / 0x1000000 ∷ []) g
            ∙ ap (λ x. a ∷ b ∷ c ∷ x ∷ []) k)
          (four low high)

from_direct :
    (n : ℕ) (rest : List ℕ) → n ≤ 75 → ComesFrom (n ∷ rest) (next_push (iterator rest true) n)
unfolding next_push
from_direct n rest low =
    if_both (ComesFrom (n ∷ rest)) ((n == 1) && starts_with_number rest) _ _ (λ e. tt)
      (λ e.
        if_both (ComesFrom (n ∷ rest)) (is_empty rest && (n == 0)) _ _ (empty rest)
          (λ f. slice_from (n ∷ []) rest n (direct low)))
  where
    empty :
        (rest : List ℕ)
        → (is_empty rest && (n == 0)) ≡ true
        → ComesFrom (n ∷ rest) (some (ok (push_data [])), iterator rest true)
    empty [] e =
        let none_left : n ≡ 0 = (==_iff n 0).0 e in
        rw none_left (0 ∷ [], of_data (direct (omega arith)), refl, refl)
    empty (r ∷ rest) e = absurd (cc)

from_op :
    (code : ℕ) (rest : List ℕ)
    → 78 < code
    → code < 256
    → ComesFrom (code ∷ rest) (next_of_class (classify legacy code) code (iterator rest true))
from_op code rest low high =
    rw (next_plain (classify legacy code) code (iterator rest true) (classify_plain code low high))
      (code ∷ [], of_op low high, refl, refl)

from_class :
    (b k : ℕ) (rest : List ℕ)
    → b ≡ k
    → classify legacy k ≡ some (ordinary k)
    → ComesFrom (k ∷ rest) (next_of_class (some (ordinary k)) k (iterator rest true))
    → ComesFrom (b ∷ rest) (next_of_class (classify legacy b) b (iterator rest true))
from_class b k rest e f h = rw (e, f) h

-- On bytes, what `next` returns comes from a minimal encoding, unless it is an error or the end.
pub next-encoding :
    (bytes : List ℕ) → All IsByte bytes → ComesFrom bytes (next (iterator bytes true))
unfolding next next_of_class
next-encoding [] h = tt
next-encoding (b ∷ rest) (hb, h) = elim (Bool-cases (leb b 75)) [
  | inl low ↦ rw (classify_push b (omega tests)) (from_direct b rest (omega tests))
  | inr above ↦ elim (Bool-cases (b == 76)) [
    | inl a ↦ from_class b 76 rest ((==_iff b 76).0 a) classify_data1 (from_one rest h)
    | inr a ↦ elim (Bool-cases (b == 77)) [
      | inl c ↦ from_class b 77 rest ((==_iff b 77).0 c) classify_data2 (from_two rest h)
      | inr c ↦ elim (Bool-cases (b == 78)) [
        | inl d ↦ from_class b 78 rest ((==_iff b 78).0 d) classify_data4 (from_four rest h)
        | inr d ↦ from_op b rest (beyond b above a c d) hb
      ]
    ]
  ]
]
  where
    beyond :
        (b : ℕ)
        → leb b 75 ≡ false
        → (b == 76) ≡ false
        → (b == 77) ≡ false
        → (b == 78) ≡ false
        → 78 < b
    beyond b h a c d = ground arith

-- A header is what `push_slice` writes.
HeaderOf-push : (n : ℕ) (h : List ℕ) → HeaderOf n h → push_header n ≡ ok h
unfolding push_header
HeaderOf-push n _ (direct low) = rw (lt→ltb n 76 (omega arith)) refl
HeaderOf-push n _ (one low high) = rw (ge→ltb n 76 low, lt→ltb n 0x100 high) refl
HeaderOf-push n _ (two low high) =
    rw (ge→ltb n 76 (omega arith), ge→ltb n 0x100 low, lt→ltb n 0x10000 high) refl
HeaderOf-push n _ (four low high) =
    rw
      (
        ge→ltb n 76 (omega arith),
        ge→ltb n 0x100 (omega arith),
        ge→ltb n 0x10000 low,
        lt→ltb n 0x100000000 high,
      )
      refl

pub IsEncoding-push :
    (i : Instruction) (bytes script : List ℕ)
    → IsEncoding i bytes
    → push_instruction i script ≡ ok (script ++ bytes)
unfolding push_instruction push_slice push_opcode
IsEncoding-push _ _ script (of_data {bytes} {header} h) =
    rw (HeaderOf-push (length bytes) header h) refl
IsEncoding-push _ _ script (of_op low high) = refl
