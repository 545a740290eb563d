-- ===== src/Script/Instruction/Push.antt =====
-- What the iterator of litecoin/src/blockdata/script/instruction.rs makes of the bytes that
-- `push_instruction` of script/owned.rs appends.
pub mod Length
use rust_litecoin.Prelude.{
  ℕ, zero, suc, ◌+◌, ◌-◌, ◌*◌, ◌/◌, ◌%◌, ◌^◌, ◌<◌, ◌≤◌, ◌≡◌, refl, sym, ap, ◌∙◌, Bool, true, false,
  ◌&&◌, not, List, [], ◌∷◌, ◌++◌, Option, none, some, length, take, drop, ltb, leb, ◌==◌,
  if◌then◌else◌, arith, tests, Bool-cases, inl, inr, ge→ltb, lt→ltb, gt→leb, le→leb, ne→==,
  length-append, take_front, drop_front,
}
use rust_litecoin.Wire.Codec.{IsByte}
use rust_litecoin.Script.{Result, ok, err}
use rust_litecoin.Script.Opcode.{
  Class, push_num, push_bytes, return_op, success_op, illegal_op, no_op, ordinary, legacy, classify,
}
use rust_litecoin.Script.Opcode.Cases.{
  classify_push, classify_plain, classify_data1, classify_data2, classify_data4, is_plain, and_left,
  and_right,
}
use rust_litecoin.Script.Instruction.{
  Instruction, push_data, op_code, Instructions, kill, take_slice_or_kill, Item, pushed,
  push_of_len, next_push_data_len, next_push, next_of_class, next, is_number, starts_with_number,
  is_empty, read_uint_iter, uint_ok,
}
use rust_litecoin.Script.Instruction.Push.Length.{read_uint_one, read_uint_two, read_uint_four}
use rust_litecoin.Script.Buf.{push_header}

abbrev pub iterator : List ℕ → Bool → Instructions
iterator bytes minimal = record { left = bytes; enforce_minimal = minimal }

-- One byte that has an opcode of its own
abbrev pub is_small : List ℕ → Bool
is_small [] = false
is_small (b ∷ []) = is_number b
is_small (b ∷ c ∷ bytes) = false

-- The forms of the bytes in front of a push of `n` bytes
pub data HeaderOf : ℕ → List ℕ → Type 0 where
  direct : {n : ℕ} → n ≤ 75 → HeaderOf n (n ∷ [])
  one : {n : ℕ} → 76 ≤ n → n < 0x100 → HeaderOf n (0x4c ∷ n ∷ [])
  two : {n : ℕ} → 0x100 ≤ n → n < 0x10000 → HeaderOf n (0x4d ∷ (n % 0x100) ∷ (n / 0x100) ∷ [])
  four :
      {n : ℕ}
      → 0x10000 ≤ n
      → n < 0x100000000
      → HeaderOf n
          (0x4e ∷ (n % 0x100) ∷ (n / 0x100 % 0x100) ∷ (n / 0x10000 % 0x100) ∷ (n / 0x1000000) ∷ [])

pub push_header-HeaderOf :
    (n : ℕ) → n < 2 ^ 32 → (h : List ℕ) × (push_header n ≡ ok h) × HeaderOf n h
unfolding push_header
push_header-HeaderOf n small = elim (Bool-cases (ltb n 76)) [
  | inl a ↦ (n ∷ [], rw a refl, direct (omega tests))
  | inr a ↦ elim (Bool-cases (ltb n 0x100)) [
    | inl b ↦ (0x4c ∷ n ∷ [], rw (a, b) refl, one (omega tests) (omega tests))
    | inr b ↦ elim (Bool-cases (ltb n 0x10000)) [
      | inl c ↦ (
        0x4d ∷ (n % 0x100) ∷ (n / 0x100) ∷ [],
        rw (a, b, c) refl,
        two (omega tests) (omega tests),
      )
      | inr c ↦
          let d = lt→ltb n 0x100000000 small in
          (
            0x4e ∷ (n % 0x100) ∷ (n / 0x100 % 0x100) ∷ (n / 0x10000 % 0x100) ∷ (n / 0x1000000) ∷ [],
            rw (a, b, c, d) refl,
            four (omega tests) small,
          )
    ]
  ]
]

take_slice-front :
    (bytes rest : List ℕ) (minimal : Bool)
    → take_slice_or_kill (iterator (bytes ++ rest) minimal) (length bytes)
      ≡ (ok bytes, iterator rest minimal)
unfolding take_slice_or_kill
take_slice-front bytes rest minimal =
    let fits =
      le→leb (length bytes) (length (bytes ++ rest)) (omega (arith, length-append bytes rest)) in
    rw (fits, take_front bytes rest, drop_front bytes rest) refl

single :
    (bytes rest : List ℕ)
    → ((length bytes == 1) && starts_with_number (bytes ++ rest)) ≡ is_small bytes
single [] rest = refl
single (b ∷ []) rest = refl
single (b ∷ c ∷ bytes) rest = rw (ne→== (length (b ∷ c ∷ bytes)) 1 (λ e. omega (arith, e))) refl

-- Only the end of a script is an empty push taken before its slice.
next_push-front :
    (bytes rest : List ℕ) (minimal : Bool)
    → (minimal && is_small bytes) ≡ false
    → next_push (iterator (bytes ++ rest) minimal) (length bytes)
      ≡ (some (ok (push_data bytes)), iterator rest minimal)
unfolding next_push
next_push-front [] [] minimal h = rw (single [] [], h) refl
next_push-front [] (r ∷ rest) minimal h =
    rw (single [] (r ∷ rest), h, take_slice-front [] (r ∷ rest) minimal) refl
next_push-front (b ∷ bytes) rest minimal h =
    rw (single (b ∷ bytes) rest, h, take_slice-front (b ∷ bytes) rest minimal) refl

and_false : (b : Bool) → (b && false) ≡ false
and_false true = refl
and_false false = refl

negated : (b : Bool) → not b ≡ true → b ≡ false
negated true h = absurd (cc)
negated false h = refl

-- A length that is not below the least one of its form
push_of_len-front :
    (least : ℕ) (bytes rest : List ℕ) (minimal : Bool) (it : Instructions)
    → it.enforce_minimal ≡ minimal
    → least ≤ length bytes
    → length bytes < 2 ^ 32
    → push_of_len it least (uint_ok (length bytes), bytes ++ rest)
      ≡ (some (ok (push_data bytes)), iterator rest minimal)
unfolding push_of_len
push_of_len-front least bytes rest minimal it e h k =
    rw
      (
        ge→ltb (length bytes) least h,
        and_false (it.enforce_minimal),
        gt→leb (2 ^ 32) (length bytes) k,
        e,
        take_slice-front bytes rest minimal,
      )
      refl

pub next_data :
    (bytes rest : List ℕ) (minimal : Bool) (h : List ℕ)
    → length bytes < 2 ^ 32
    → (minimal && is_small bytes) ≡ false
    → HeaderOf (length bytes) h
    → next (iterator (h ++ (bytes ++ rest)) minimal)
      ≡ (some (ok (push_data bytes)), iterator rest minimal)
unfolding next next_of_class next_push_data_len
next_data bytes rest minimal _ small h (direct low) =
    rw (classify_push (length bytes) low) (next_push-front bytes rest minimal h)
next_data bytes rest minimal _ small h (one low high) =
    rw (classify_data1, read_uint_one (length bytes) (bytes ++ rest) high)
      (push_of_len-front 76 bytes rest minimal (iterator ((length bytes) ∷ (bytes ++ rest)) minimal)
        refl low small)
next_data bytes rest minimal _ small h (two low high) =
    let n = length bytes in
    let whole : n % 0x100 + 256 * (n / 0x100) ≡ n = omega arith in
    rw
      (
        classify_data2,
        read_uint_two (n % 0x100) (n / 0x100) (bytes ++ rest) (omega arith) (omega arith),
        whole,
      )
      (push_of_len-front 0x100 bytes rest minimal
        (iterator ((n % 0x100) ∷ (n / 0x100) ∷ (bytes ++ rest)) minimal) refl low small)
next_data bytes rest minimal _ small h (four low high) =
    let n = length bytes in
    let whole : n % 0x100
          + 256 * (n / 0x100 % 0x100 + 256 * (n / 0x10000 % 0x100 + 256 * (n / 0x1000000)))
        ≡ n =
      omega arith in
    rw
      (
        classify_data4,
        read_uint_four (n % 0x100) (n / 0x100 % 0x100) (n / 0x10000 % 0x100) (n / 0x1000000)
            (bytes ++ rest) (omega arith) (omega arith) (omega arith) (omega arith),
        whole,
      )
      (push_of_len-front 0x10000 bytes rest minimal
        (iterator
          ((n % 0x100)
            ∷ (n / 0x100 % 0x100)
            ∷ (n / 0x10000 % 0x100)
            ∷ (n / 0x1000000)
            ∷ (bytes ++ rest))
          minimal)
        refl low small)

-- Any other opcode stands for itself.
pub next_plain :
    (c : Option Class) (byte : ℕ) (it : Instructions)
    → is_plain c ≡ true
    → next_of_class c byte it ≡ (some (ok (op_code byte)), it)
unfolding next_of_class
next_plain none byte it h = absurd (cc)
next_plain (some (push_bytes n)) byte it h = absurd (cc)
next_plain (some (push_num z)) byte it h = refl
next_plain (some return_op) byte it h = refl
next_plain (some success_op) byte it h = refl
next_plain (some illegal_op) byte it h = refl
next_plain (some no_op) byte it h = refl
next_plain (some (ordinary code)) byte it h =
    let a = negated (code == 0x4c) (and_left (not (code == 0x4c)) _ h) in
    let more = and_right (not (code == 0x4c)) _ h in
    let b = negated (code == 0x4d) (and_left (not (code == 0x4d)) _ more) in
    let c = negated (code == 0x4e) (and_right (not (code == 0x4d)) _ more) in rw (a, b, c) refl

pub next_op :
    (code : ℕ) (rest : List ℕ) (minimal : Bool)
    → 78 < code
    → code < 256
    → next (iterator (code ∷ rest) minimal) ≡ (some (ok (op_code code)), iterator rest minimal)
unfolding next
next_op code rest minimal low high =
    next_plain (classify legacy code) code (iterator rest minimal) (classify_plain code low high)
