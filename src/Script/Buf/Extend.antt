-- ===== src/Script/Buf/Extend.antt =====
-- The instructions that `extend` of litecoin/src/blockdata/script/owned.rs appends, and the iterator of
-- instruction.rs over them.
use rust_litecoin.Prelude.{
  ℕ, zero, suc, ◌+◌, ◌^◌, ◌<◌, ◌≤◌, ◌≡◌, refl, ap, ◌∙◌, Bool, false, ◌&&◌, List, [], ◌∷◌, ◌++◌,
  append_assoc, append-nil, Option, none, some, length, take, drop, ltb, arith, tests, Bool-cases,
  inl, inr, length-append, All, le→leb, gt→leb,
}
use rust_litecoin.Script.{Result, ok, ◌and_script◌}
use rust_litecoin.Script.Instruction.{Instruction, push_data, op_code, next, items}
use rust_litecoin.Script.Instruction.Progress.{items-next}
use rust_litecoin.Script.Instruction.Push.{
  iterator, is_small, HeaderOf, push_header-HeaderOf, next_data, next_op, direct, one, two, four,
}
use rust_litecoin.Script.Buf.{
  push_opcode, push_slice, push_instruction, push_all, extend, reserved_len_for_slice,
  script_serialized_len,
}

-- An instruction that can be pushed and is read back: a push of less than 2 ^ 32 bytes, which where
-- minimal pushes are enforced is no single byte that has an opcode of its own, or an opcode behind
-- those of the pushes.
abbrev pub IsScriptable : Bool → Instruction → Type 0
IsScriptable minimal (push_data bytes) =
    (length bytes < 2 ^ 32) × ((minimal && is_small bytes) ≡ false)
IsScriptable minimal (op_code code) = (78 < code) × (code < 256)

-- What an instruction appends
abbrev pub Appends : Bool → Instruction → List ℕ → Type 0
Appends minimal i bytes =
    ((script : List ℕ) → push_instruction i script ≡ ok (script ++ bytes))
    × ((rest : List ℕ)
        → next (iterator (bytes ++ rest) minimal) ≡ (some (ok i), iterator rest minimal))
    × (length bytes ≡ script_serialized_len i)

reserved :
    (n : ℕ) (h : List ℕ) (total : ℕ)
    → HeaderOf n h
    → total ≡ length h + n
    → total ≡ reserved_len_for_slice n
unfolding reserved_len_for_slice
reserved n _ total (direct low) e = rw (le→leb n 0x4b low) (omega (arith, e))
reserved n _ total (one low high) e =
    rw (gt→leb n 0x4b (omega arith), le→leb n 0xff (omega arith)) (omega (arith, e))
reserved n _ total (two low high) e =
    rw (gt→leb n 0x4b (omega arith), gt→leb n 0xff (omega arith), le→leb n 0xffff (omega arith))
      (omega (arith, e))
reserved n _ total (four low high) e =
    rw (gt→leb n 0x4b (omega arith), gt→leb n 0xff (omega arith), gt→leb n 0xffff (omega arith))
      (omega (arith, e))

pub appends :
    (minimal : Bool) (i : Instruction)
    → IsScriptable minimal i
    → (bytes : List ℕ) × Appends minimal i bytes
unfolding push_instruction push_slice push_opcode script_serialized_len
appends minimal (push_data bytes) (small, plain) =
    let (h, e, form) = push_header-HeaderOf (length bytes) small in
    (
      h ++ bytes,
      (
        λ script. rw e refl,
        λ rest. rw (append_assoc h bytes rest) (next_data bytes rest minimal h small plain form),
        reserved (length bytes) h (length (h ++ bytes)) form (length-append h bytes),
      ),
    )
appends minimal (op_code code) (low, high) =
    (code ∷ [], (λ script. refl, λ rest. next_op code rest minimal low high, refl))

-- What the iterator returns for instructions without an error
abbrev pub all_ok : List Instruction → List (Result Instruction)
all_ok [] = []
all_ok (i ∷ is) = ok i ∷ all_ok is

-- The bytes that instructions take
abbrev pub total_len : List Instruction → ℕ
total_len [] = 0
total_len (i ∷ is) = script_serialized_len i + total_len is

abbrev pub Written : Bool → List Instruction → List ℕ → Type 0
Written minimal is bytes =
    ((script : List ℕ) → push_all is script ≡ ok (script ++ bytes))
    × (items (iterator bytes minimal) ≡ all_ok is)
    × (length bytes ≡ total_len is)

no_items : (minimal : Bool) → items (iterator [] minimal) ≡ []
unfolding next
no_items minimal = items-next (iterator [] minimal)

items_cons :
    (minimal : Bool) (i : Instruction) (bytes rest : List ℕ)
    → next (iterator (bytes ++ rest) minimal) ≡ (some (ok i), iterator rest minimal)
    → items (iterator (bytes ++ rest) minimal) ≡ ok i ∷ items (iterator rest minimal)
items_cons minimal i bytes rest e = items-next (iterator (bytes ++ rest) minimal) ∙ rw (e, e) refl

pub written :
    (minimal : Bool) (is : List Instruction)
    → All (IsScriptable minimal) is
    → (bytes : List ℕ) × Written minimal is bytes
unfolding push_all
written minimal [] h = ([], (λ script. rw (append-nil script) refl, no_items minimal, refl))
written minimal (i ∷ is) (hi, his) =
    let (first, (push, read, size)) = appends minimal i hi in
    let (more, (pushes, reads, sizes)) = written minimal is his in
    (
      first ++ more,
      (
        λ script.
            rw (push script, ◌and_script◌, pushes (script ++ first), append_assoc script first more)
              refl,
        items_cons minimal i first more (read more) ∙ ap (λ xs. ok i ∷ xs) reads,
        omega (arith, length-append first more, size, sizes),
      ),
    )

-- An upper bound that an iterator may give
abbrev pub IsUpperBound : Option ℕ → List Instruction → Type 0
IsUpperBound none is = Unit
IsUpperBound (some max) is = length is ≤ max

drop_all : (n : ℕ) (is : List Instruction) → length is ≤ n → drop n is ≡ []
drop_all zero [] h = refl
drop_all zero (i ∷ is) h = absurd (omega arith)
drop_all (suc n) [] h = refl
drop_all (suc n) (i ∷ is) h = drop_all n is (omega arith)

take_all : (n : ℕ) (is : List Instruction) → length is ≤ n → take n is ≡ is
take_all zero [] h = refl
take_all zero (i ∷ is) h = absurd (omega arith)
take_all (suc n) [] h = refl
take_all (suc n) (i ∷ is) h = ap (λ xs. i ∷ xs) (take_all n is (omega arith))

-- The buffer of five instructions is never too small for a true upper bound.
extend-push_all :
    (upper : Option ℕ) (is : List Instruction) (script : List ℕ)
    → IsUpperBound upper is
    → extend upper is script ≡ push_all is script
unfolding extend
extend-push_all none is script h = refl
extend-push_all (some max) is script h = elim (Bool-cases (ltb max 6)) [
  | inl few ↦ rw (few, drop_all 5 is (omega tests), take_all 5 is (omega tests)) refl
  | inr many ↦ rw many refl
]

-- For instructions that are pushes of less than 2 ^ 32 bytes and opcodes above those of the pushes:
-- extending a script by them does not panic, whichever true upper bound their iterator gives. It
-- appends as many bytes as the instructions count for, and iterating over those without enforcing
-- minimal pushes returns the instructions and no error. So does iterating with enforcing them, if no
-- push is a single byte that has an opcode of its own.
pub items-extend :
    (minimal : Bool) (upper : Option ℕ) (is : List Instruction) (script : List ℕ)
    → IsUpperBound upper is
    → All (IsScriptable minimal) is
    → (bytes : List ℕ) × (extend upper is script ≡ ok (script ++ bytes))
      × (items (iterator bytes minimal) ≡ all_ok is)
      × (length bytes ≡ total_len is)
items-extend minimal upper is script bound h =
    let (bytes, (pushes, reads, size)) = written minimal is h in
    (bytes, extend-push_all upper is script bound ∙ pushes script, reads, size)
