-- ===== src/Script/Builder/LastOp.antt =====
-- The last opcode of the instructions that a script of litecoin/src/blockdata/script holds.
use rust_litecoin.Prelude.{
  ℕ, ◌-◌, ◌≡◌, refl, sym, ap, ◌∙◌, false, List, [], ◌∷◌, ◌++◌, Option, none, some, length, arith,
  All, length-append, take_front,
}
use rust_litecoin.Script.{Result, ok, err, last, ◌and_script◌}
use rust_litecoin.Script.Instruction.{Instruction, push_data, op_code, items, instructions}
use rust_litecoin.Script.Buf.{push_instruction, push_all, last_opcode, pop}
use rust_litecoin.Script.Buf.Extend.{IsScriptable, all_ok, written}

-- The opcode of the last instruction
unfoldable pub last_op_of : List Instruction → Option ℕ
last_op_of [] = none
last_op_of (push_data bytes ∷ []) = none
last_op_of (op_code code ∷ []) = some code
last_op_of (i ∷ j ∷ is) = last_op_of (j ∷ is)

-- A first push, done or refused
through :
    (r : Result (List ℕ)) (is js : List Instruction) (s' : List ℕ)
    → ((t : List ℕ) → push_all is t ≡ ok s' → push_all (is ++ js) t ≡ push_all js s')
    → (r and_script λ t. push_all is t) ≡ ok s'
    → (r and_script λ t. push_all (is ++ js) t) ≡ push_all js s'
through (ok t) is js s' ih e = ih t e
through (err x) is js s' ih e = absurd (cc)

pub push_all-append :
    (is js : List Instruction) (s s' : List ℕ)
    → push_all is s ≡ ok s'
    → push_all (is ++ js) s ≡ push_all js s'
unfolding push_all
push_all-append [] js s s' e = ap (push_all js) (ok-inj s s' e)
  where
    ok-inj : (a b : List ℕ) → ok a ≡ ok b → a ≡ b
    ok-inj a b e = cc
push_all-append (i ∷ is) js s s' e =
    through (push_instruction i s) is js s' (λ t f. push_all-append is js t s' f) e

pub All-snoc :
    (is : List Instruction) (i : Instruction)
    → All (IsScriptable false) is
    → IsScriptable false i
    → All (IsScriptable false) (is ++ i ∷ [])
All-snoc [] i h hi = (hi, tt)
All-snoc (j ∷ is) i (hj, h) hi = (hj, All-snoc is i h hi)

pub last_op_of-data :
    (is : List Instruction) (bytes : List ℕ) → last_op_of (is ++ push_data bytes ∷ []) ≡ none
unfolding last_op_of
last_op_of-data [] bytes = refl
last_op_of-data (i ∷ []) bytes = refl
last_op_of-data (i ∷ j ∷ is) bytes = last_op_of-data (j ∷ is) bytes

pub last_op_of-op :
    (is : List Instruction) (code : ℕ) → last_op_of (is ++ op_code code ∷ []) ≡ some code
unfolding last_op_of
last_op_of-op [] code = refl
last_op_of-op (i ∷ []) code = refl
last_op_of-op (i ∷ j ∷ is) code = last_op_of-op (j ∷ is) code

-- A last opcode can be split off.
pub split_last :
    (is : List Instruction) (code : ℕ)
    → last_op_of is ≡ some code
    → (js : List Instruction) × (is ≡ js ++ op_code code ∷ [])
unfolding last_op_of
split_last [] code e = absurd (cc)
split_last (push_data bytes ∷ []) code e = absurd (cc)
split_last (op_code c ∷ []) code e = ([], ap (λ x. op_code x ∷ []) (some-inj c code e))
  where
    some-inj : (m n : ℕ) → some m ≡ some n → m ≡ n
    some-inj m n h = cc
split_last (i ∷ j ∷ is) code e =
    let (js, split) = split_last (j ∷ is) code e in (i ∷ js, ap (λ xs. i ∷ xs) split)

-- `last_opcode` finds the last opcode of the instructions.
pub last-all_ok :
    (is : List Instruction)
    → elim (last (all_ok is)) [ some (ok (op_code code)) ↦ some code | _ ↦ none ] ≡ last_op_of is
unfolding last last_op_of
last-all_ok [] = refl
last-all_ok (push_data bytes ∷ []) = refl
last-all_ok (op_code code ∷ []) = refl
last-all_ok (i ∷ j ∷ is) = last-all_ok (j ∷ is)

pub last_opcode-last_op_of :
    (is : List Instruction) (script : List ℕ)
    → All (IsScriptable false) is
    → push_all is [] ≡ ok script
    → last_opcode script ≡ last_op_of is
unfolding last_opcode
last_opcode-last_op_of is script h e =
    let (bytes, (pushes, reads, size)) = written false is h in
    let same : bytes ≡ script = ok-inj bytes script (sym (pushes []) ∙ e) in
    let reads' : items (instructions script) ≡ all_ok is =
      ap (λ s. items (instructions s)) (sym same) ∙ reads in
    rw (last_opcode, reads') (last-all_ok is)
  where
    ok-inj : (a b : List ℕ) → ok a ≡ ok b → a ≡ b
    ok-inj a b e = cc

pub pop-snoc : (xs : List ℕ) (x : ℕ) → pop (xs ++ x ∷ []) ≡ xs
pop-snoc xs x =
    let e : length (xs ++ x ∷ []) - 1 ≡ length xs = omega (arith, length-append xs (x ∷ [])) in
    rw e (take_front xs (x ∷ []))
