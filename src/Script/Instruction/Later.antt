-- ===== src/Script/Instruction/Later.antt =====
-- What a call of `next` of litecoin/src/blockdata/script/instruction.rs leaves of the script.
use Prim.Native.Nat.{max}
use rust_litecoin.Prelude.{
  ℕ, zero, suc, ◌+◌, ◌-◌, ◌*◌, ◌^◌, ◌%◌, ◌<◌, ◌≤◌, ◌≡◌, refl, sym, ap, ◌∙◌, Bool, true, false, ◌&&◌,
  List, [], ◌∷◌, Option, none, some, length, drop, ltb, leb, ◌==◌, if◌then◌else◌, arith, Bool-cases,
  inl, inr, length-drop, drop_add, ◌/◌,
}
use rust_litecoin.Script.{
  Result, ok, err, panic, early_end_of_script, non_minimal_push, numeric_overflow,
}
use rust_litecoin.Script.Opcode.{
  Class, push_num, push_bytes, return_op, success_op, illegal_op, no_op, ordinary, legacy, classify,
}
use rust_litecoin.Script.Instruction.{
  Instruction, push_data, op_code, Instructions, kill, take_slice_or_kill, UintResult, uint_ok,
  uint_err, read_uint_loop, read_uint_iter, Item, pushed, push_of_len, next_push_data_len,
  next_push, next_of_class, next, starts_with_number, is_empty,
}

-- An iterator later on: its bytes are the end of the bytes before.
abbrev pub IsLater : Instructions → Instructions → Type 0
IsLater it' it =
    ((k : ℕ) × (it'.left ≡ drop k (it.left))) × (it'.enforce_minimal ≡ it.enforce_minimal)

pub IsLater-trans : (a b c : Instructions) → IsLater a b → IsLater b c → IsLater a c
IsLater-trans a b c ((m, e), f) ((k, g), h) =
    ((k + m, e ∙ ap (λ xs. drop m xs) g ∙ sym (drop_add k m (c.left))), f ∙ h)

if_both : {B : Type 0} (P : B → Type 0) (b : Bool) (x y : B) → P x → P y → P (if b then x else y)
if_both P true x y p q = p
if_both P false x y p q = q

kill-IsLater : (it : Instructions) → IsLater (kill it) it
unfolding kill
kill-IsLater it = ((suc (max (length (it.left)) 1 - 1), refl), refl)

pushed-later : (r : Result (List ℕ) × Instructions) → (pushed r).1 ≡ r.1
pushed-later (ok bytes, it) = refl
pushed-later (err e, it) = refl

take_slice-IsLater : (it : Instructions) (n : ℕ) → IsLater (pushed (take_slice_or_kill it n)).1 it
unfolding take_slice_or_kill
take_slice-IsLater it n =
    if_both (λ r. IsLater (pushed r).1 it) (leb n (length (it.left))) _ _ ((n, refl), refl)
      (kill-IsLater it)

read_uint_loop-tail :
    (size i ret : ℕ) (bytes : List ℕ)
    → (k : ℕ) × ((read_uint_loop size i ret bytes).1 ≡ drop k bytes)
unfolding read_uint_loop
read_uint_loop-tail zero i ret bytes = (0, refl)
read_uint_loop-tail (suc size) i ret [] = (0, refl)
read_uint_loop-tail (suc size) i ret (item ∷ bytes) =
    let test = ltb (i * 8) 64 && ltb (item * 2 ^ (i * 8) % 2 ^ 64 + ret) (2 ^ 64) in
    elim (Bool-cases test) [
      | inl e ↦
          let ih = read_uint_loop-tail size (suc i) (item * 2 ^ (i * 8) % 2 ^ 64 + ret) bytes in
          rw (read_uint_loop, e) (suc (ih.0), ih.1)
      | inr e ↦ rw (read_uint_loop, e) (1, refl)
    ]

read_uint_iter-tail :
    (bytes : List ℕ) (size : ℕ) → (k : ℕ) × ((read_uint_iter bytes size).1 ≡ drop k bytes)
unfolding read_uint_iter
read_uint_iter-tail bytes size =
    let P : UintResult × List ℕ → Type 0 = λ r. (k : ℕ) × (r.1 ≡ drop k bytes) in
    if_both P (ltb (length bytes) size) _ _ (0, refl)
      (if_both P (ltb ((2 ^ 16 - 1) / 8) size) _ _ (0, refl) (read_uint_loop-tail size 0 0 bytes))

push_of_len-IsLater :
    (it : Instructions) (m : ℕ) (r : UintResult × List ℕ)
    → IsLater (push_of_len it m r).1 (record it { left = r.1 })
unfolding push_of_len
push_of_len-IsLater it m (uint_err e, bytes) = kill-IsLater (record it { left = bytes })
push_of_len-IsLater it m (uint_ok n, bytes) =
    let it' : Instructions = record it { left = bytes } in
    let P : Item → Type 0 = λ r. IsLater r.1 it' in
    if_both P (it.enforce_minimal && ltb n m) _ _ (kill-IsLater it')
      (if_both P (leb (2 ^ 32) n) _ _ ((0, refl), refl) (take_slice-IsLater it' n))

next_push_data_len-IsLater :
    (it : Instructions) (len m : ℕ) → IsLater (next_push_data_len it len m).1 it
unfolding next_push_data_len
next_push_data_len-IsLater it len m =
    let r = read_uint_iter (it.left) len in
    IsLater-trans (push_of_len it m r).1 (record it { left = r.1 }) it (push_of_len-IsLater it m r)
      (read_uint_iter-tail (it.left) len, refl)

next_push-IsLater : (it : Instructions) (n : ℕ) → IsLater (next_push it n).1 it
unfolding next_push
next_push-IsLater it n =
    let P : Item → Type 0 = λ r. IsLater r.1 it in
    if_both P (it.enforce_minimal && ((n == 1) && starts_with_number (it.left))) _ _
      (kill-IsLater it)
      (if_both P (is_empty (it.left) && (n == 0)) _ _ ((0, refl), refl) (take_slice-IsLater it n))

next_of_class-IsLater :
    (c : Option Class) (byte : ℕ) (it : Instructions) → IsLater (next_of_class c byte it).1 it
unfolding next_of_class
next_of_class-IsLater none byte it = ((0, refl), refl)
next_of_class-IsLater (some (push_bytes n)) byte it = next_push-IsLater it n
next_of_class-IsLater (some (ordinary code)) byte it =
    let P : Item → Type 0 = λ r. IsLater r.1 it in
    if_both P (code == 0x4c) _ _ (next_push_data_len-IsLater it 1 76) (
      if_both P (code == 0x4d) _ _ (next_push_data_len-IsLater it 2 0x100)
        (if_both P (code == 0x4e) _ _ (next_push_data_len-IsLater it 4 0x10000) ((0, refl), refl)))
next_of_class-IsLater (some (push_num z)) byte it = ((0, refl), refl)
next_of_class-IsLater (some return_op) byte it = ((0, refl), refl)
next_of_class-IsLater (some success_op) byte it = ((0, refl), refl)
next_of_class-IsLater (some illegal_op) byte it = ((0, refl), refl)
next_of_class-IsLater (some no_op) byte it = ((0, refl), refl)

-- An iterator after its first byte
abbrev behind : ℕ → List ℕ → Bool → Instructions
behind byte bytes minimal = record { left = bytes; enforce_minimal = minimal }

next_after :
    (byte : ℕ) (bytes : List ℕ) (minimal : Bool)
    → IsLater (next (behind byte (byte ∷ bytes) minimal)).1 (behind byte bytes minimal)
unfolding next
next_after byte bytes minimal =
    next_of_class-IsLater (classify legacy byte) byte (behind byte bytes minimal)

-- In front of the end there is always an item.
abbrev HasItem : Item → Type 0
HasItem r = (item : Result Instruction) × (r.0 ≡ some item)

pushed-HasItem : (r : Result (List ℕ) × Instructions) → HasItem (pushed r)
pushed-HasItem (ok bytes, it) = (ok (push_data bytes), refl)
pushed-HasItem (err e, it) = (err e, refl)

push_of_len-HasItem :
    (it : Instructions) (m : ℕ) (r : UintResult × List ℕ) → HasItem (push_of_len it m r)
unfolding push_of_len
push_of_len-HasItem it m (uint_err e, bytes) = (err early_end_of_script, refl)
push_of_len-HasItem it m (uint_ok n, bytes) =
    if_both HasItem (it.enforce_minimal && ltb n m) _ _ (err non_minimal_push, refl)
      (if_both HasItem (leb (2 ^ 32) n) _ _ (err numeric_overflow, refl)
        (pushed-HasItem (take_slice_or_kill (record it { left = bytes }) n)))

data_len-HasItem : (it : Instructions) (len m : ℕ) → HasItem (next_push_data_len it len m)
unfolding next_push_data_len
data_len-HasItem it len m = push_of_len-HasItem it m (read_uint_iter (it.left) len)

next_push-HasItem : (it : Instructions) (n : ℕ) → HasItem (next_push it n)
unfolding next_push
next_push-HasItem it n =
    if_both HasItem (it.enforce_minimal && ((n == 1) && starts_with_number (it.left))) _ _
      (err non_minimal_push, refl)
      (if_both HasItem (is_empty (it.left) && (n == 0)) _ _ (ok (push_data []), refl)
        (pushed-HasItem (take_slice_or_kill it n)))

next_of_class-HasItem :
    (c : Option Class) (byte : ℕ) (it : Instructions) → HasItem (next_of_class c byte it)
unfolding next_of_class
next_of_class-HasItem none byte it = (err panic, refl)
next_of_class-HasItem (some (push_bytes n)) byte it = next_push-HasItem it n
next_of_class-HasItem (some (ordinary code)) byte it =
    if_both HasItem (code == 0x4c) _ _ (data_len-HasItem it 1 76) (
      if_both HasItem (code == 0x4d) _ _ (data_len-HasItem it 2 0x100) (
        if_both HasItem (code == 0x4e) _ _ (data_len-HasItem it 4 0x10000)
          (ok (op_code byte), refl)))
next_of_class-HasItem (some (push_num z)) byte it = (ok (op_code byte), refl)
next_of_class-HasItem (some return_op) byte it = (ok (op_code byte), refl)
next_of_class-HasItem (some success_op) byte it = (ok (op_code byte), refl)
next_of_class-HasItem (some illegal_op) byte it = (ok (op_code byte), refl)
next_of_class-HasItem (some no_op) byte it = (ok (op_code byte), refl)

-- The iterator ends at the end of its bytes only.
pub next-none :
    (bytes : List ℕ) (minimal : Bool)
    → (next (record { left = bytes; enforce_minimal = minimal })).0 ≡ none
    → bytes ≡ []
unfolding next
next-none [] minimal h = refl
next-none (byte ∷ bytes) minimal h =
    let item = next_of_class-HasItem (classify legacy byte) byte (behind byte bytes minimal) in
    absurd (clash (item.0) (sym (item.1) ∙ h))
  where
    clash : (item : Result Instruction) → some item ≡ none → ⊥
    clash item e = cc

next_end : (minimal : Bool) → next (behind 0 [] minimal) ≡ (none, behind 0 [] minimal)
unfolding next
next_end minimal = refl

IsLater-next :
    (bytes : List ℕ) (minimal : Bool)
    → IsLater (next (behind 0 bytes minimal)).1 (behind 0 bytes minimal)
IsLater-next [] minimal = rw (next_end minimal) ((0, refl), refl)
IsLater-next (byte ∷ bytes) minimal =
    IsLater-trans (next (behind byte (byte ∷ bytes) minimal)).1 (behind byte bytes minimal)
      (behind byte (byte ∷ bytes) minimal) (next_after byte bytes minimal) ((1, refl), refl)

pub next-IsLater : (it : Instructions) → IsLater (next it).1 it
next-IsLater it = IsLater-next (it.left) (it.enforce_minimal)

IsLater-length : (a b : Instructions) → IsLater a b → length (a.left) ≤ length (b.left)
IsLater-length a b ((k, e), f) = omega (arith, ap length e, length-drop k (b.left))

shorter_next :
    (bytes : List ℕ) (minimal : Bool) (item : Result Instruction)
    → (next (behind 0 bytes minimal)).0 ≡ some item
    → length ((next (behind 0 bytes minimal)).1.left) < length bytes
shorter_next [] minimal item h = absurd (clash item (sym (ap (λ r. r.0) (next_end minimal)) ∙ h))
  where
    clash : (item : Result Instruction) → none ≡ some item → ⊥
    clash item e = cc
shorter_next (byte ∷ bytes) minimal item h = omega (
  arith,
  IsLater-length (next (behind byte (byte ∷ bytes) minimal)).1 (behind byte bytes minimal)
      (next_after byte bytes minimal),
)

-- An item takes a byte at least.
pub next-shorter :
    (it : Instructions) (item : Result Instruction)
    → (next it).0 ≡ some item
    → length ((next it).1.left) < length (it.left)
next-shorter it item h = shorter_next (it.left) (it.enforce_minimal) item h
