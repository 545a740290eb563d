-- ===== src/Script/Opcode/Cases.antt =====
-- What `classify` of litecoin/src/blockdata/opcodes.rs returns, by going through the bytes.
use rust_litecoin.Prelude.{
  ℕ, zero, suc, ◌<◌, ◌≤◌, ◌≡◌, refl, Bool, true, false, not, ◌&&◌, Option, none, some, inl, inr,
  leb, ◌==◌, arith, Bool-cases, ==_iff, ◌||◌, gt→leb, ap,
}
use rust_litecoin.Script.Opcode.{
  ClassifyContext, tap_script, legacy, Class, push_num, push_bytes, return_op, success_op,
  illegal_op, no_op, ordinary, classify, with_opcode, is_success,
}

all_below : ℕ → (ℕ → Bool) → Bool
all_below zero f = true
all_below (suc n) f = f n && all_below n f

pub and_left : (a b : Bool) → (a && b) ≡ true → a ≡ true
and_left true b h = refl
and_left false b h = h

pub and_right : (a b : Bool) → (a && b) ≡ true → b ≡ true
and_right true b h = h
and_right false b h = absurd (cc)

all_below-at : (n : ℕ) (f : ℕ → Bool) → all_below n f ≡ true → (b : ℕ) → b < n → f b ≡ true
unfolding all_below
all_below-at zero f h b lt = absurd (omega arith)
all_below-at (suc n) f h b lt = elim (Bool-cases (b == n)) [
  | inl same ↦ let e : b ≡ n = (==_iff b n).0 same in rw e (and_left (f n) (all_below n f) h)
  | inr other ↦ all_below-at n f (and_right (f n) (all_below n f) h) b (apart b n lt other)
]
  where
    apart : (b n : ℕ) → b < suc n → (b == n) ≡ false → b < n
    apart b n lt other = ground arith

abbrev is_some : Option Class → Bool
is_some none = false
is_some (some c) = true

abbrev is_push : ℕ → Option Class → Bool
is_push n (some (push_bytes m)) = m == n
is_push n _ = false

every_byte : all_below 256 (λ b. is_some (classify legacy b)) ≡ true
unfolding all_below classify with_opcode is_success
every_byte = refl

every_push : all_below 76 (λ b. is_push b (classify legacy b)) ≡ true
unfolding all_below classify with_opcode is_success
every_push = refl

-- A class that is no push and does not tell the length of one
abbrev pub is_plain : Option Class → Bool
is_plain none = false
is_plain (some (push_bytes n)) = false
is_plain (some (ordinary op)) = not (op == 0x4c) && (not (op == 0x4d) && not (op == 0x4e))
is_plain (some _) = true

every_plain : all_below 256 (λ b. leb b 78 || is_plain (classify legacy b)) ≡ true
unfolding all_below classify with_opcode is_success
every_plain = refl

is_push→ : (n : ℕ) (c : Option Class) → is_push n c ≡ true → c ≡ some (push_bytes n)
is_push→ n none h = absurd (cc)
is_push→ n (some (push_bytes m)) h = ap (λ k. some (push_bytes k)) ((==_iff m n).0 h)
is_push→ n (some (push_num z)) h = absurd (cc)
is_push→ n (some return_op) h = absurd (cc)
is_push→ n (some success_op) h = absurd (cc)
is_push→ n (some illegal_op) h = absurd (cc)
is_push→ n (some no_op) h = absurd (cc)
is_push→ n (some (ordinary op)) h = absurd (cc)

pub classify_push : (b : ℕ) → b ≤ 75 → classify legacy b ≡ some (push_bytes b)
classify_push b h =
    is_push→ b (classify legacy b)
      (all_below-at 76 (λ b. is_push b (classify legacy b)) every_push b (omega arith))

or_right : (a b : Bool) → a ≡ false → (a || b) ≡ true → b ≡ true
or_right true b e h = absurd (cc)
or_right false b e h = h

pub classify_plain : (b : ℕ) → 78 < b → b < 256 → is_plain (classify legacy b) ≡ true
classify_plain b low high =
    or_right (leb b 78) (is_plain (classify legacy b)) (gt→leb b 78 low)
      (all_below-at 256 (λ b. leb b 78 || is_plain (classify legacy b)) every_plain b high)

pub classify_data1 : classify legacy 76 ≡ some (ordinary 76)
unfolding classify with_opcode is_success
classify_data1 = refl

pub classify_data2 : classify legacy 77 ≡ some (ordinary 77)
unfolding classify with_opcode is_success
classify_data2 = refl

pub classify_data4 : classify legacy 78 ≡ some (ordinary 78)
unfolding classify with_opcode is_success
classify_data4 = refl

abbrev has_class : ClassifyContext → ℕ → Bool
has_class ctx b = is_some (classify ctx b)

every_tap : all_below 256 (has_class tap_script) ≡ true
unfolding all_below classify with_opcode is_success
every_tap = refl

some_class : (c : Option Class) → is_some c ≡ true → (class : Class) × (c ≡ some class)
some_class none h = absurd (cc)
some_class (some c) h = (c, refl)

-- Every byte has a class in both contexts: `Ordinary::with` never meets an opcode that it does not
-- know.
pub classify-total :
    (ctx : ClassifyContext) (b : ℕ) → b < 256 → (class : Class) × (classify ctx b ≡ some class)
classify-total tap_script b h =
    some_class (classify tap_script b) (all_below-at 256 (has_class tap_script) every_tap b h)
classify-total legacy b h =
    some_class (classify legacy b) (all_below-at 256 (has_class legacy) every_byte b h)
