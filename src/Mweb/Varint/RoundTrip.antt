-- ===== src/Mweb/Varint/RoundTrip.antt =====
-- What the writers of `Varint` write, the readers read back; the array of ten is large enough.
use rust_litecoin.Prelude.{
  ℕ, zero, suc, ◌+◌, ◌-◌, ◌/◌, ◌%◌, ◌^◌, ◌≤◌, ◌<◌, ◌≡◌, refl, List, [], ◌∷◌, ◌++◌, ◌∙◌, leb, ◌==◌,
  if◌then◌else◌, arith, tests, Bool-cases, inl, inr, le→leb, gt→leb,
}
use rust_litecoin.Prelude.Int.{pos, negsuc}
use rust_litecoin.Wire.Codec.{ok}
use rust_litecoin.Wire.RoundTrip.{RoundTrip, RoundTrip-then}
use rust_litecoin.Mweb.Varint.{
  i64_max, u64_max, read_loop, read_compact_varint, read_amount, write_loop, write_compact_varint,
  write_amount,
}
use native.Mathlib.Nat.{pow-suc}

-- Reading a group that more groups follow, and the last group.
read_inner :
    (limit n : ℕ) (s : List ℕ)
    → n < limit
    → read_loop limit (n / 128) ((n % 128 + 128) ∷ s) ≡ read_loop limit (n + 1) s
unfolding read_loop
read_inner limit n s h = ground arith

read_last :
    (limit n : ℕ) (s : List ℕ)
    → n ≤ limit
    → read_loop limit (n / 128) ((n % 128 + 0) ∷ s) ≡ ok (n, s)
unfolding read_loop
read_last limit n s h = ground arith

write_small :
    (slots len n g : ℕ) (tmp : List ℕ)
    → n ≤ 127
    → n % 128 + (if len == 0 then 0 else 128) ≡ g
    → write_loop (suc slots) len n tmp ≡ ok (g ∷ tmp)
unfolding write_loop
write_small slots len n g tmp h e = rw (le→leb n 127 h, e)

write_big :
    (slots len n g : ℕ) (tmp : List ℕ)
    → 127 < n
    → n % 128 + (if len == 0 then 0 else 128) ≡ g
    → write_loop (suc slots) len n tmp ≡ write_loop slots (len + 1) (n / 128 - 1) (g ∷ tmp)
unfolding write_loop
write_big slots len n g tmp h e = rw (gt→leb n 127 h, e)

inner_mark : (len n : ℕ) → 0 < len → n % 128 + (if len == 0 then 0 else 128) ≡ n % 128 + 128
inner_mark len n h = ground arith

zero_groups : (n : ℕ) → n ≤ 127 → n / 128 ≡ 0
zero_groups n h = omega arith

-- The groups of `n` are put in front of `tmp`, and the reader gets from 0 to `n + 1` through them.
abbrev Passes : ℕ → ℕ → ℕ → ℕ → List ℕ → Type 0
Passes slots limit len n tmp =
    (out : List ℕ) × (write_loop slots len n tmp ≡ ok out)
    × ((rest : List ℕ) → read_loop limit 0 (out ++ rest) ≡ read_loop limit (n + 1) (tmp ++ rest))

one_group :
    (slots limit len n : ℕ) (tmp : List ℕ)
    → 0 < len
    → n < limit
    → n ≤ 127
    → Passes (suc slots) limit len n tmp
one_group slots limit len n tmp h1 h2 small = (
  (n % 128 + 128) ∷ tmp,
  write_small slots len n _ tmp small (inner_mark len n h1),
  λ rest. rw (zero_groups n small) at (read_inner limit n (tmp ++ rest) h2),
)

-- The groups above the lowest one leave the reader at `n / 128`.
more_groups :
    (slots limit len n : ℕ) (tmp : List ℕ)
    → 0 < len
    → n < limit
    → 127 < n
    → Passes slots limit (len + 1) (n / 128 - 1) ((n % 128 + 128) ∷ tmp)
    → Passes (suc slots) limit len n tmp
more_groups slots limit len n tmp h1 h2 big (out, e, h) =
    let up : n / 128 - 1 + 1 ≡ n / 128 = omega arith in
    (
      out,
      write_big slots len n _ tmp big (inner_mark len n h1) ∙ e,
      λ rest. h rest ∙ rw up (read_inner limit n (tmp ++ rest) h2),
    )

-- With enough slots for its groups, every number below the limit passes.
write_inner :
    (slots limit len n : ℕ) (tmp : List ℕ)
    → 0 < len
    → n < limit
    → n < 128 ^ suc slots
    → Passes (suc slots) limit len n tmp
write_inner zero limit len n tmp h1 h2 fits = one_group zero limit len n tmp h1 h2 (omega arith)
write_inner (suc slots) limit len n tmp h1 h2 fits = elim (Bool-cases (leb n 127)) [
  | inl small ↦ one_group (suc slots) limit len n tmp h1 h2 (omega tests)
  | inr big ↦ more_groups (suc slots) limit len n tmp h1 h2 (omega tests) (
      write_inner slots limit (len + 1) (n / 128 - 1) ((n % 128 + 128) ∷ tmp) (omega arith)
        (omega arith) (grind (tests, pow-suc)))
]

-- The whole number, from its last group on.
write_all :
    (limit n : ℕ)
    → n ≤ limit
    → n < 128 ^ 10
    → (out : List ℕ) × (write_loop 10 0 n [] ≡ ok out)
      × ((rest : List ℕ) → read_loop limit 0 (out ++ rest) ≡ ok (n, rest))
write_all limit n h fits = elim (Bool-cases (leb n 127)) [
  | inl small ↦ (
    (n % 128 + 0) ∷ [],
    write_small 9 0 n _ [] (omega tests) refl,
    λ rest. rw (zero_groups n (omega tests)) at (read_last limit n rest h),
  )
  | inr big ↦
      let up : n / 128 - 1 + 1 ≡ n / 128 = omega tests in
      let (out, e, r) =
        write_inner 8 limit 1 (n / 128 - 1) ((n % 128 + 0) ∷ []) (omega arith) (omega tests)
          (omega tests) in
      (
        out,
        write_big 9 0 n _ [] (omega tests) refl ∙ e,
        λ rest. r rest ∙ rw up (read_last limit n rest h),
      )
]

-- Every u64 is written without running over the array of ten, and reads back.
pub RoundTrip-compact_varint :
    (v : ℕ) → v < 2 ^ 64 → RoundTrip (write_compact_varint v) read_compact_varint v
unfolding write_compact_varint read_compact_varint
RoundTrip-compact_varint v h =
    let (out, e, r) = write_all u64_max v (omega arith) (omega arith) in (out, rw e, r)

-- Every i64 that is not negative is written and reads back.
pub RoundTrip-amount : (n : ℕ) → n < 2 ^ 63 → RoundTrip (write_amount (pos n)) read_amount (pos n)
unfolding write_amount read_amount
RoundTrip-amount n h =
    let (out, e, r) = write_all i64_max n (omega arith) (omega arith) in
    RoundTrip-then _ (read_loop i64_max 0) _ n (pos n) (out, rw e, r) (λ s. refl)

one_byte : (ch : ℕ) (rest : List ℕ) → ch < 128 → read_loop i64_max 0 (ch ∷ rest) ≡ ok (ch, rest)
unfolding read_loop
one_byte ch rest h = ground arith

-- A negative amount is written as one byte that reads back as another, nonnegative amount.
pub write_amount-negative :
    (m : ℕ) → m < 2 ^ 63 → RoundTrip (write_amount (negsuc m)) read_amount (pos (127 - m % 128))
unfolding write_amount read_amount
write_amount-negative m h =
    RoundTrip-then _ (read_loop i64_max 0) _ (127 - m % 128) (pos (127 - m % 128))
      ((127 - m % 128) ∷ [], refl, λ rest. one_byte (127 - m % 128) rest (omega arith)) (λ s. refl)
