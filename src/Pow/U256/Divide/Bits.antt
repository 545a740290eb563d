-- ===== src/Pow/U256/Divide/Bits.antt =====
-- The number of bits: the least power of two above the number.
use native.Mathlib.Nat.{two-pow-succ}
use rust_litecoin.Prelude.{
  ℕ, zero, suc, ◌+◌, ◌-◌, ◌*◌, ◌/◌, ◌^◌, ◌≤◌, ◌<◌, ◌≡◌, refl, ap, ltb, ◌==◌, ◌⊎◌, inl, inr, arith,
  tests, Bool-cases,
}
use rust_litecoin.Pow.Powers.{pow_sum}
use rust_litecoin.Pow.U256.{U256}
use rust_litecoin.Pow.U256.Value.{value, IsValid}
use rust_litecoin.Pow.U256.Divide.{bit_length, leading_zeros, bits}

-- `k` is the number of bits of `n`.
abbrev pub HasBits : ℕ → ℕ → Type 0
HasBits n k = ((n ≡ 0) × (k ≡ 0)) ⊎ ((0 < n) × (n < 2 ^ k) × (2 ^ k ≤ 2 * n) × (0 < k))

-- One more bit than the half.
grow : (n k : ℕ) → 0 < n → HasBits (n / 2) k → HasBits n (suc k)
grow n k some_bit (inl (e, f)) =
    let p : 2 ^ k ≡ 1 = ap (λ j. 2 ^ j) f in
    inr (some_bit, omega (arith, two-pow-succ k, p), omega (arith, two-pow-succ k, p), omega arith)
grow n k some_bit (inr (a, b, c, d)) =
    inr (some_bit, omega (arith, two-pow-succ k), omega (arith, two-pow-succ k), omega arith)

bit_length-HasBits :
    (fuel n : ℕ) → n < 2 ^ fuel → (bit_length fuel n ≤ fuel) × HasBits n (bit_length fuel n)
unfolding bit_length
bit_length-HasBits zero n h = (omega arith, inl (omega arith, refl))
bit_length-HasBits (suc fuel) n h =
    let ih = bit_length-HasBits fuel (n / 2) (omega (arith, two-pow-succ fuel)) in
    elim (Bool-cases (n == 0)) [
      | inl none_set ↦ rw none_set (omega arith, inl (ground arith, refl))
      | inr some_set ↦ rw some_set (omega (arith, ih.0), grow n _ (ground arith) ih.1)
    ]

-- The bits of a number whose high half has `k` of them.
high_bits :
    (high low k : ℕ)
    → 0 < high
    → low < 2 ^ 128
    → HasBits high k
    → HasBits (high * 2 ^ 128 + low) (128 + k)
high_bits high low k some_bit l (inl (e, f)) = absurd (omega arith)
high_bits high low k some_bit l (inr (a, b, c, d)) =
    let p = pow_sum 128 k in inr (omega arith, omega (arith, p), omega (arith, p), omega arith)

-- `bits` is the number of bits of the value, and at most 256.
pub bits-HasBits : (u : U256) → IsValid u → (bits u ≤ 256) × HasBits (value u) (bits u)
unfolding bits leading_zeros
bits-HasBits u v =
    let low = bit_length-HasBits 128 u.low v.low_fits in
    let high = bit_length-HasBits 128 u.high v.high_fits in
    elim (Bool-cases (ltb 0 u.high)) [
      | inl large ↦
          let e : 256 - (128 - bit_length 128 u.high) ≡ 128 + bit_length 128 u.high =
            omega (arith, high.0) in
          rw (large, e)
            (omega (arith, high.0), high_bits u.high u.low _ (omega tests) v.low_fits high.1)
      | inr small ↦
          let e : 128 - (128 - bit_length 128 u.low) ≡ bit_length 128 u.low =
            omega (arith, low.0) in
          let f : value u ≡ u.low = omega tests in rw (small, e, f) (omega (arith, low.0), low.1)
    ]
