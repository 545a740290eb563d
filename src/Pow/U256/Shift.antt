-- ===== src/Pow/U256/Shift.antt =====
-- The shifts against multiplication and division by a power of two.
use native.Mathlib.Nat.{add-mul-div_right, div-div-eq-div-mul, div-le_self}
use rust_litecoin.Prelude.{
  ℕ, ◌+◌, ◌-◌, ◌*◌, ◌/◌, ◌%◌, ◌^◌, ◌≤◌, ◌<◌, ◌≡◌, sym, ap, ◌∙◌, true, false, ltb, leb, arith, tests,
  Bool-cases, inl, inr, ◌⊎◌, ◌==◌,
}
use rust_litecoin.Pow.Powers.{pow_sum, pow_pos, split_up, div_below}
use rust_litecoin.Pow.U256.{U256, wrapping_shl, wrapping_shr}
use rust_litecoin.Pow.U256.Value.{value, IsValid}

-- The two halves of the shift right by `p`, where `q` shifts the bits between the halves.
shr_halves :
    (high low p q : ℕ)
    → p * q ≡ 2 ^ 128
    → 0 < p
    → 0 < q
    → (high * 2 ^ 128 + low) / p ≡ high / p * 2 ^ 128 + (low / p + high * q % 2 ^ 128)
shr_halves high low p q e h k =
    let s = split_up high q p (2 ^ 128) (omega (arith, e)) h in
    let shifted : high * q % 2 ^ 128 ≡ high % p * q = omega (arith, s.0, s.1) in
    let regroup : high * 2 ^ 128 + low ≡ low + (high * q) * p =
      ap (λ n. high * n + low) (sym e) ∙ omega arith in
    ap (λ n. n / p) regroup ∙ add-mul-div_right low (high * q) h ∙ omega (arith, s.0, shifted)

-- The two halves of the shift left by `p`.
shl_halves :
    (high low p q : ℕ)
    → p * q ≡ 2 ^ 128
    → 0 < p
    → 0 < q
    → low < 2 ^ 128
    → ((high * 2 ^ 128 + low) * p % 2 ^ 256
        ≡ (high * p % 2 ^ 128 + low / q) * 2 ^ 128 + low * p % 2 ^ 128)
      × (high * p % 2 ^ 128 + low / q < 2 ^ 128)
shl_halves high low p q e g h l =
    let s = split_up high p q (2 ^ 128) e h in
    let t = split_up low p q (2 ^ 128) e h in
    let carry = div_below low p q (2 ^ 128) e h l in
    (omega (arith, s.0, s.1, t.0, t.1, carry), omega (arith, s.0, s.1, carry))

-- Both factors of 2 ^ 128.
factors : (b : ℕ) → b ≤ 128 → 2 ^ b * 2 ^ (128 - b) ≡ 2 ^ 128
factors b h =
    let e : b + (128 - b) ≡ 128 = omega arith in sym (pow_sum b (128 - b)) ∙ ap (λ n. 2 ^ n) e

-- The three forms of a shift.
abbrev Amount : ℕ → Type 0
Amount n = (n ≡ 0) ⊎ ((0 < n) × (n < 128)) ⊎ ((b : ℕ) × (n ≡ 128 + b) × (b < 128))

amounts : (n : ℕ) → n < 256 → Amount n
amounts n h = elim (Bool-cases (ltb n 128)) [
  | inl narrow ↦ elim (Bool-cases (n == 0)) [
    | inl none_at_all ↦ inl (ground arith)
    | inr some_bits ↦ inr (inl (ground arith, ground arith))
  ]
  | inr wide ↦ inr (inr (n - 128, omega tests, omega tests))
]

shr_wide :
    (u : U256) (b : ℕ)
    → b < 128
    → wrapping_shr u (128 + b) ≡ record { high = 0; low = u.high / 2 ^ b }
unfolding wrapping_shr
shr_wide u b h =
    let e : (128 + b) % 256 ≡ 128 + b = omega arith in
    let f : (128 + b) % 128 ≡ b = omega arith in
    let g : leb 128 (128 + b) ≡ true = ground arith in rw (e, g, f)

shr_narrow :
    (u : U256) (b : ℕ)
    → 0 < b
    → b < 128
    → wrapping_shr u b
      ≡ record { high = u.high / 2 ^ b; low = u.low / 2 ^ b + u.high * 2 ^ (128 - b) % 2 ^ 128 }
unfolding wrapping_shr
shr_narrow u b h k =
    let e : b % 256 ≡ b = omega arith in
    let f : b % 128 ≡ b = omega arith in
    let g : leb 128 b ≡ false = ground arith in
    let p : ltb 0 b ≡ true = ground arith in rw (e, f, g, p)

shr_by_word :
    (u : U256) (b : ℕ)
    → IsValid u
    → IsValid (record { high = 0; low = u.high / 2 ^ b })
      × (value (record { high = 0; low = u.high / 2 ^ b }) ≡ value u / 2 ^ (128 + b))
shr_by_word u b v =
    let h = v.high_fits in
    let l = v.low_fits in
    let below = div-le_self u.high (2 ^ b) in
    let top : value u / 2 ^ 128 ≡ u.high = omega arith in
    (
      record { high_fits = omega arith; low_fits = omega (arith, below) },
      rw (pow_sum 128 b, ← div-div-eq-div-mul (value u) (2 ^ 128) (2 ^ b), top) (omega arith),
    )

shr_by_some :
    (u : U256) (b : ℕ)
    → IsValid u
    → b < 128
    → IsValid
        (record { high = u.high / 2 ^ b; low = u.low / 2 ^ b + u.high * 2 ^ (128 - b) % 2 ^ 128 })
      × (value (record {
        high = u.high / 2 ^ b;
        low = u.low / 2 ^ b + u.high * 2 ^ (128 - b) % 2 ^ 128;
      })
          ≡ value u / 2 ^ b)
shr_by_some u b v h =
    let e = factors b (omega arith) in
    let p = pow_pos b in
    let q = pow_pos (128 - b) in
    let below = div-le_self u.high (2 ^ b) in
    let c = div_below u.low (2 ^ (128 - b)) (2 ^ b) (2 ^ 128) (omega (arith, e)) p v.low_fits in
    let s = split_up u.high (2 ^ (128 - b)) (2 ^ b) (2 ^ 128) (omega (arith, e)) p in
    (
      record {
        high_fits = omega (arith, below, v.high_fits);
        low_fits = omega (arith, c, s.0, s.1);
      },
      sym (shr_halves u.high u.low (2 ^ b) (2 ^ (128 - b)) e p q),
    )

shr_by_none :
    (u : U256)
    → IsValid u
    → IsValid (wrapping_shr u 0) × (value (wrapping_shr u 0) ≡ value u / 2 ^ 0)
unfolding wrapping_shr
shr_by_none u v = (
  record { high_fits = omega (arith, v.high_fits); low_fits = omega (arith, v.low_fits) },
  omega arith,
)

-- Shifting right divides by the power of two.
pub wrapping_shr_lem :
    (u : U256) (n : ℕ)
    → IsValid u
    → n < 256
    → IsValid (wrapping_shr u n) × (value (wrapping_shr u n) ≡ value u / 2 ^ n)
wrapping_shr_lem u n v h = elim (amounts n h) [
  | inl none_at_all ↦ rw none_at_all (shr_by_none u v)
  | inr (inl (some_bits, narrow)) ↦ rw (shr_narrow u n some_bits narrow) (shr_by_some u n v narrow)
  | inr (inr (b, e, narrow)) ↦ rw (e, shr_wide u b narrow) (shr_by_word u b v)
]

shl_wide :
    (u : U256) (b : ℕ)
    → b < 128
    → wrapping_shl u (128 + b) ≡ record { high = u.low * 2 ^ b % 2 ^ 128; low = 0 }
unfolding wrapping_shl
shl_wide u b h =
    let e : (128 + b) % 256 ≡ 128 + b = omega arith in
    let f : (128 + b) % 128 ≡ b = omega arith in
    let g : leb 128 (128 + b) ≡ true = ground arith in rw (e, g, f)

shl_narrow :
    (u : U256) (b : ℕ)
    → 0 < b
    → b < 128
    → wrapping_shl u b ≡ record {
      high = u.high * 2 ^ b % 2 ^ 128 + u.low / 2 ^ (128 - b);
      low = u.low * 2 ^ b % 2 ^ 128;
    }
unfolding wrapping_shl
shl_narrow u b h k =
    let e : b % 256 ≡ b = omega arith in
    let f : b % 128 ≡ b = omega arith in
    let g : leb 128 b ≡ false = ground arith in
    let p : ltb 0 b ≡ true = ground arith in rw (e, f, g, p)

shl_by_word :
    (u : U256) (b : ℕ)
    → IsValid u
    → IsValid (record { high = u.low * 2 ^ b % 2 ^ 128; low = 0 })
      × (value (record { high = u.low * 2 ^ b % 2 ^ 128; low = 0 })
          ≡ value u * 2 ^ (128 + b) % 2 ^ 256)
shl_by_word u b v =
    (record { high_fits = omega arith; low_fits = omega arith }, rw (pow_sum 128 b) (omega arith))

shl_by_some :
    (u : U256) (b : ℕ)
    → IsValid u
    → b < 128
    → IsValid (record {
      high = u.high * 2 ^ b % 2 ^ 128 + u.low / 2 ^ (128 - b);
      low = u.low * 2 ^ b % 2 ^ 128;
    })
      × (value (record {
        high = u.high * 2 ^ b % 2 ^ 128 + u.low / 2 ^ (128 - b);
        low = u.low * 2 ^ b % 2 ^ 128;
      })
          ≡ value u * 2 ^ b % 2 ^ 256)
shl_by_some u b v h =
    let e = factors b (omega arith) in
    let halves =
      shl_halves u.high u.low (2 ^ b) (2 ^ (128 - b)) e (pow_pos b) (pow_pos (128 - b))
        v.low_fits in
    (record { high_fits = halves.1; low_fits = omega arith }, sym halves.0)

shl_by_none :
    (u : U256)
    → IsValid u
    → IsValid (wrapping_shl u 0) × (value (wrapping_shl u 0) ≡ value u * 2 ^ 0 % 2 ^ 256)
unfolding wrapping_shl
shl_by_none u v =
    let h = v.high_fits in
    let l = v.low_fits in (record { high_fits = omega arith; low_fits = omega arith }, omega arith)

-- Shifting left multiplies by the power of two and wraps around at 2 ^ 256.
pub wrapping_shl_lem :
    (u : U256) (n : ℕ)
    → IsValid u
    → n < 256
    → IsValid (wrapping_shl u n) × (value (wrapping_shl u n) ≡ value u * 2 ^ n % 2 ^ 256)
wrapping_shl_lem u n v h = elim (amounts n h) [
  | inl none_at_all ↦ rw none_at_all (shl_by_none u v)
  | inr (inl (some_bits, narrow)) ↦ rw (shl_narrow u n some_bits narrow) (shl_by_some u n v narrow)
  | inr (inr (b, e, narrow)) ↦ rw (e, shl_wide u b narrow) (shl_by_word u b v)
]
