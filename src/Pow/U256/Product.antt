-- ===== src/Pow/U256/Product.antt =====
-- The product with a u64, word by word.
use native.Mathlib.Nat.{mul-le-mul}
use rust_litecoin.Prelude.{
  ℕ, ◌+◌, ◌-◌, ◌*◌, ◌/◌, ◌%◌, ◌^◌, ◌≤◌, ◌<◌, ◌≡◌, ◌∙◌, ap, not, leb, ◌==◌, arith,
}
use rust_litecoin.Pow.U256.{U256, mul_u64, mul_word}
use rust_litecoin.Pow.U256.Value.{value, IsValid}

small : (n : ℕ) → n < 2 ^ 64 → n ≤ 2 ^ 64 - 1
small n h = omega arith

-- The product of two u64 values and a carry do not overflow a u128.
product_fits :
    (rhs word carry : ℕ)
    → rhs < 2 ^ 64
    → word < 2 ^ 64
    → carry < 2 ^ 64
    → carry + rhs * word < 2 ^ 128
product_fits rhs word carry r w c =
    let whole = mul-le-mul (small rhs r) (small word w) in omega (arith, whole)

-- A round keeps the low word of the exact sum and carries its high word.
mul_word_lem :
    (rhs word carry : ℕ)
    → rhs < 2 ^ 64
    → word < 2 ^ 64
    → carry < 2 ^ 64
    → (mul_word rhs word carry).0 < 2 ^ 64
      × (mul_word rhs word carry).1 < 2 ^ 64
      × ((mul_word rhs word carry).0 + (mul_word rhs word carry).1 * 2 ^ 64 ≡ carry + rhs * word)
unfolding mul_word
mul_word_lem rhs word carry r w c =
    let fits = product_fits rhs word carry r w c in (omega arith, omega arith, omega arith)

-- The number in four words of 64 bits.
value_words :
    (u : U256)
    → value u
      ≡ u.low % 2 ^ 64
        + u.low / 2 ^ 64 * 2 ^ 64
        + u.high % 2 ^ 64 * 2 ^ 128
        + u.high / 2 ^ 64 * 2 ^ 192
value_words u = omega arith

product_words :
    (u : U256) (rhs : ℕ)
    → value u * rhs
      ≡ rhs * (u.low % 2 ^ 64)
        + rhs * (u.low / 2 ^ 64) * 2 ^ 64
        + rhs * (u.high % 2 ^ 64) * 2 ^ 128
        + rhs * (u.high / 2 ^ 64) * 2 ^ 192
product_words u rhs = ap (λ n. n * rhs) (value_words u) ∙ omega arith

-- Four words and a last carry that add up to a number.
assemble :
    (k0 k1 k2 k3 c total : ℕ)
    → k0 < 2 ^ 64
    → k1 < 2 ^ 64
    → k2 < 2 ^ 64
    → k3 < 2 ^ 64
    → k0 + k1 * 2 ^ 64 + k2 * 2 ^ 128 + k3 * 2 ^ 192 + c * 2 ^ 256 ≡ total
    → ((k2 + k3 * 2 ^ 64) * 2 ^ 128 + (k0 + k1 * 2 ^ 64) ≡ total % 2 ^ 256)
      × (not (c == 0) ≡ leb (2 ^ 256) total)
assemble k0 k1 k2 k3 c total h0 h1 h2 h3 e = (omega arith, ground arith)

-- The product wraps around at 2 ^ 256, and the flag says whether it did.
pub mul_u64_lem :
    (u : U256) (rhs : ℕ)
    → IsValid u
    → rhs < 2 ^ 64
    → IsValid (mul_u64 u rhs).0
      × (value (mul_u64 u rhs).0 ≡ value u * rhs % 2 ^ 256)
      × ((mul_u64 u rhs).1 ≡ leb (2 ^ 256) (value u * rhs))
unfolding mul_u64
mul_u64_lem u rhs v r =
    let h = v.high_fits in
    let l = v.low_fits in
    let w0 = mul_word_lem rhs (u.low % 2 ^ 64) 0 r (omega arith) (omega arith) in
    let w1 = mul_word_lem rhs (u.low / 2 ^ 64) _ r (omega arith) w0.1 in
    let w2 = mul_word_lem rhs (u.high % 2 ^ 64) _ r (omega arith) w1.1 in
    let w3 = mul_word_lem rhs (u.high / 2 ^ 64) _ r (omega arith) w2.1 in
    let whole =
      assemble _ _ _ _ _ (value u * rhs) w0.0 w1.0 w2.0 w3.0
        (omega (arith, product_words u rhs, w0.2, w1.2, w2.2, w3.2)) in
    (
      record { high_fits = omega (arith, w2.0, w3.0); low_fits = omega (arith, w0.0, w1.0) },
      whole.0,
      whole.1,
    )
