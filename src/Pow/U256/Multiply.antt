-- ===== src/Pow/U256/Multiply.antt =====
-- `overflowing_mul` of `U256`: the first three words of the second factor are multiplied and
-- shifted into place, the last one is multiplied and added where it stands.
use rust_litecoin.Prelude.{ℕ, ◌+◌, ◌*◌, ◌/◌, ◌%◌, ◌^◌, ◌<◌, ◌≡◌, sym, ap, ◌∙◌, false, arith}
use rust_litecoin.Pow.U256.{
  U256, zero, low_u64, low_u128, mul_u64, wrapping_shr, add_word, overflowing_mul,
}
use rust_litecoin.Pow.U256.Value.{value, IsValid}
use rust_litecoin.Pow.U256.Arithmetic.{overflowing_add_lem, wrapping_add_lem, value-lt}
use rust_litecoin.Pow.U256.Product.{mul_u64_lem}
use rust_litecoin.Pow.U256.Shift.{wrapping_shl_lem, wrapping_shr_lem}

-- The word of `b` from bit `shift` on.
word_at :
    (b : U256) (shift : ℕ)
    → IsValid b
    → shift < 256
    → low_u64 (wrapping_shr b shift) ≡ value b / 2 ^ shift % 2 ^ 64
unfolding low_u64 low_u128
word_at b shift w h = let s = wrapping_shr_lem b shift w h in omega (arith, s.1)

add_word_lem :
    (a b ret : U256) (shift : ℕ)
    → IsValid a
    → IsValid b
    → IsValid ret
    → shift < 256
    → IsValid (add_word a b shift ret)
      × (value (add_word a b shift ret)
          ≡ (value ret + value a * (value b / 2 ^ shift % 2 ^ 64) % 2 ^ 256 * 2 ^ shift % 2 ^ 256)
            % 2 ^ 256)
unfolding add_word
add_word_lem a b ret shift v w r h =
    let m =
      mul_u64_lem a (low_u64 (wrapping_shr b shift)) v (rw (word_at b shift w h) (omega arith)) in
    let s = wrapping_shl_lem _ shift m.0 h in
    let t = wrapping_add_lem ret _ r s.0 in (t.0, t.1 ∙ rw (s.1, m.1, word_at b shift w h))

-- The rounds modulo 2 ^ 256.
rounds :
    (p0 p1 p2 p3 v0 v1 v2 v3 : ℕ)
    → v0 ≡ (0 + p0 % 2 ^ 256 * 2 ^ 0 % 2 ^ 256) % 2 ^ 256
    → v1 ≡ (v0 + p1 % 2 ^ 256 * 2 ^ 64 % 2 ^ 256) % 2 ^ 256
    → v2 ≡ (v1 + p2 % 2 ^ 256 * 2 ^ 128 % 2 ^ 256) % 2 ^ 256
    → v3 ≡ (v2 + p3 % 2 ^ 256) % 2 ^ 256
    → v3 ≡ (p0 + p1 * 2 ^ 64 + p2 * 2 ^ 128 + p3) % 2 ^ 256
rounds p0 p1 p2 p3 v0 v1 v2 v3 e0 e1 e2 e3 =
    let f1 : v1 ≡ (p0 + p1 * 2 ^ 64) % 2 ^ 256 = omega arith in
    let f2 : v2 ≡ (p0 + p1 * 2 ^ 64 + p2 * 2 ^ 128) % 2 ^ 256 = omega (arith, f1, e2) in
    omega (arith, f2, e3)

-- The words below bit 192, and the one above it without its weight.
words :
    (a b : ℕ)
    → b < 2 ^ 256
    → a * (b / 2 ^ 0 % 2 ^ 64)
        + a * (b / 2 ^ 64 % 2 ^ 64) * 2 ^ 64
        + a * (b / 2 ^ 128 % 2 ^ 64) * 2 ^ 128
        + a * (b / 2 ^ 192 % 2 ^ 64)
      ≡ a * (b % 2 ^ 192 + b / 2 ^ 192)
words a b h =
    let e : b % 2 ^ 192 + b / 2 ^ 192
        ≡ b / 2 ^ 0 % 2 ^ 64
          + b / 2 ^ 64 % 2 ^ 64 * 2 ^ 64
          + b / 2 ^ 128 % 2 ^ 64 * 2 ^ 128
          + b / 2 ^ 192 % 2 ^ 64 =
      omega arith in
    sym (ap (λ n. a * n) e ∙ omega arith)

-- The product modulo 2 ^ 256, of the first factor and the second one with its word above bit 192
-- moved down to bit 0; so it is the product of the two numbers where the second is below 2 ^ 192.
pub overflowing_mul_lem :
    (a b : U256)
    → IsValid a
    → IsValid b
    → IsValid (overflowing_mul a b).0
      × (value (overflowing_mul a b).0
          ≡ value a * (value b % 2 ^ 192 + value b / 2 ^ 192) % 2 ^ 256)
unfolding overflowing_mul
overflowing_mul_lem a b v w =
    let z : IsValid zero = record { high_fits = omega arith; low_fits = omega arith } in
    let r0 = add_word_lem a b zero 0 v w z (omega arith) in
    let r1 = add_word_lem a b _ 64 v w r0.0 (omega arith) in
    let r2 = add_word_lem a b _ 128 v w r1.0 (omega arith) in
    let top = word_at b 192 w (omega arith) in
    let m = mul_u64_lem a (low_u64 (wrapping_shr b 192)) v (rw top (omega arith)) in
    let s = overflowing_add_lem _ _ r2.0 m.0 in
    let bh = w.high_fits in
    let bl = w.low_fits in
    (
      s.0,
      rounds _ _ _ (value a * (value b / 2 ^ 192 % 2 ^ 64)) _ _ _ _ r0.1 r1.1 r2.1
            (s.1 ∙ rw (m.1, top))
          ∙ ap (λ n. n % 2 ^ 256) (words (value a) (value b) (omega arith)),
    )

-- Whatever the first factor is, a product with a number below 2 ^ 192 is never reported to
-- overflow.
pub overflowing_mul-unreported :
    (a b : U256) → IsValid a → IsValid b → value b < 2 ^ 192 → (overflowing_mul a b).1 ≡ false
unfolding overflowing_mul
overflowing_mul-unreported a b v w h =
    let z : IsValid zero = record { high_fits = omega arith; low_fits = omega arith } in
    let r0 = add_word_lem a b zero 0 v w z (omega arith) in
    let r1 = add_word_lem a b _ 64 v w r0.0 (omega arith) in
    let r2 = add_word_lem a b _ 128 v w r1.0 (omega arith) in
    let top = word_at b 192 w (omega arith) in
    let none_left : low_u64 (wrapping_shr b 192) ≡ 0 = top ∙ omega arith in
    let nothing : value a * low_u64 (wrapping_shr b 192) ≡ 0 =
      ap (λ n. value a * n) none_left ∙ omega arith in
    let m = mul_u64_lem a (low_u64 (wrapping_shr b 192)) v (rw none_left (omega arith)) in
    let s = overflowing_add_lem _ _ r2.0 m.0 in
    let added : value (mul_u64 a (low_u64 (wrapping_shr b 192))).0 ≡ 0 =
      m.1 ∙ rw nothing (omega arith) in
    let fits = value-lt _ r2.0 in
    let f : (mul_u64 a (low_u64 (wrapping_shr b 192))).1 ≡ false =
      m.2 ∙ rw nothing (ground arith) in
    rw f (s.2 ∙ rw added (ground arith))
