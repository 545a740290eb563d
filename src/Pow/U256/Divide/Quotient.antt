-- ===== src/Pow/U256/Divide/Quotient.antt =====
-- Long division against the quotient and the remainder of the numbers.
use native.Mathlib.Nat.{
  add-mul-div_right, mod-eq-sub-div-mul, pow-le-pow_right, mul-le-mul_right, div-eq_of_lt,
  two-pow-succ,
}
use Prim.Native.Nat.{min}
use rust_litecoin.Prelude.{
  ℕ, suc, ◌+◌, ◌-◌, ◌*◌, ◌/◌, ◌%◌, ◌^◌, ◌≤◌, ◌<◌, ◌≡◌, ◌≢◌, sym, ap, ◌∙◌, true, false, some, ltb,
  ◌==◌, inl, inr, arith, tests, Bool-cases, ne→==,
}
use rust_litecoin.Pow.Powers.{pow_sum, pow_pos}
use rust_litecoin.Pow.U256 as U
use rust_litecoin.Pow.U256.{U256, is_zero, is_one, is_max, complement, wrapping_shl, wrapping_inc}
use rust_litecoin.Pow.U256.Value.{value, IsValid}
use rust_litecoin.Pow.U256.Shift.{wrapping_shl_lem}
use rust_litecoin.Pow.U256.Divide.{bits, div_loop, div_rem}
use rust_litecoin.Pow.U256.Divide.Bits.{HasBits, bits-HasBits}
use rust_litecoin.Pow.U256.Divide.Loop.{Room, div_loop_lem}

regroup : (k j : ℕ) → k ≤ j → k + (j - k) ≡ j
regroup k j h = omega arith

-- A quotient and a remainder below the divisor are those of the division.
divided : (a d q r : ℕ) → q * d + r ≡ a → r < d → (q ≡ a / d) × (r ≡ a % d)
divided a d q r e h =
    let turn : a ≡ r + q * d = omega (arith, e) in
    let f : a / d ≡ q =
      ap (λ n. n / d) turn ∙ add-mul-div_right r q (omega arith) ∙ omega (arith, div-eq_of_lt h) in
    (sym f, omega (arith, mod-eq-sub-div-mul a d, ap (λ n. n * d) f, e))

start-Room : (n : ℕ) → n ≤ 256 → Room n U.zero
start-Room n h =
    let a = pow-le-pow_right {n = 2} (omega arith) {i = min n 128} {j = 128} (omega arith) in
    let b = pow-le-pow_right {n = 2} (omega arith) {i = n - 128} {j = 128} (omega arith) in
    record { low_room = omega (arith, a); high_room = omega (arith, b) }

-- The divisor is shifted so far that both have the same number of bits.
aligned :
    (a d j k : ℕ)
    → HasBits a j
    → HasBits d k
    → 0 < d
    → k ≤ j
    → j ≤ 256
    → (d * 2 ^ (j - k) < 2 ^ 256) × (a < 2 * (d * 2 ^ (j - k))) × (j - k < 256)
aligned a d j k (inl (x, x')) (inl y) p le top = absurd (omega (arith, y.0))
aligned a d j k (inl (x, x')) (inr (y, y', y'', y3)) p le top = absurd (omega arith)
aligned a d j k (inr x) (inl (y, y')) p le top = absurd (omega arith)
aligned a d j k (inr (x, x', x'', x3)) (inr (y, y', y'', y3)) p le top =
    let whole = pow_sum k (j - k) in
    let e : 2 ^ (k + (j - k)) ≡ 2 ^ j = ap (λ n. 2 ^ n) (regroup k j le) in
    let lower = mul-le-mul_right {m = 2 ^ k} {n = 2 * d} (2 ^ (j - k)) y'' in
    let upper = mul-le-mul_right {m = d + 1} {n = 2 ^ k} (2 ^ (j - k)) (omega arith) in
    let bound = pow-le-pow_right {n = 2} (omega arith) {i = j} {j = 256} top in
    (
      omega (arith, whole, e, upper, bound, pow_pos (j - k)),
      omega (arith, whole, e, lower),
      omega arith,
    )

-- Where the divisor has more bits, it is larger.
more_bits : (a d j k : ℕ) → HasBits a j → HasBits d k → j < k → a < d
more_bits a d j k x (inl (y, y')) h = absurd (omega arith)
more_bits a d j k (inl (x, x')) (inr (y, y', y'', y3)) h = omega arith
more_bits a d j k (inr (x, x', x'', x3)) (inr (y, y', y'', y3)) h =
    let bound = pow-le-pow_right {n = 2} (omega arith) {i = suc j} {j = k} h in
    omega (arith, bound, two-pow-succ j)

bits_some : (d k : ℕ) → HasBits d k → d ≢ 0 → k ≢ 0
bits_some d k (inl (y, y')) h = absurd (omega arith)
bits_some d k (inr (y, y', y'', y3)) h = omega arith

div_rem-fewer :
    (a b : U256)
    → (bits b == 0) ≡ false
    → ltb (bits a) (bits b) ≡ true
    → div_rem a b ≡ some (U.zero, a)
unfolding div_rem
div_rem-fewer a b p q = rw (p, q)

div_rem-enough :
    (a b : U256)
    → (bits b == 0) ≡ false
    → ltb (bits a) (bits b) ≡ false
    → div_rem a b ≡ some (div_loop (bits a - bits b) a (wrapping_shl b (bits a - bits b)) U.zero)
unfolding div_rem
div_rem-enough a b p q = rw (p, q)

abbrev AreQuotient : U256 → U256 → U256 × U256 → Type 0
AreQuotient a b (q, r) =
    IsValid q × IsValid r × (value q ≡ value a / value b) × (value r ≡ value a % value b)

fewer_bits : (a b : U256) → IsValid a → value a < value b → AreQuotient a b (U.zero, a)
fewer_bits a b v h =
    let d = divided (value a) (value b) 0 (value a) (omega arith) h in
    (record { high_fits = omega arith; low_fits = omega arith }, v, d.0, d.1)

enough_bits :
    (a b : U256) (n : ℕ)
    → IsValid a
    → IsValid b
    → value b * 2 ^ n < 2 ^ 256
    → value a < 2 * (value b * 2 ^ n)
    → n < 256
    → AreQuotient a b (div_loop n a (wrapping_shl b n) U.zero)
enough_bits a b n v w fits below h =
    let shifted = wrapping_shl_lem b n w h in
    let e : value (wrapping_shl b n) ≡ value b * 2 ^ n = omega (arith, shifted.1, fits) in
    let r =
      div_loop_lem n (value b) a (wrapping_shl b n) U.zero h v shifted.0 e (omega (arith, e, below))
        (start-Room (suc n) h) in
    let d = divided (value a) (value b) _ _ (r.3 ∙ omega arith) r.2 in (r.0, r.1, d.0, d.1)

-- Long division finds the quotient and the remainder of the numbers wherever the divisor is not
-- zero; it never panics there.
pub div_rem_lem :
    (a b : U256)
    → IsValid a
    → IsValid b
    → value b ≢ 0
    → (q r : U256) × (div_rem a b ≡ some (q, r))
      × IsValid q
      × IsValid r
      × (value q ≡ value a / value b)
      × (value r ≡ value a % value b)
div_rem_lem a b v w h =
    let (top, x) = bits-HasBits a v in
    let (_, y) = bits-HasBits b w in
    let some_bits = ne→== (bits b) 0 (bits_some (value b) (bits b) y h) in
    elim (Bool-cases (ltb (bits a) (bits b))) [
      | inl fewer ↦
          let f =
            fewer_bits a b v (more_bits (value a) (value b) (bits a) (bits b) x y (omega tests)) in
          (U.zero, a, div_rem-fewer a b some_bits fewer, f.0, f.1, f.2, f.3)
      | inr enough ↦
          let g =
            aligned (value a) (value b) (bits a) (bits b) x y (omega arith) (omega tests) top in
          let f = enough_bits a b (bits a - bits b) v w g.0 g.1 g.2 in
          (_, _, div_rem-enough a b some_bits enough, f.0, f.1, f.2, f.3)
    ]
