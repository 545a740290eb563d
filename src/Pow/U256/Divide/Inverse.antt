-- ===== src/Pow/U256/Divide/Inverse.antt =====
-- The inverse against the quotient of 2 ^ 256.
use native.Mathlib.Nat.{div-le_self}
use native.Mathlib.Nat.{add-mul-div_right}
use rust_litecoin.Prelude.{
  ℕ, ◌+◌, ◌-◌, ◌*◌, ◌/◌, ◌%◌, ◌^◌, ◌≤◌, ◌<◌, ◌≡◌, refl, ap, ◌∙◌, true, false, some, ltb, ◌==◌, inl,
  inr, arith, tests, Bool-cases, ◌&&◌,
}
use rust_litecoin.Pow.U256 as U
use rust_litecoin.Pow.U256.{U256, is_zero, is_one, is_max, complement, wrapping_shl, wrapping_inc}
use rust_litecoin.Pow.U256.Value.{value, IsValid, complement_lem, complement-IsValid}
use rust_litecoin.Pow.U256.Arithmetic.{wrapping_inc_lem}
use rust_litecoin.Pow.U256.Divide.{div_rem, inverse, inverse_of}
use rust_litecoin.Pow.U256.Divide.Quotient.{div_rem_lem}

inverse-large :
    (u : U256)
    → 1 < value u
    → value u < 2 ^ 256 - 1
    → inverse u ≡ inverse_of (div_rem (complement u) (wrapping_inc u))
unfolding inverse is_zero is_one is_max
inverse-large u h k =
    let z : ((u.high == 0) && (u.low == 0)) ≡ false = ground arith in
    let o : ((u.high == 0) && (u.low == 1)) ≡ false = ground arith in
    let m : ((u.high == U.u128_max) && (u.low == U.u128_max)) ≡ false = ground arith in rw (z, o, m)

inverse-max : (u : U256) → IsValid u → 2 ^ 256 - 1 ≤ value u → inverse u ≡ some U.one
unfolding inverse is_zero is_one is_max
inverse-max u v k =
    let h = v.high_fits in
    let l = v.low_fits in
    let z : ((u.high == 0) && (u.low == 0)) ≡ false = ground arith in
    let o : ((u.high == 0) && (u.low == 1)) ≡ false = ground arith in
    let m : ((u.high == U.u128_max) && (u.low == U.u128_max)) ≡ true = ground arith in rw (z, o, m)

-- 2 ^ 256 / (x + 1) is (2 ^ 256 - 1 - x) / (x + 1) + 1.
inverse_quotient :
    (x q : ℕ)
    → 1 < x
    → x < 2 ^ 256 - 1
    → q ≡ (2 ^ 256 - 1 - x) / (x + 1)
    → (q + 1) % 2 ^ 256 ≡ 2 ^ 256 / (x + 1)
inverse_quotient x q h k e =
    let step = add-mul-div_right (2 ^ 256 - 1 - x) 1 {z = x + 1} (omega arith) in
    let whole : 2 ^ 256 - 1 - x + 1 * (x + 1) ≡ 2 ^ 256 = omega arith in
    let f = ap (λ n. n / (x + 1)) whole in
    let below = div-le_self (2 ^ 256 - 1 - x) (x + 1) in omega (arith, step, f, e, below)

inverse_of-some : (q r : U256) → inverse_of (some (q, r)) ≡ some (wrapping_inc q)
unfolding inverse_of
inverse_of-some q r = refl

inverse_large :
    (u : U256)
    → IsValid u
    → 1 < value u
    → value u < 2 ^ 256 - 1
    → (w : U256) × (inverse u ≡ some w) × (value w ≡ 2 ^ 256 / (value u + 1))
inverse_large u v h k =
    let c = complement_lem u v in
    let i = wrapping_inc_lem u v in
    let j : value (wrapping_inc u) ≡ value u + 1 = omega (arith, i.1) in
    let (q, r, e, vq, vr, eq, er) =
      div_rem_lem (complement u) (wrapping_inc u) (complement-IsValid u) i.0 (omega (arith, j)) in
    let done = wrapping_inc_lem q vq in
    let f : value q ≡ (2 ^ 256 - 1 - value u) / (value u + 1) = eq ∙ rw (c, j) in
    (
      wrapping_inc q,
      inverse-large u h k ∙ ap inverse_of e ∙ inverse_of-some q r,
      done.1 ∙ inverse_quotient (value u) (value q) h k f,
    )

-- The inverse of a number above 1 is 2 ^ 256 divided by the number and one, rounded down; the
-- largest number included.
pub inverse_lem :
    (u : U256)
    → IsValid u
    → 1 < value u
    → (w : U256) × (inverse u ≡ some w) × (value w ≡ 2 ^ 256 / (value u + 1))
inverse_lem u v h = elim (Bool-cases (ltb (value u) (2 ^ 256 - 1))) [
  | inl less ↦ inverse_large u v h (omega tests)
  | inr largest ↦
      let l = v.low_fits in
      let g = v.high_fits in
      let e : value u ≡ 2 ^ 256 - 1 = omega tests in
      (U.one, inverse-max u v (omega (arith, e)), rw e (omega arith))
]
