-- ===== src/Pow/U256/Divide/Loop.antt =====
-- The loop of the long division: what a round keeps, and what is left at the end.
use native.Mathlib.Nat.{two-pow-succ, pow-le-pow_right}
use Prim.Native.Nat.{min}
use rust_litecoin.Prelude.{
  ℕ, zero, suc, ◌+◌, ◌-◌, ◌*◌, ◌/◌, ◌%◌, ◌^◌, ◌≤◌, ◌<◌, ◌≡◌, refl, sym, ap, ◌∙◌, true, false, ltb,
  ◌==◌, inl, inr, arith, tests, Bool-cases,
}
use rust_litecoin.Pow.Powers.{pow_sum, pow_pos}
use rust_litecoin.Pow.U256.{U256, greater, wrapping_shr}
use rust_litecoin.Pow.U256.Value.{value, IsValid, greater_lem}
use rust_litecoin.Pow.U256.Arithmetic.{wrapping_sub_lem}
use rust_litecoin.Pow.U256.Shift.{wrapping_shr_lem}
use rust_litecoin.Pow.U256.Divide.{set_bit, div_step, div_loop}

-- The lowest `n` bits are free.
pub record Room (n : ℕ) (u : U256) : Type 0 where
  pub low_room : u.low + 2 ^ min n 128 ≤ 2 ^ 128
  pub high_room : u.high + 2 ^ (n - 128) ≤ 2 ^ 128

same_power : (i j : ℕ) → i ≡ j → 2 ^ i ≡ 2 ^ j
same_power i j e = ap (λ n. 2 ^ n) e

low_bit :
    (n : ℕ) (u : U256)
    → n < 128
    → Room (suc n) u
    → Room n (record { high = u.high; low = u.low + 2 ^ n })
low_bit n u h room =
    let a = same_power (min (suc n) 128) (suc n) (omega arith) in
    let b = same_power (min n 128) n (omega arith) in
    let c = same_power (suc n - 128) (n - 128) (omega arith) in
    let l = room.low_room in
    let g = room.high_room in
    record { low_room = omega (arith, a, b, l, two-pow-succ n); high_room = omega (arith, c, g) }

high_bit :
    (n : ℕ) (u : U256)
    → 128 ≤ n
    → Room (suc n) u
    → Room n (record { high = u.high + 2 ^ (n - 128); low = u.low })
high_bit n u h room =
    let a = same_power (min (suc n) 128) (min n 128) (omega arith) in
    let c = same_power (suc n - 128) (suc (n - 128)) (omega arith) in
    let l = room.low_room in
    let g = room.high_room in
    record {
      low_room = omega (arith, a, l);
      high_room = omega (arith, c, g, two-pow-succ (n - 128));
    }

-- Bit `n` is set, and those below it are still free.
set_bit_lem :
    (n : ℕ) (u : U256)
    → n < 256
    → Room (suc n) u
    → Room n (set_bit n u) × (value (set_bit n u) ≡ value u + 2 ^ n)
unfolding set_bit
set_bit_lem n u h room = elim (Bool-cases (ltb n 128)) [
  | inl narrow ↦
      let e : (n / 128 == 0) ≡ true = ground arith in
      let m : n % 128 ≡ n = omega tests in rw (e, m) (low_bit n u (omega tests) room, omega arith)
  | inr wide ↦
      let e : (n / 128 == 0) ≡ false = ground arith in
      let m : n % 128 ≡ n - 128 = omega tests in
      let p = pow_sum 128 (n - 128) in
      let q = same_power (128 + (n - 128)) n (omega tests) in
      rw (e, m) (high_bit n u (omega tests) room, omega (arith, p, q))
]

-- Room for one bit less is there too.
shrink : (n : ℕ) (u : U256) → Room (suc n) u → Room n u
shrink n u room =
    let l = room.low_room in
    let g = room.high_room in
    let a =
      pow-le-pow_right {n = 2} (omega arith) {i = min n 128} {j = min (suc n) 128} (omega arith) in
    let b = pow-le-pow_right {n = 2} (omega arith) {i = n - 128} {j = suc n - 128} (omega arith) in
    record { low_room = omega (arith, a, l); high_room = omega (arith, b, g) }

-- One round: what is left is below the shifted divisor, and nothing is lost.
div_step_lem :
    (n d : ℕ) (sub copy ret : U256)
    → n < 256
    → IsValid sub
    → IsValid copy
    → value copy ≡ d * 2 ^ n
    → value sub < 2 * value copy
    → Room (suc n) ret
    → IsValid (div_step n sub copy ret).0
      × (value (div_step n sub copy ret).0 < value copy)
      × Room n (div_step n sub copy ret).1
      × (value (div_step n sub copy ret).1 * d + value (div_step n sub copy ret).0
          ≡ value ret * d + value sub)
unfolding div_step
div_step_lem n d sub copy ret h v w e below room = elim (Bool-cases (greater copy sub)) [
  | inl smaller ↦
      let lt : ltb (value sub) (value copy) ≡ true = sym (greater_lem copy sub w v) ∙ smaller in
      rw smaller (v, omega tests, shrink n ret room, refl)
  | inr enough ↦
      let le : ltb (value sub) (value copy) ≡ false = sym (greater_lem copy sub w v) ∙ enough in
      let rest = wrapping_sub_lem sub copy v w (omega tests) in
      let bit = set_bit_lem n ret h room in
      let product : value (set_bit n ret) * d ≡ value ret * d + d * 2 ^ n =
        ap (λ m. m * d) bit.1 ∙ omega arith in
      rw enough (rest.0, omega (tests, rest.1), bit.0, omega (tests, product, rest.1, e))
]

Room-IsValid : (u : U256) → Room 0 u → IsValid u
Room-IsValid u room =
    let l = room.low_room in
    let g = room.high_room in
    let p = pow_pos (min 0 128) in
    let q = pow_pos (0 - 128) in
    record { high_fits = omega (arith, g, q); low_fits = omega (arith, l, p) }

-- The loop ends with a quotient and a remainder below the divisor.
pub div_loop_lem :
    (n d : ℕ) (sub copy ret : U256)
    → n < 256
    → IsValid sub
    → IsValid copy
    → value copy ≡ d * 2 ^ n
    → value sub < 2 * value copy
    → Room (suc n) ret
    → IsValid (div_loop n sub copy ret).0
      × IsValid (div_loop n sub copy ret).1
      × (value (div_loop n sub copy ret).1 < d)
      × (value (div_loop n sub copy ret).0 * d + value (div_loop n sub copy ret).1
          ≡ value ret * d + value sub)
unfolding div_loop
div_loop_lem zero d sub copy ret h v w e below room =
    let s = div_step_lem 0 d sub copy ret h v w e below room in
    (Room-IsValid _ s.2, s.0, omega (arith, s.1, e), s.3)
div_loop_lem (suc n) d sub copy ret h v w e below room =
    let s = div_step_lem (suc n) d sub copy ret h v w e below room in
    let half = wrapping_shr_lem copy 1 w (omega arith) in
    let double : d * 2 ^ suc n ≡ d * 2 ^ n + d * 2 ^ n =
      ap (λ m. d * m) (two-pow-succ n) ∙ omega arith in
    let f : value (wrapping_shr copy 1) ≡ d * 2 ^ n = omega (arith, half.1, e, double) in
    let rest =
      div_loop_lem n d _ (wrapping_shr copy 1) _ (omega arith) s.0 half.0 f
        (omega (arith, s.1, f, e, double)) s.2 in
    (rest.0, rest.1, rest.2, rest.3 ∙ s.3)
