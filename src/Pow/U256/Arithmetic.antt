-- ===== src/Pow/U256/Arithmetic.antt =====
-- Addition and subtraction modulo 2 ^ 256.
use rust_litecoin.Prelude.{◌+◌, ◌-◌, ◌%◌, ◌^◌, ◌≤◌, ◌<◌, ◌≡◌, ltb, leb, arith}
use rust_litecoin.Pow.U256.{
  U256, one, complement, overflowing_add, wrapping_add, overflowing_sub, wrapping_sub, wrapping_inc,
}
use rust_litecoin.Pow.U256.Value.{value, IsValid, greater_lem, complement_lem, complement-IsValid}

-- The sum wraps around at 2 ^ 256, and the flag says whether it did.
pub overflowing_add_lem :
    (a b : U256)
    → IsValid a
    → IsValid b
    → IsValid (overflowing_add a b).0
      × (value (overflowing_add a b).0 ≡ (value a + value b) % 2 ^ 256)
      × ((overflowing_add a b).1 ≡ leb (2 ^ 256) (value a + value b))
unfolding overflowing_add
overflowing_add_lem a b v w =
    let ah = v.high_fits in
    let al = v.low_fits in
    let bh = w.high_fits in
    let bl = w.low_fits in
    (record { high_fits = ground arith; low_fits = ground arith }, ground arith, ground arith)

one-IsValid : IsValid one
one-IsValid = record { high_fits = omega arith; low_fits = omega arith }

pub wrapping_add_lem :
    (a b : U256)
    → IsValid a
    → IsValid b
    → IsValid (wrapping_add a b) × (value (wrapping_add a b) ≡ (value a + value b) % 2 ^ 256)
unfolding wrapping_add
wrapping_add_lem a b v w = let r = overflowing_add_lem a b v w in (r.0, r.1)

pub value-lt : (u : U256) → IsValid u → value u < 2 ^ 256
value-lt u v = let h = v.high_fits in let l = v.low_fits in omega arith

-- The difference wraps around below 0, and the flag says whether it did. It is computed as the
-- sum of the first number, the complement of the second one and one.
pub overflowing_sub_lem :
    (a b : U256)
    → IsValid a
    → IsValid b
    → IsValid (overflowing_sub a b).0
      × (value (overflowing_sub a b).0 ≡ (value a + (2 ^ 256 - value b)) % 2 ^ 256)
      × ((overflowing_sub a b).1 ≡ ltb (value a) (value b))
unfolding overflowing_sub
overflowing_sub_lem a b v w =
    let first = wrapping_add_lem a (complement b) v (complement-IsValid b) in
    let second = wrapping_add_lem (wrapping_add a (complement b)) one first.0 one-IsValid in
    let fits = value-lt b w in
    (second.0, omega (arith, first.1, second.1, complement_lem b w, fits), greater_lem b a w v)

-- Without a borrow the difference is the one of the numbers.
pub wrapping_sub_lem :
    (a b : U256)
    → IsValid a
    → IsValid b
    → value b ≤ value a
    → IsValid (wrapping_sub a b) × (value (wrapping_sub a b) ≡ value a - value b)
unfolding wrapping_sub
wrapping_sub_lem a b v w le =
    let r = overflowing_sub_lem a b v w in let fits = value-lt a v in (r.0, omega (arith, r.1))

-- The increment wraps around at 2 ^ 256.
pub wrapping_inc_lem :
    (u : U256)
    → IsValid u
    → IsValid (wrapping_inc u) × (value (wrapping_inc u) ≡ (value u + 1) % 2 ^ 256)
unfolding wrapping_inc
wrapping_inc_lem u v =
    let h = v.high_fits in
    let l = v.low_fits in
    (record { high_fits = ground arith; low_fits = ground arith }, ground arith)
