-- ===== src/Pow/U256.antt =====
-- `U256` of litecoin/src/pow.rs: a high and a low half, both u128. The operations on a u128 and on
-- a u64 are written out with their wrap-around.
pub mod Value
pub mod Arithmetic
pub mod Product
pub mod Shift
pub mod Divide
pub mod Multiply
use rust_litecoin.Prelude.{
  ℕ, suc, ◌+◌, ◌-◌, ◌*◌, ◌/◌, ◌%◌, ◌^◌, Bool, true, false, not, ◌&&◌, ◌||◌, ltb, leb, ◌==◌,
  if◌then◌else◌,
}

pub record U256 : Type 0 where
  pub high : ℕ
  pub low : ℕ

abbrev pub u128_max : ℕ
u128_max = 2 ^ 128 - 1

abbrev pub max : U256
max = record { high = u128_max; low = u128_max }

abbrev pub zero : U256
zero = record { high = 0; low = 0 }

abbrev pub one : U256
one = record { high = 0; low = 1 }

-- `u128::overflowing_add`
abbrev pub u128_overflowing_add : ℕ → ℕ → ℕ × Bool
u128_overflowing_add a b = ((a + b) % 2 ^ 128, leb (2 ^ 128) (a + b))

unfoldable pub is_zero : U256 → Bool
is_zero u = (u.high == 0) && (u.low == 0)

unfoldable pub is_one : U256 → Bool
is_one u = (u.high == 0) && (u.low == 1)

unfoldable pub is_max : U256 → Bool
is_max u = (u.high == u128_max) && (u.low == u128_max)

-- `self > rhs`, derived for the two fields in their order
unfoldable pub greater : U256 → U256 → Bool
greater a b = ltb b.high a.high || (a.high == b.high) && ltb b.low a.low

unfoldable pub low_u128 : U256 → ℕ
low_u128 u = u.low

unfoldable pub low_u64 : U256 → ℕ
unfolding low_u128
low_u64 u = low_u128 u % 2 ^ 64

unfoldable pub low_u32 : U256 → ℕ
unfolding low_u128
low_u32 u = low_u128 u % 2 ^ 32

unfoldable pub saturating_to_u128 : U256 → ℕ
unfolding greater low_u128
saturating_to_u128 u =
    if greater u (record { high = 0; low = u128_max }) then u128_max else low_u128 u

-- `!self`
unfoldable pub complement : U256 → U256
complement u = record { high = u128_max - u.high; low = u128_max - u.low }

unfoldable pub overflowing_add : U256 → U256 → U256 × Bool
overflowing_add a b =
    let high = u128_overflowing_add a.high b.high in
    let low = u128_overflowing_add a.low b.low in
    let carried = u128_overflowing_add high.0 1 in
    if low.1
    then (record { high = carried.0; low = low.0 }, high.1 || carried.1)
    else (record { high = high.0; low = low.0 }, high.1)

unfoldable pub wrapping_add : U256 → U256 → U256
unfolding overflowing_add
wrapping_add a b = (overflowing_add a b).0

unfoldable pub overflowing_sub : U256 → U256 → U256 × Bool
unfolding wrapping_add complement greater
overflowing_sub a b = (wrapping_add (wrapping_add a (complement b)) one, greater b a)

unfoldable pub wrapping_sub : U256 → U256 → U256
unfolding overflowing_sub
wrapping_sub a b = (overflowing_sub a b).0

unfoldable pub wrapping_inc : U256 → U256
wrapping_inc u =
    let low = (u.low + 1) % 2 ^ 128 in
    if low == 0
    then record { high = (u.high + 1) % 2 ^ 128; low = low }
    else record { high = u.high; low = low }

-- One round of the loop of `mul_u64`: the word that is kept, and the carry.
unfoldable pub mul_word : ℕ → ℕ → ℕ → ℕ × ℕ
mul_word rhs word carry = let n = (carry + rhs * word) % 2 ^ 128 in (n % 2 ^ 64, n / 2 ^ 64)

-- The halves are put together again by `|`, whose bits do not meet.
unfoldable pub mul_u64 : U256 → ℕ → U256 × Bool
mul_u64 u rhs =
    let w0 = mul_word rhs (u.low % 2 ^ 64) 0 in
    let w1 = mul_word rhs (u.low / 2 ^ 64) w0.1 in
    let w2 = mul_word rhs (u.high % 2 ^ 64) w1.1 in
    let w3 = mul_word rhs (u.high / 2 ^ 64) w2.1 in
    (record { high = w2.0 + w3.0 * 2 ^ 64; low = w0.0 + w1.0 * 2 ^ 64 }, not (w3.1 == 0))

-- A u128 is shifted by less than 128 bits: the bits beyond are lost.
unfoldable pub u128_shl : ℕ → ℕ → ℕ
u128_shl a n = a * 2 ^ n % 2 ^ 128

unfoldable pub u128_shr : ℕ → ℕ → ℕ
u128_shr a n = a / 2 ^ n

unfoldable pub wrapping_shl : U256 → ℕ → U256
unfolding u128_shl u128_shr
wrapping_shl u rhs =
    let shift = rhs % 256 in
    let bit_shift = shift % 128 in
    if leb 128 shift then record { high = u128_shl u.low bit_shift; low = 0 } else record {
      high =
          u128_shl u.high bit_shift
          + (if ltb 0 bit_shift then u128_shr u.low (128 - bit_shift) else 0);
      low = u128_shl u.low bit_shift;
    }

unfoldable pub wrapping_shr : U256 → ℕ → U256
unfolding u128_shl u128_shr
wrapping_shr u rhs =
    let shift = rhs % 256 in
    let bit_shift = shift % 128 in
    if leb 128 shift then record { high = 0; low = u128_shr u.high bit_shift } else record {
      high = u128_shr u.high bit_shift;
      low =
          u128_shr u.low bit_shift
          + (if ltb 0 bit_shift then u128_shl u.high (128 - bit_shift) else 0);
    }

-- One of the three rounds of `overflowing_mul`; only the last word reports its overflow.
unfoldable pub add_word : U256 → U256 → ℕ → U256 → U256
add_word a b shift ret =
    wrapping_add ret (wrapping_shl (mul_u64 a (low_u64 (wrapping_shr b shift))).0 shift)

unfoldable pub overflowing_mul : U256 → U256 → U256 × Bool
overflowing_mul a b =
    let ret = add_word a b 128 (add_word a b 64 (add_word a b 0 zero)) in
    let last = mul_u64 a (low_u64 (wrapping_shr b 192)) in
    let sum = overflowing_add ret last.0 in (sum.0, last.1 || sum.1)
