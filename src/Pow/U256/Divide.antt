-- ===== src/Pow/U256/Divide.antt =====
-- The long division of `U256` in litecoin/src/pow.rs, and the inverse that turns a target into
-- its work. `none` is the panic of a division by zero.
pub mod Bits
pub mod Loop
pub mod Quotient
pub mod Inverse
use rust_litecoin.Prelude.{
  ℕ, zero, suc, ◌+◌, ◌-◌, ◌/◌, ◌%◌, ◌^◌, Bool, true, false, Option, none, some, ltb, ◌==◌,
  if◌then◌else◌,
}
use rust_litecoin.Pow.U256 as U
use rust_litecoin.Pow.U256.{
  U256, is_zero, is_one, is_max, greater, complement, wrapping_sub, wrapping_inc, wrapping_shl,
  wrapping_shr,
}

-- The number of bits of a number below `2 ^ fuel`.
bit_length : ℕ → ℕ → ℕ
bit_length zero n = 0
bit_length (suc fuel) n = let rest = bit_length fuel (n / 2) in if n == 0 then 0 else suc rest

-- `u128::leading_zeros`
leading_zeros : ℕ → ℕ
unfolding bit_length
leading_zeros n = 128 - bit_length 128 n

unfoldable pub bits : U256 → ℕ
unfolding leading_zeros
bits u = if ltb 0 u.high then 256 - leading_zeros u.high else 128 - leading_zeros u.low

-- `ret[1 - (shift / 128)] |= 1 << (shift % 128)`: each bit is set once, so `|=` is `+`.
set_bit : ℕ → U256 → U256
set_bit shift ret =
    if shift / 128 == 0
    then record { high = ret.high; low = ret.low + 2 ^ (shift % 128) }
    else record { high = ret.high + 2 ^ (shift % 128); low = ret.low }

-- The test of one round: `sub_copy` and `ret` after it.
div_step : ℕ → U256 → U256 → U256 → U256 × U256
unfolding set_bit
div_step shift sub copy ret =
    if greater copy sub then (sub, ret) else (wrapping_sub sub copy, set_bit shift ret)

-- The loop from its `shift` down to 0.
unfoldable pub div_loop : ℕ → U256 → U256 → U256 → U256 × U256
unfolding div_step
div_loop zero sub copy ret = let next = div_step 0 sub copy ret in (next.1, next.0)
div_loop (suc shift) sub copy ret =
    let next = div_step (suc shift) sub copy ret in
    div_loop shift next.0 (wrapping_shr copy 1) next.1

unfoldable pub div_rem : U256 → U256 → Option (U256 × U256)
div_rem a b =
    if bits b == 0
    then none
    else if ltb (bits a) (bits b)
    then some (U.zero, a)
    else some (div_loop (bits a - bits b) a (wrapping_shl b (bits a - bits b)) U.zero)

-- `ret.wrapping_inc()` of the quotient
unfoldable pub inverse_of : Option (U256 × U256) → Option U256
inverse_of none = none
inverse_of (some (q, r)) = some (wrapping_inc q)

unfoldable pub inverse : U256 → Option U256
inverse u =
    if is_zero u
    then some U.max
    else if is_one u
    then some U.max
    else if is_max u
    then some U.one
    else inverse_of (div_rem (complement u) (wrapping_inc u))
