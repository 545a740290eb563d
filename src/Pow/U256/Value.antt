-- ===== src/Pow/U256/Value.antt =====
-- A `U256` as a number below 2 ^ 256, and the comparisons against it.
use rust_litecoin.Prelude.{ℕ, ◌+◌, ◌-◌, ◌*◌, ◌^◌, ◌<◌, ◌≡◌, ltb, leb, if◌then◌else◌, arith}
use rust_litecoin.Pow.U256.{U256, u128_max, greater, complement, saturating_to_u128, low_u128}

abbrev pub value : U256 → ℕ
value u = u.high * 2 ^ 128 + u.low

pub record IsValid (u : U256) : Type 0 where
  pub high_fits : u.high < 2 ^ 128
  pub low_fits : u.low < 2 ^ 128

-- The derived order is the order of the numbers.
pub greater_lem : (a b : U256) → IsValid a → IsValid b → greater a b ≡ ltb (value b) (value a)
unfolding greater
greater_lem a b v w =
    let ah = v.high_fits in
    let al = v.low_fits in let bh = w.high_fits in let bl = w.low_fits in ground arith

-- Every bit is flipped.
pub complement_lem : (u : U256) → IsValid u → value (complement u) ≡ 2 ^ 256 - 1 - value u
unfolding complement
complement_lem u v = let h = v.high_fits in let l = v.low_fits in omega arith

pub complement-IsValid : (u : U256) → IsValid (complement u)
unfolding complement
complement-IsValid u = record { high_fits = omega arith; low_fits = omega arith }

-- The number, or the largest u128 where it is too large.
pub saturating_to_u128_lem :
    (u : U256)
    → IsValid u
    → saturating_to_u128 u ≡ (if leb (value u) u128_max then value u else u128_max)
unfolding saturating_to_u128 greater low_u128
saturating_to_u128_lem u v = let h = v.high_fits in let l = v.low_fits in ground arith
