-- ===== src/Tests/Pow.antt =====
-- 256-bit integers at concrete values.
use rust_litecoin.Prelude.{ℕ, ◌+◌, ◌*◌, ◌/◌, ◌%◌, ◌^◌, ◌≡◌, ◌<◌, false, some, arith}
use rust_litecoin.Pow.U256.{U256, max, overflowing_mul}
use rust_litecoin.Pow.U256.Value.{value, IsValid}
use rust_litecoin.Pow.U256.Multiply.{overflowing_mul_lem, overflowing_mul-unreported}
use rust_litecoin.Pow.U256.Divide.{div_rem, inverse}
use rust_litecoin.Pow.U256.Divide.Quotient.{div_rem_lem}
use rust_litecoin.Pow.U256.Divide.Inverse.{inverse_lem}
use rust_litecoin.Pow.Target.{retarget, clamped, mainnet, max_attainable_mainnet}
use rust_litecoin.Pow.Target.Retarget.{retarget_lem, retarget-wraps}

-- 2 ^ 128 + 5
abbrev wide : U256
wide = record { high = 1; low = 5 }

wide-IsValid : IsValid wide
wide-IsValid = record { high_fits = omega arith; low_fits = omega arith }

max-IsValid : IsValid max
max-IsValid = record { high_fits = omega arith; low_fits = omega arith }

-- 2 ^ 255
abbrev half : U256
half = record { high = 2 ^ 127; low = 0 }

half-IsValid : IsValid half
half-IsValid = record { high_fits = omega arith; low_fits = omega arith }

overflowing_mul_lem_example :
    IsValid (overflowing_mul wide half).0
    × (value (overflowing_mul wide half).0
        ≡ value wide * (value half % 2 ^ 192 + value half / 2 ^ 192) % 2 ^ 256)
overflowing_mul_lem_example = overflowing_mul_lem wide half wide-IsValid half-IsValid

-- 2 ^ 255 times 2 ^ 128 + 5 needs more than 256 bits.
overflowing_mul-unreported_example : (overflowing_mul half wide).1 ≡ false
overflowing_mul-unreported_example =
    overflowing_mul-unreported half wide half-IsValid wide-IsValid (omega arith)

div_rem_lem_example :
    (q r : U256) × (div_rem max wide ≡ some (q, r))
    × IsValid q
    × IsValid r
    × (value q ≡ value max / value wide)
    × (value r ≡ value max % value wide)
div_rem_lem_example = div_rem_lem max wide max-IsValid wide-IsValid (omega arith)

inverse_lem_example : (w : U256) × (inverse wide ≡ some w) × (value w ≡ 2 ^ 256 / (value wide + 1))
inverse_lem_example = inverse_lem wide wide-IsValid (omega arith)

retarget_lem_example :
    (c : ℕ) × (w : U256) × (clamped 400_000 mainnet ≡ some c)
    × (retarget wide 400_000 mainnet ≡ some w)
    × (value w ≡ value wide * c % 2 ^ 256 / (150 * 2016))
retarget_lem_example = retarget_lem wide 400_000 mainnet wide-IsValid (omega arith) (omega arith)

retarget-wraps_example :
    (w : U256) × (retarget max_attainable_mainnet 2_000_000 mainnet ≡ some w)
    × (10 * value w < 6 * value max_attainable_mainnet)
retarget-wraps_example = retarget-wraps 2_000_000 (omega arith)
