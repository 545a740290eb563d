-- ===== src/Wire/Ints.antt =====
-- The fixed-width integers of litecoin/src/consensus/encode.rs: `emit_*`, `read_*` and the
-- `Encodable` and `Decodable` impls that call them.
use rust_litecoin.Prelude.{
  ℕ, zero, suc, ◌+◌, ◌*◌, ◌/◌, ◌%◌, ◌^◌, ◌<◌, ◌≡◌, refl, ap, List, [], ◌∷◌, Bool, true, false, not,
  ◌==◌, arith, length, All,
}
use native.Mathlib.Nat.{pow-suc}
use rust_litecoin.Wire.Codec.{Read, pure, ◌>>=◌, read_exact, Write, emit, IsByte}
use rust_litecoin.Wire.RoundTrip.{RoundTrip, Sized, RoundTrip-then, RoundTrip-array}

-- `to_le_bytes` and `from_le_bytes` at a width of `k` bytes.
unfoldable pub to_le_bytes : ℕ → ℕ → List ℕ
to_le_bytes zero v = []
to_le_bytes (suc k) v = (v % 256) ∷ to_le_bytes k (v / 256)

unfoldable pub from_le_bytes : List ℕ → ℕ
from_le_bytes [] = 0
from_le_bytes (b ∷ bs) = b + 256 * from_le_bytes bs

-- `emit_u8` to `emit_u64`, and `read_u8` to `read_u64`, for a width of `k` bytes.
unfoldable pub emit_uint : ℕ → ℕ → Write
unfolding to_le_bytes
emit_uint k v = emit (to_le_bytes k v)

unfoldable pub read_uint : ℕ → Read ℕ
unfolding from_le_bytes read_exact
read_uint k = read_exact k >>= λ val. pure (from_le_bytes val)

-- `bool` is one byte, and any byte but 0 is true.
unfoldable pub emit_bool : Bool → Write
emit_bool true = emit (1 ∷ [])
emit_bool false = emit (0 ∷ [])

unfoldable pub read_bool : Read Bool
unfolding read_uint
read_bool = read_uint 1 >>= λ bit. pure (not (bit == 0))

pub length-to_le_bytes : (k v : ℕ) → length (to_le_bytes k v) ≡ k
unfolding to_le_bytes
length-to_le_bytes zero v = refl
length-to_le_bytes (suc k) v = ap suc (length-to_le_bytes k (v / 256))

pub to_le_bytes-IsByte : (k v : ℕ) → All IsByte (to_le_bytes k v)
unfolding to_le_bytes
to_le_bytes-IsByte zero v = tt
to_le_bytes-IsByte (suc k) v = (omega arith, to_le_bytes-IsByte k (v / 256))

pub from_le_bytes-to_le_bytes : (k v : ℕ) → v < 256 ^ k → from_le_bytes (to_le_bytes k v) ≡ v
unfolding to_le_bytes from_le_bytes
from_le_bytes-to_le_bytes zero v h = omega arith
from_le_bytes-to_le_bytes (suc k) v h =
    let fits : v / 256 < 256 ^ k = grind (arith, pow-suc) in
    omega (arith, from_le_bytes-to_le_bytes k (v / 256) fits)

-- Reading back an integer that fits the width.
pub RoundTrip-uint : (k v : ℕ) → v < 256 ^ k → RoundTrip (emit_uint k v) (read_uint k) v
unfolding emit_uint read_uint
RoundTrip-uint k v h =
    RoundTrip-then _ (read_exact k) _ (to_le_bytes k v) v
      (RoundTrip-array k (to_le_bytes k v) (length-to_le_bytes k v))
      (λ s. rw (from_le_bytes-to_le_bytes k v h))

-- `emit_uint` returns its width.
pub Sized-uint : (k v : ℕ) → Sized (emit_uint k v) k
unfolding emit_uint
Sized-uint k v = (to_le_bytes k v, rw (length-to_le_bytes k v), length-to_le_bytes k v)

pub RoundTrip-bool : (b : Bool) → RoundTrip (emit_bool b) read_bool b
unfolding emit_bool read_bool emit_uint
RoundTrip-bool true =
    RoundTrip-then _ (read_uint 1) _ 1 true (RoundTrip-uint 1 1 (omega arith)) (λ s. refl)
RoundTrip-bool false =
    RoundTrip-then _ (read_uint 1) _ 0 false (RoundTrip-uint 1 0 (omega arith)) (λ s. refl)
