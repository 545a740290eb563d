-- ===== src/Locktime/Absolute.antt =====
-- Absolute lock times: `Height` and `Time` of units/src/locktime/absolute.rs and `LockTime` of
-- litecoin/src/blockdata/locktime/absolute.rs. A `Height` and a `Time` are u32 values whose range
-- their constructors check; `IsValid` states that range.
use rust_litecoin.Prelude.{
  ℕ, ◌^◌, ◌≤◌, ◌<◌, ◌≡◌, refl, Bool, true, false, not, Option, none, some, ltb, leb, if◌then◌else◌,
  arith, tests, Bool-cases, inl, inr,
}
use rust_litecoin.Wire.Codec.{panic, Read, pure, throw, ◌>>=◌, Write}
use rust_litecoin.Wire.Ints.{emit_uint, read_uint, RoundTrip-uint}
use rust_litecoin.Wire.RoundTrip.{RoundTrip, RoundTrip-then}

abbrev pub lock_time_threshold : ℕ
lock_time_threshold = 500_000_000

-- `LockTimeUnit` and `ConversionError`
pub data LockTimeUnit : Type 0 where
  blocks_unit seconds_unit : LockTimeUnit

pub record ConversionError : Type 0 where
  pub unit : LockTimeUnit
  pub input : ℕ

pub data Conversion : Type 0 where
  converted : ℕ → Conversion
  refused : ConversionError → Conversion

is_block_height_value : ℕ → Bool
is_block_height_value n = ltb n lock_time_threshold

is_block_time_value : ℕ → Bool
is_block_time_value n = leb lock_time_threshold n

-- `Height::from_consensus` and `Time::from_consensus`
unfoldable pub height_from_consensus : ℕ → Conversion
unfolding is_block_height_value
height_from_consensus n =
    if is_block_height_value n
    then converted n
    else refused (record { unit = blocks_unit; input = n })

unfoldable pub time_from_consensus : ℕ → Conversion
unfolding is_block_time_value
time_from_consensus n =
    if is_block_time_value n
    then converted n
    else refused (record { unit = seconds_unit; input = n })

pub data LockTime : Type 0 where
  blocks : ℕ → LockTime
  seconds : ℕ → LockTime

-- `none` stands for the panic of `expect("n is valid")`.
expect : Conversion → (ℕ → LockTime) → Option LockTime
expect (converted n) wrap = some (wrap n)
expect (refused e) wrap = none

unfoldable pub from_consensus : ℕ → Option LockTime
unfolding expect height_from_consensus time_from_consensus
from_consensus n =
    if is_block_height_value n
    then expect (height_from_consensus n) blocks
    else expect (time_from_consensus n) seconds

unfoldable pub to_consensus_u32 : LockTime → ℕ
to_consensus_u32 (blocks h) = h
to_consensus_u32 (seconds t) = t

unfoldable pub is_same_unit : LockTime → LockTime → Bool
is_same_unit (blocks a) (blocks b) = true
is_same_unit (seconds a) (seconds b) = true
is_same_unit _ _ = false

unfoldable pub is_block_height : LockTime → Bool
is_block_height (blocks h) = true
is_block_height (seconds t) = false

unfoldable pub is_block_time : LockTime → Bool
unfolding is_block_height
is_block_time l = not (is_block_height l)

unfoldable pub is_satisfied_by : LockTime → ℕ → ℕ → Bool
is_satisfied_by (blocks n) height time = leb n height
is_satisfied_by (seconds n) height time = leb n time

unfoldable pub is_implied_by : LockTime → LockTime → Bool
is_implied_by (blocks this) (blocks other) = leb this other
is_implied_by (seconds this) (seconds other) = leb this other
is_implied_by _ _ = false

-- The values that the constructors let through.
abbrev pub IsValid : LockTime → Type 0
IsValid (blocks h) = h < lock_time_threshold
IsValid (seconds t) = (lock_time_threshold ≤ t) × (t < 2 ^ 32)

-- Every u32 is a lock time: `expect` never panics, the result is valid, and it is written back
-- as the same number.
pub to_consensus-from_consensus :
    (n : ℕ)
    → n < 2 ^ 32
    → (l : LockTime) × (from_consensus n ≡ some l) × IsValid l × (to_consensus_u32 l ≡ n)
unfolding from_consensus to_consensus_u32
to_consensus-from_consensus n h = elim (Bool-cases (is_block_height_value n)) [
  | inl low ↦ (blocks n, ground arith, omega tests, refl)
  | inr high ↦ (seconds n, ground arith, (omega tests, h), refl)
]

-- A valid lock time is read back from its number.
pub from_consensus-to_consensus :
    (l : LockTime) → IsValid l → from_consensus (to_consensus_u32 l) ≡ some l
unfolding from_consensus to_consensus_u32
from_consensus-to_consensus (blocks n) h = ground arith
from_consensus-to_consensus (seconds n) h = ground arith

-- A lock time that another one implies is satisfied wherever the other one is.
pub is_satisfied_by_implied :
    (l other : LockTime) (height time : ℕ)
    → is_implied_by l other ≡ true
    → is_satisfied_by other height time ≡ true
    → is_satisfied_by l height time ≡ true
unfolding is_implied_by is_satisfied_by
is_satisfied_by_implied (blocks a) (blocks b) height time h k = ground arith
is_satisfied_by_implied (seconds a) (seconds b) height time h k = ground arith
is_satisfied_by_implied (blocks a) (seconds b) height time h k = ground arith
is_satisfied_by_implied (seconds a) (blocks b) height time h k = ground arith

pub is_satisfied_by_later :
    (l : LockTime) (height time height' time' : ℕ)
    → height ≤ height'
    → time ≤ time'
    → is_satisfied_by l height time ≡ true
    → is_satisfied_by l height' time' ≡ true
unfolding is_satisfied_by
is_satisfied_by_later (blocks a) height time height' time' h k e = ground arith
is_satisfied_by_later (seconds a) height time height' time' h k e = ground arith

-- Between lock times of one unit implication is complete: it fails only where some height and
-- time satisfy the other one and not this one.
pub not_implied :
    (l other : LockTime)
    → is_same_unit l other ≡ true
    → is_implied_by l other ≡ false
    → (height : ℕ) × (time : ℕ) × (is_satisfied_by other height time ≡ true)
      × (is_satisfied_by l height time ≡ false)
unfolding is_same_unit is_implied_by is_satisfied_by
not_implied (blocks a) (blocks b) u h = (b, 0, ground arith, ground arith)
not_implied (seconds a) (seconds b) u h = (0, b, ground arith, ground arith)
not_implied (blocks a) (seconds b) u h = cc
not_implied (seconds a) (blocks b) u h = cc

-- The encoder and decoder of a transaction's lock time.
unfoldable pub encode_lock_time : LockTime → Write
encode_lock_time l = emit_uint 4 (to_consensus_u32 l)

lock_time_of : Option LockTime → Read LockTime
lock_time_of (some l) = pure l
lock_time_of none = throw panic

unfoldable pub decode_lock_time : Read LockTime
unfolding lock_time_of
decode_lock_time = read_uint 4 >>= λ n. lock_time_of (from_consensus n)

to_consensus-lt : (l : LockTime) → IsValid l → to_consensus_u32 l < 2 ^ 32
unfolding to_consensus_u32
to_consensus-lt (blocks n) h = omega arith
to_consensus-lt (seconds n) h = h.1

-- A valid lock time is written in four bytes, and reads back.
pub RoundTrip-lock_time :
    (l : LockTime) → IsValid l → RoundTrip (encode_lock_time l) decode_lock_time l
unfolding encode_lock_time decode_lock_time
RoundTrip-lock_time l h =
    RoundTrip-then _ (read_uint 4) _ (to_consensus_u32 l) l
      (RoundTrip-uint 4 (to_consensus_u32 l) (to_consensus-lt l h))
      (λ s. rw (from_consensus-to_consensus l h))
