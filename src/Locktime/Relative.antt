-- ===== src/Locktime/Relative.antt =====
-- Relative lock times: `Height` and `Time` of units/src/locktime/relative.rs, `LockTime` of
-- litecoin/src/blockdata/locktime/relative.rs. Both hold a u16; a `Time` counts intervals of 512
-- seconds. The sum `seconds + 511` wraps around in a build without overflow checks, which is what
-- is written here; with overflow checks it panics there.
use rust_litecoin.Prelude.{
  ℕ, ◌+◌, ◌-◌, ◌*◌, ◌/◌, ◌%◌, ◌^◌, ◌≤◌, ◌<◌, ◌≡◌, Bool, true, false, leb, if◌then◌else◌, arith,
  tests, ◌⊎◌, inl, inr, Bool-cases,
}

pub data LockTime : Type 0 where
  blocks : ℕ → LockTime
  time : ℕ → LockTime

-- `Ok`, or `TimeOverflowError { seconds }`
pub data Intervals : Type 0 where
  intervals : ℕ → Intervals
  time_overflow : ℕ → Intervals

unfoldable pub from_seconds_floor : ℕ → Intervals
from_seconds_floor seconds =
    let interval = seconds / 512 in
    if leb interval (2 ^ 16 - 1) then intervals interval else time_overflow seconds

unfoldable pub from_seconds_ceil : ℕ → Intervals
from_seconds_ceil seconds =
    let interval = (seconds + 511) % 2 ^ 32 / 512 in
    if leb interval (2 ^ 16 - 1) then intervals interval else time_overflow seconds

-- `(1 << 22) | value`, whose bits do not meet
unfoldable pub to_consensus_u32 : LockTime → ℕ
to_consensus_u32 (blocks h) = h
to_consensus_u32 (time t) = 2 ^ 22 + t

-- `Ok(bool)`, or the incompatible pair
pub data Satisfied : Type 0 where
  answer : Bool → Satisfied
  incompatible : ℕ → ℕ → Satisfied

unfoldable pub is_satisfied_by_height : LockTime → ℕ → Satisfied
is_satisfied_by_height (blocks h) height = answer (leb h height)
is_satisfied_by_height (time t) height = incompatible height t

unfoldable pub is_satisfied_by_time : LockTime → ℕ → Satisfied
is_satisfied_by_time (time t) now = answer (leb t now)
is_satisfied_by_time (blocks h) now = incompatible now h

-- `matches!(…, Ok(true))`
abbrev is_ok_true : Satisfied → Bool
is_ok_true (answer b) = b
is_ok_true (incompatible a b) = false

unfoldable pub is_satisfied_by : LockTime → ℕ → ℕ → Bool
unfolding is_satisfied_by_height is_satisfied_by_time
is_satisfied_by l h t =
    if is_ok_true (is_satisfied_by_height l h) then true else is_ok_true (is_satisfied_by_time l t)

unfoldable pub is_implied_by : LockTime → LockTime → Bool
is_implied_by (blocks this) (blocks other) = leb this other
is_implied_by (time this) (time other) = leb this other
is_implied_by _ _ = false

abbrev pub IsValid : LockTime → Type 0
IsValid (blocks h) = h < 2 ^ 16
IsValid (time t) = t < 2 ^ 16

-- A relative lock time that another one implies is satisfied wherever the other one is.
pub relative_satisfied_by_implied :
    (l other : LockTime) (h t : ℕ)
    → is_implied_by l other ≡ true
    → is_satisfied_by other h t ≡ true
    → is_satisfied_by l h t ≡ true
unfolding is_implied_by is_satisfied_by
relative_satisfied_by_implied (blocks a) (blocks b) h t i s = ground arith
relative_satisfied_by_implied (time a) (time b) h t i s = ground arith
relative_satisfied_by_implied (blocks a) (time b) h t i s = cc
relative_satisfied_by_implied (time a) (blocks b) h t i s = cc

-- Rounding down finds the largest number of intervals that fit into the seconds, and gives it
-- where it has at most 16 bits; otherwise it is refused.
pub from_seconds_floor_lem :
    (seconds : ℕ)
    → (n : ℕ) × (n * 512 ≤ seconds)
      × (seconds < n * 512 + 512)
      × (((n < 2 ^ 16) × (from_seconds_floor seconds ≡ intervals n))
          ⊎ ((2 ^ 16 ≤ n) × (from_seconds_floor seconds ≡ time_overflow seconds)))
unfolding from_seconds_floor
from_seconds_floor_lem seconds = (
  seconds / 512,
  omega arith,
  omega arith,
  elim (Bool-cases (leb (seconds / 512) (2 ^ 16 - 1))) [
    | inl fits ↦ inl (omega tests, rw fits)
    | inr large ↦ inr (omega tests, rw large)
  ],
)

-- As long as `seconds + 511` fits 32 bits, rounding up finds the smallest number of intervals that
-- cover the seconds, and gives it where it has at most 16 bits; otherwise it is refused.
pub from_seconds_ceil_lem :
    (seconds : ℕ)
    → seconds + 511 < 2 ^ 32
    → (n : ℕ) × (seconds ≤ n * 512)
      × (n * 512 < seconds + 512)
      × (((n < 2 ^ 16) × (from_seconds_ceil seconds ≡ intervals n))
          ⊎ ((2 ^ 16 ≤ n) × (from_seconds_ceil seconds ≡ time_overflow seconds)))
unfolding from_seconds_ceil
from_seconds_ceil_lem seconds h = (
  (seconds + 511) % 2 ^ 32 / 512,
  omega arith,
  omega arith,
  elim (Bool-cases (leb ((seconds + 511) % 2 ^ 32 / 512) (2 ^ 16 - 1))) [
    | inl fits ↦ inl (omega tests, rw fits)
    | inr large ↦ inr (omega tests, rw large)
  ],
)

-- The 511 largest u32 values wrap around: they are accepted as zero intervals.
pub from_seconds_ceil_wraps :
    (seconds : ℕ)
    → 2 ^ 32 ≤ seconds + 511
    → seconds < 2 ^ 32
    → from_seconds_ceil seconds ≡ intervals 0
unfolding from_seconds_ceil
from_seconds_ceil_wraps seconds h k = ground arith
