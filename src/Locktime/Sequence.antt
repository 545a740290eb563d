-- ===== src/Locktime/Sequence.antt =====
-- `Sequence` of litecoin/src/blockdata/transaction.rs, a u32, and the conversions of
-- litecoin/src/blockdata/locktime/relative.rs from and to it. A test of one bit by a mask is
-- written by division.
use rust_litecoin.Prelude.{
  ℕ, ◌+◌, ◌-◌, ◌*◌, ◌/◌, ◌%◌, ◌^◌, ◌≤◌, ◌<◌, ◌≡◌, Bool, false, not, ◌&&◌, ◌||◌, Option, none, some,
  ltb, leb, ◌==◌, if◌then◌else◌, arith,
}
use rust_litecoin.Locktime.Relative
use rust_litecoin.Locktime.Relative.{LockTime, blocks, time}

abbrev pub max : ℕ
max = 0xFFFFFFFF

abbrev pub min_no_rbf : ℕ
min_no_rbf = 0xFFFFFFFE

-- `n & (1 << k) != 0`
bit_set : ℕ → ℕ → Bool
bit_set k n = n / 2 ^ k % 2 == 1

unfoldable pub enables_absolute_lock_time : ℕ → Bool
enables_absolute_lock_time s = not (s == max)

unfoldable pub is_final : ℕ → Bool
unfolding enables_absolute_lock_time
is_final s = not (enables_absolute_lock_time s)

unfoldable pub is_rbf : ℕ → Bool
is_rbf s = ltb s min_no_rbf

-- `LOCK_TIME_DISABLE_FLAG_MASK` is bit 31, and `LOCK_TYPE_MASK` is bit 22.
unfoldable pub is_relative_lock_time : ℕ → Bool
unfolding bit_set
is_relative_lock_time s = not (bit_set 31 s)

unfoldable pub is_height_locked : ℕ → Bool
unfolding is_relative_lock_time
is_height_locked s = is_relative_lock_time s && not (bit_set 22 s)

unfoldable pub is_time_locked : ℕ → Bool
unfolding is_relative_lock_time
is_time_locked s = is_relative_lock_time s && bit_set 22 s

unfoldable pub from_height : ℕ → ℕ
from_height height = height

-- `u32::from(intervals) | LOCK_TYPE_MASK`, whose bits do not meet
unfoldable pub from_512_second_intervals : ℕ → ℕ
from_512_second_intervals intervals = intervals + 2 ^ 22

-- `Ok`, or the error; `panicked` is the failed assertion of `TimeOverflowError::new`.
pub data Converted : Type 0 where
  sequence : ℕ → Converted
  time_overflow : ℕ → Converted
  panicked : Converted

time_overflow_new : ℕ → Converted
time_overflow_new seconds =
    if ltb (2 ^ 16 - 1) ((seconds + 511) % 2 ^ 32 / 512) then time_overflow seconds else panicked

unfoldable pub from_seconds_floor : ℕ → Converted
unfolding time_overflow_new from_512_second_intervals
from_seconds_floor seconds =
    if leb (seconds / 512) (2 ^ 16 - 1)
    then sequence (from_512_second_intervals (seconds / 512))
    else time_overflow_new seconds

unfoldable pub from_seconds_ceil : ℕ → Converted
unfolding time_overflow_new from_512_second_intervals
from_seconds_ceil seconds =
    let interval = (seconds + 511) % 2 ^ 32 / 512 in
    if leb interval (2 ^ 16 - 1)
    then sequence (from_512_second_intervals interval)
    else time_overflow_new seconds

unfoldable pub to_relative_lock_time : ℕ → Option LockTime
unfolding is_relative_lock_time is_time_locked
to_relative_lock_time s =
    if not (is_relative_lock_time s)
    then none
    else if is_time_locked s
    then some (time (s % 2 ^ 16))
    else some (blocks (s % 2 ^ 16))

-- `relative::LockTime::to_sequence`
unfoldable pub to_sequence : LockTime → ℕ
unfolding Relative.to_consensus_u32
to_sequence l = Relative.to_consensus_u32 l

-- `relative::LockTime::is_implied_by_sequence`; `from_sequence` fails where there is no lock time.
unfoldable pub is_implied_by_sequence : LockTime → ℕ → Bool
unfolding to_relative_lock_time
is_implied_by_sequence l other = elim (to_relative_lock_time other) [
  | some lock ↦ Relative.is_implied_by l lock
  | none ↦ false
]

-- A relative lock time is read back from its sequence number.
pub to_relative_lock_time-to_sequence :
    (l : LockTime) → Relative.IsValid l → to_relative_lock_time (to_sequence l) ≡ some l
unfolding to_relative_lock_time to_sequence
to_relative_lock_time-to_sequence (blocks h) v = ground arith
to_relative_lock_time-to_sequence (time t) v = ground arith

-- A sequence number has a relative lock time exactly when it is locked by height or by time,
-- and it is never locked by both.
pub one_lock :
    (s : ℕ)
    → ((is_height_locked s || is_time_locked s) ≡ is_relative_lock_time s)
      × ((is_height_locked s && is_time_locked s) ≡ false)
unfolding is_height_locked is_time_locked
one_lock s = (ground arith, ground arith)

-- Rounding seconds up to intervals and reading the lock time back gives a time lock that covers
-- the seconds, as long as `seconds + 511` fits 32 bits.
pub from_seconds_ceil_locks :
    (seconds s : ℕ)
    → seconds + 511 < 2 ^ 32
    → from_seconds_ceil seconds ≡ sequence s
    → (n : ℕ) × (to_relative_lock_time s ≡ some (time n))
      × (seconds ≤ n * 512)
      × (n * 512 < seconds + 512)
unfolding from_seconds_ceil to_relative_lock_time
from_seconds_ceil_locks seconds s h e =
    ((seconds + 511) / 512, ground arith, ground arith, ground arith)

-- The error path panics on the 511 largest u32 values: the assertion there wraps around.
pub from_seconds_floor_panics :
    (seconds : ℕ)
    → 2 ^ 32 ≤ seconds + 511
    → seconds < 2 ^ 32
    → from_seconds_floor seconds ≡ panicked
unfolding from_seconds_floor
from_seconds_floor_panics seconds h k = ground arith
