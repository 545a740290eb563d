-- ===== src/Pow/Target.antt =====
-- `Target`, `CompactTarget` and the retarget rule of litecoin/src/pow.rs, in a build without debug
-- assertions. `none` is a panic: a division by zero, or a clamp whose bounds are crossed.
pub mod Retarget
use Prim.Native.Nat.{bit_and}
use rust_litecoin.Prelude.{
  ℕ, ◌+◌, ◌-◌, ◌*◌, ◌/◌, ◌%◌, ◌^◌, Bool, true, false, not, List, ◌++◌, Option, none, some, take,
  drop, ltb, leb, ◌==◌, if◌then◌else◌,
}
use rust_litecoin.Wire.Ints as Ints
use rust_litecoin.Pow.U256 as U
use rust_litecoin.Pow.U256.{
  U256, is_zero, greater, low_u32, low_u64, saturating_to_u128, wrapping_shl, wrapping_shr,
  overflowing_mul,
}
use rust_litecoin.Pow.U256.Divide.{bits, div_rem, inverse}

-- `U256::from_le_bytes` and `to_le_bytes`
unfoldable pub from_le_bytes : List ℕ → U256
from_le_bytes a = record {
  high = Ints.from_le_bytes (drop 16 a);
  low = Ints.from_le_bytes (take 16 a);
}

unfoldable pub to_le_bytes : U256 → List ℕ
to_le_bytes u = Ints.to_le_bytes 16 u.low ++ Ints.to_le_bytes 16 u.high

-- `U256::from`
abbrev pub from_uint : ℕ → U256
from_uint n = record { high = 0; low = n }

-- A mantissa shifted by an exponent, whose sign bit makes the target zero.
of_mantissa : ℕ → ℕ → U256
of_mantissa mant expt = if ltb 0x7FFFFF mant then U.zero else wrapping_shl (from_uint mant) expt

unfoldable pub from_compact : ℕ → U256
unfolding of_mantissa
from_compact compact =
    let unshifted_expt = compact / 2 ^ 24 in
    let mantissa = compact % 2 ^ 24 in
    if leb unshifted_expt 3
    then of_mantissa (mantissa / 2 ^ (8 * (3 - unshifted_expt))) 0
    else of_mantissa mantissa (8 * (unshifted_expt - 3))

-- `compact & 0x0080_0000 != 0`: the mantissa gives up a byte. `|` meets no bit.
with_size : ℕ → ℕ → ℕ
with_size size compact =
    if compact / 2 ^ 23 % 2 == 1
    then compact / 2 ^ 8 + (size + 1) * 2 ^ 24
    else compact + size * 2 ^ 24

unfoldable pub to_compact_lossy : U256 → ℕ
unfolding with_size
to_compact_lossy t =
    let size = (bits t + 7) / 8 in
    with_size size (
      if leb size 3
      then low_u64 t * 2 ^ (8 * (3 - size)) % 2 ^ 32
      else low_u32 (wrapping_shr t (8 * (size - 3))))

-- `hash <= self.0`, for the bytes of a block hash
unfoldable pub is_met_by : U256 → List ℕ → Bool
unfolding from_le_bytes
is_met_by t hash = not (greater (from_le_bytes hash) t)

unfoldable pub to_work : U256 → Option U256
to_work t = inverse t

quotient_of : Option (U256 × U256) → Option U256
quotient_of none = none
quotient_of (some (q, r)) = some q

saturated : Option U256 → Option ℕ
saturated none = none
saturated (some d) = some (saturating_to_u128 d)

pub record Params : Type 0 where
  pub no_pow_retargeting : Bool
  pub pow_target_timespan : ℕ
  pub max_attainable_target : U256

-- `Target::MAX_ATTAINABLE_MAINNET`, and what the rule reads of `Params::MAINNET`
abbrev pub max_attainable_mainnet : U256
max_attainable_mainnet = record { high = 0x0ffff0 * 2 ^ 88; low = 0 }

abbrev pub mainnet : Params
mainnet = record {
  no_pow_retargeting = false;
  pow_target_timespan = 150 * 2016;
  max_attainable_target = max_attainable_mainnet;
}

unfoldable pub difficulty : U256 → Params → Option ℕ
unfolding quotient_of saturated
difficulty t params =
    if is_zero t then none else saturated (quotient_of (div_rem params.max_attainable_target t))

unfoldable pub min_transition_threshold : U256 → U256
min_transition_threshold t = wrapping_shr t 2

unfoldable pub max_transition_threshold_unchecked : U256 → U256
max_transition_threshold_unchecked t = wrapping_shl t 2

-- `cmp::min` gives its first argument where both are equal.
unfoldable pub max_transition_threshold : U256 → Params → U256
unfolding max_transition_threshold_unchecked
max_transition_threshold t params =
    if greater (max_transition_threshold_unchecked t) params.max_attainable_target
    then params.max_attainable_target
    else max_transition_threshold_unchecked t

-- `timespan.clamp(min_timespan, max_timespan)`, which panics where the bounds are crossed: the shift
-- of the upper one wraps.
unfoldable pub clamped : ℕ → Params → Option ℕ
clamped timespan params =
    let min_timespan = params.pow_target_timespan / 4 in
    let max_timespan = params.pow_target_timespan * 4 % 2 ^ 64 in
    if ltb max_timespan min_timespan
    then none
    else if ltb timespan min_timespan
    then some min_timespan
    else if ltb max_timespan timespan
    then some max_timespan
    else some timespan

retarget_by : U256 → Params → Option ℕ → Option U256
unfolding quotient_of
retarget_by prev params none = none
retarget_by prev params (some actual_timespan) = quotient_of (
    div_rem (overflowing_mul prev (from_uint actual_timespan)).0
      (from_uint params.pow_target_timespan))

-- `prev_target.0.mul(actual_timespan.into()).div(params.pow_target_timespan.into())`
unfoldable pub retarget : U256 → ℕ → Params → Option U256
unfolding retarget_by clamped
retarget prev timespan params = retarget_by prev params (clamped timespan params)

limited_to : U256 → Option U256 → Option ℕ
limited_to maximum none = none
limited_to maximum (some t) =
    if greater maximum t then some (to_compact_lossy t) else some (to_compact_lossy maximum)

unfoldable pub from_next_work_required : ℕ → ℕ → Params → Option ℕ
unfolding limited_to retarget max_transition_threshold from_compact
from_next_work_required last timespan params =
    if params.no_pow_retargeting
    then some last
    else limited_to (max_transition_threshold (from_compact last) params)
        (retarget (from_compact last) timespan params)
