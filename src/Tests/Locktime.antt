-- ===== src/Tests/Locktime.antt =====
-- Lock times and sequence numbers at concrete values.
use rust_litecoin.Prelude.{◌≡◌, arith}
use rust_litecoin.Locktime.Relative
use rust_litecoin.Locktime.Sequence

from_seconds_ceil_wraps_example : Relative.from_seconds_ceil 4_294_967_295 ≡ Relative.intervals 0
from_seconds_ceil_wraps_example =
    Relative.from_seconds_ceil_wraps 4_294_967_295 (omega arith) (omega arith)

from_seconds_floor_panics_example : Sequence.from_seconds_floor 4_294_967_000 ≡ Sequence.panicked
from_seconds_floor_panics_example =
    Sequence.from_seconds_floor_panics 4_294_967_000 (omega arith) (omega arith)
