-- ===== src/Mweb/Varint.antt =====
-- The base-128 numbers of litecoin/src/blockdata/mimblewimble.rs: `read_amount` and
-- `write_amount` on an i64, `read_compact_varint` and `write_compact_varint` on a u64.
-- The two readers are one loop with another maximum, and so are the two writers.
pub mod RoundTrip
use rust_litecoin.Prelude.{
  ℕ, zero, suc, ◌+◌, ◌-◌, ◌*◌, ◌/◌, ◌%◌, ◌^◌, ◌≤◌, ◌<◌, ◌≡◌, refl, List, [], ◌∷◌, ◌++◌, length, leb,
  ltb, ◌==◌, if◌then◌else◌, arith, tests, Bool-cases, inl, inr,
}
use rust_litecoin.Prelude.Int.{ℤ, pos, negsuc}
use rust_litecoin.Wire.Codec.{
  Error, Result, ok, err, panic, parse_failed, unexpected_eof, Read, pure, ◌>>=◌, Write,
}

abbrev pub i64_max : ℕ
i64_max = 2 ^ 63 - 1

abbrev pub u64_max : ℕ
u64_max = 2 ^ 64 - 1

abbrev overflow : Error
overflow = parse_failed "MWEB varint overflow"

-- The loop from its `n`, on the bytes that are left. `n << 7` leaves the low seven bits free, so
-- `|` is `+`; `ch & 0x80` is set in the bytes from 128 on.
unfoldable pub read_loop : ℕ → ℕ → Read ℕ
read_loop limit n [] = err unexpected_eof
read_loop limit n (ch ∷ s) =
    let n' = n * 128 + ch % 128 in
    let more = read_loop limit (n' + 1) s in
    if ltb (limit / 128) n
    then err overflow
    else if leb 128 ch
    then (if n' == limit then err overflow else more)
    else ok (n', s)

unfoldable pub read_compact_varint : Read ℕ
unfolding read_loop
read_compact_varint = read_loop u64_max 0

-- The loop never makes `n` negative.
unfoldable pub read_amount : Read ℤ
unfolding read_loop
read_amount = read_loop i64_max 0 >>= λ n. pure (pos n)

-- The loop of the writers from its `n` and `len`. `tmp` holds the groups so far, the last one
-- first, which is the order in which they are written; `slots` is what is left of the array of
-- ten, and a write behind its end panics.
unfoldable pub write_loop : ℕ → ℕ → ℕ → List ℕ → Result (List ℕ)
write_loop zero len n tmp = err panic
write_loop (suc slots) len n tmp =
    let tmp' = (n % 128 + (if len == 0 then 0 else 128)) ∷ tmp in
    let more = write_loop slots (len + 1) (n / 128 - 1) tmp' in if leb n 0x7f then ok tmp' else more

-- All groups are written and counted.
abbrev write_groups : Result (List ℕ) → Write
write_groups (ok tmp) = ok (tmp, length tmp)
write_groups (err e) = err e

unfoldable pub write_compact_varint : ℕ → Write
unfolding write_loop
write_compact_varint value = write_groups (write_loop 10 0 value [])

-- A negative `n` is at most 0x7f: its low seven bits are written and nothing else.
unfoldable pub write_amount : ℤ → Write
unfolding write_loop
write_amount (pos n) = write_groups (write_loop 10 0 n [])
write_amount (negsuc m) = write_groups (ok ((127 - m % 128) ∷ []))
