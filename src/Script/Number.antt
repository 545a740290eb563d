-- ===== src/Script/Number.antt =====
-- Numbers in scripts: `write_scriptint`, `read_scriptint` and their relatives of
-- litecoin/src/blockdata/script/mod.rs. An i64 is a signed integer whose magnitude is written out; a
-- test of bit 7 of a byte is the parity of its quotient by 128.
pub mod Write
pub mod RoundTrip
pub mod Meaning
pub mod Minimal
use rust_litecoin.Prelude.{
  ℕ, zero, suc, ◌+◌, ◌-◌, ◌*◌, ◌/◌, ◌%◌, ◌^◌, Bool, true, false, not, ◌&&◌, ◌||◌, List, [], ◌∷◌,
  ◌++◌, Option, none, some, length, get_elem?, take, drop, ltb, leb, ◌==◌, if◌then◌else◌,
}
use rust_litecoin.Prelude.Int.{ℤ, pos, negsuc}
use rust_litecoin.Script.{
  Result, ok, err, panic, numeric_overflow, non_minimal_push, last, ◌and_script◌,
}

-- `unsigned_abs` and `n < 0`
abbrev pub unsigned_abs : ℤ → ℕ
unsigned_abs (pos n) = n
unsigned_abs (negsuc n) = suc n

abbrev pub is_negative : ℤ → Bool
is_negative (pos n) = false
is_negative (negsuc n) = true

abbrev pub is_zero : ℤ → Bool
is_zero (pos zero) = true
is_zero (pos (suc n)) = false
is_zero (negsuc n) = false

-- The number of a magnitude and a sign
abbrev pub signed : Bool → ℕ → ℤ
signed false n = pos n
signed true zero = pos zero
signed true (suc n) = negsuc n

-- `out[len] = b; len += 1`, which panics behind the end of the buffer
unfoldable pub store : ℕ → List ℕ × ℕ → Result (List ℕ × ℕ)
store b (out, len) =
    if ltb len (length out) then ok (take len out ++ b ∷ drop (suc len) out, suc len) else err panic

-- `b & 0x80 != 0`
unfoldable pub high_bit : ℕ → Bool
high_bit b = b / 128 % 2 == 1

abbrev pub sign_byte : Bool → ℕ
sign_byte true = 128
sign_byte false = 0

-- Behind the loop: the last byte, and one more when its sign bit is taken
unfoldable pub write_last : Bool → ℕ → List ℕ × ℕ → Result (List ℕ × ℕ)
write_last neg abs state =
    if high_bit abs
    then (store (abs % 256) state and_script λ state'. store (sign_byte neg) state')
    else store ((abs + sign_byte neg) % 256) state

-- The loop over the bytes, from the low one
unfoldable pub write_bytes : ℕ → Bool → ℕ → List ℕ × ℕ → Result (List ℕ × ℕ)
write_bytes zero neg abs state = err panic
write_bytes (suc fuel) neg abs state = elim (ltb 0xff abs) [
  | true ↦ store (abs % 256) state and_script λ state'. write_bytes fuel neg (abs / 256) state'
  | false ↦ write_last neg abs state
]

-- `write_scriptint`: the buffer of 8 bytes and the length. A magnitude of 64 bits leaves the loop
-- within 8 rounds.
unfoldable pub write_scriptint : List ℕ → ℤ → Result (List ℕ × ℕ)
write_scriptint out n =
    if is_zero n then ok (out, 0) else write_bytes 8 (is_negative n) (unsigned_abs n) (out, 0)

-- The fold of `scriptint_parse`, from the shift `sh` on
unfoldable pub fold_bytes : ℕ → ℕ → List ℕ → ℕ × ℕ
fold_bytes acc sh [] = (acc, sh)
fold_bytes acc sh (n ∷ ns) = fold_bytes (acc + n * 2 ^ sh) (sh + 8) ns

-- `scriptint_parse`, for at most 4 bytes
unfoldable pub scriptint_parse : List ℕ → Result ℤ
scriptint_parse v = elim (last v) [
  | none ↦ err panic
  | some top ↦
      if high_bit top
      then ok (signed true ((fold_bytes 0 0 v).0 % 2 ^ ((fold_bytes 0 0 v).1 - 1)))
      else ok (pos (fold_bytes 0 0 v).0)
]

-- The minimality test of `read_scriptint` for a last byte whose low bits are 0
unfoldable pub no_sign_conflict : List ℕ → Bool
no_sign_conflict v = elim (get_elem? v (length v - 2)) [
  | none ↦ true
  | some b ↦ leb (length v) 1 || not (high_bit b)
]

unfoldable pub read_scriptint : List ℕ → Result ℤ
read_scriptint v = elim (last v) [
  | none ↦ ok (pos 0)
  | some top ↦
      if ltb 4 (length v)
      then err numeric_overflow
      else if (top % 128 == 0) && no_sign_conflict v
      then err non_minimal_push
      else scriptint_parse v
]

unfoldable pub read_scriptint_non_minimal : List ℕ → Result ℤ
read_scriptint_non_minimal v =
    if length v == 0
    then ok (pos 0)
    else if ltb 4 (length v)
    then err numeric_overflow
    else scriptint_parse v

unfoldable pub all_zero : List ℕ → Bool
all_zero [] = true
all_zero (b ∷ bs) = (b == 0) && all_zero bs

-- `read_scriptbool`; `!0x80` keeps the low seven bits.
unfoldable pub read_scriptbool : List ℕ → Bool
read_scriptbool v = elim (last v) [
  | none ↦ false
  | some top ↦ not ((top % 128 == 0) && all_zero (take (length v - 1) v))
]
