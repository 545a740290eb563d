-- ===== src/Witness/Decode.antt =====
-- The decoder of `Witness`: it leaves space for the table in front of the elements, and moves the
-- table behind them at the end.
pub mod Resize
pub mod Elements
pub mod Plain
pub mod Round
pub mod Loop
use rust_litecoin.Prelude.{
  ℕ, zero, suc, ◌+◌, ◌-◌, ◌*◌, ◌^◌, Bool, true, false, List, [], ◌∷◌, ◌++◌, Option, none, some,
  length, take, replicate, ltb, leb, ◌==◌, if◌then◌else◌,
}
use rust_litecoin.Wire.Codec.{
  Result, ok, err, panic, oversized_vector_allocation, max_vec_size, Read, pure, throw, ◌>>=◌,
  read_exact,
}
use rust_litecoin.Wire.VarInt
use rust_litecoin.Witness.{Witness, new, encode_cursor, varint_bytes, finished}
use rust_litecoin.Witness.Buffer.{◌and_then◌, write_at, rotate_left, resize}

-- The result of a step that does not read
abbrev pub lift : {A : Type 0} → Result A → Read A
lift (ok a) s = ok (a, s)
lift (err e) s = err e

-- `while new_len <= required_len { new_len *= 2; }`. The length at least doubles from one, so
-- `required_len` rounds are enough (`resize_if_needed_lem`).
unfoldable pub doubled : ℕ → ℕ → ℕ → Result ℕ
doubled zero new_len required_len = err panic
doubled (suc fuel) new_len required_len = elim (leb new_len required_len) [
  | true ↦ doubled fuel (new_len * 2) required_len
  | false ↦ ok new_len
]

unfoldable pub at_least_one : ℕ → ℕ
at_least_one n = if n == 0 then 1 else n

unfoldable pub resize_if_needed : List ℕ → ℕ → Result (List ℕ)
resize_if_needed vec required_len =
    if leb (length vec) required_len
    then (doubled (suc required_len) (at_least_one (length vec)) required_len and_then λ new_len.
        ok (resize new_len vec))
    else ok vec

-- `usize::checked_add` on 64 bits, `None` as the error of the decoder
unfoldable pub checked_add : ℕ → ℕ → Result ℕ
checked_add a b =
    if ltb (a + b) (2 ^ 64)
    then ok (a + b)
    else err (oversized_vector_allocation (2 ^ 64 - 1) max_vec_size)

unfoldable pub within_limit : ℕ → ℕ → Result ℕ
within_limit witness_index_space required_len =
    if ltb (max_vec_size + witness_index_space) required_len
    then err (oversized_vector_allocation required_len max_vec_size)
    else ok required_len

-- The length that the content needs for an element of `element_size` bytes
unfoldable pub required_len : ℕ → ℕ → ℕ → Result ℕ
required_len witness_index_space cursor element_size =
    checked_add cursor element_size and_then λ end.
    checked_add end (VarInt.size element_size) and_then λ end. within_limit witness_index_space end

-- `r.read_exact(&mut content[cursor..cursor + n])`
unfoldable pub read_into : ℕ → ℕ → List ℕ → Read (List ℕ)
read_into cursor n content =
    if leb (cursor + n) (length content)
    then (read_exact n >>= λ elem. lift (write_at cursor elem content))
    else throw panic

-- The loop over the elements, for the last `k` of them: the cursor and the content behind it
unfoldable pub read_elements : ℕ → ℕ → ℕ → ℕ → List ℕ → Read (ℕ × List ℕ)
read_elements witness_index_space i zero cursor content = pure (cursor, content)
read_elements witness_index_space i (suc k) cursor content = VarInt.decode >>= λ element_size.
    lift (required_len witness_index_space cursor element_size) >>= λ required.
    lift (
      encode_cursor content 0 i (cursor - witness_index_space) and_then λ content.
      resize_if_needed content required and_then λ content.
      write_at cursor (varint_bytes element_size) content)
    >>= λ content. read_into (cursor + VarInt.size element_size) element_size content >>= λ content.
        read_elements witness_index_space (i + 1) k
          (cursor + VarInt.size element_size + element_size) content

-- `truncate` and `rotate_left`
unfoldable pub finish : ℕ → ℕ → ℕ × List ℕ → Read Witness
finish witness_elements witness_index_space (cursor, content) =
    lift (rotate_left witness_index_space (take cursor content)) >>= λ content.
    pure (finished witness_elements (cursor - witness_index_space) content)

unfoldable pub decode_elements : ℕ → Read Witness
decode_elements witness_elements =
    read_elements (witness_elements * 4) 0 witness_elements (witness_elements * 4)
      (replicate (witness_elements * 4 + 128) 0)
    >>= finish witness_elements (witness_elements * 4)

unfoldable pub decode : Read Witness
decode = VarInt.decode >>= λ witness_elements.
    if ltb max_vec_size witness_elements
    then throw (oversized_vector_allocation witness_elements max_vec_size)
    else if witness_elements == 0
    then pure new
    else decode_elements witness_elements
