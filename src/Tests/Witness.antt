-- ===== src/Tests/Witness.antt =====
-- The witness of a key path with an annex, and of a script path.
use rust_litecoin.Prelude.{
  ℕ, ◌^◌, ◌≤◌, ◌<◌, ◌≡◌, refl, List, [], ◌∷◌, ◌++◌, length, get_elem?, arith,
}
use rust_litecoin.Wire.Codec.{ok, read_exact, pure, ◌>>=◌}
use rust_litecoin.Wire.RoundTrip.{RoundTrip}
use rust_litecoin.Wire.VarInt
use rust_litecoin.Wire.Ints.{read_uint, to_le_bytes, from_le_bytes, emit_uint}
use rust_litecoin.Witness.{
  Witness, new, content_size, push_slice, len, nth, to_vec, encode, encode_cursor,
}
use rust_litecoin.Witness.Layout.{layout}
use rust_litecoin.Witness.Push.{push_slice-layout}
use rust_litecoin.Witness.Buffer.{write_at, rotate_left}
use rust_litecoin.Witness.Decode.{
  decode, resize_if_needed, read_elements, decode_elements, finish, required_len, checked_add,
  within_limit, read_into,
}
use rust_litecoin.Witness.Decode.Plain.{read_list}
use rust_litecoin.Witness.Decode.Loop.{decode-read_list}
use rust_litecoin.Witness.Codec.{IsValidWitness, RoundTrip-witness, decode-IsValidWitness}
use rust_litecoin.Witness.Stack.{bottom_up}
use rust_litecoin.Witness.Stored.{Reachable, start, pushed, Reachable-to_vec}
use rust_litecoin.Witness.Spend.{from_witness}
use rust_litecoin.Witness.Spend.Bip341.{spend_of, from_witness-spend_of}

abbrev elements : List (List ℕ)
elements = (0x30 ∷ 0x44 ∷ []) ∷ [] ∷ (0x50 ∷ 0x01 ∷ 0x02 ∷ []) ∷ []

elements-Fit : content_size elements ≤ 4_000_000
unfolding VarInt.size
elements-Fit = omega arith

elements-FitCursor : content_size elements < 2 ^ 32
elements-FitCursor = omega (arith, elements-Fit)

push_slice-layout_example :
    push_slice (0x51 ∷ []) (layout elements) ≡ ok (layout (elements ++ (0x51 ∷ []) ∷ []))
push_slice-layout_example = push_slice-layout (0x51 ∷ []) elements elements-FitCursor

RoundTrip-witness_example : RoundTrip (encode (layout elements)) decode (layout elements)
RoundTrip-witness_example = RoundTrip-witness elements elements-Fit

abbrev stack : List (List ℕ)
stack = (0x50 ∷ []) ∷ (0xC0 ∷ []) ∷ (0x51 ∷ []) ∷ []

stack-Fits : content_size (bottom_up stack) < 2 ^ 32
unfolding VarInt.size
stack-Fits = omega arith

from_witness-spend_of_example : from_witness (layout (bottom_up stack)) ≡ ok (spend_of stack)
from_witness-spend_of_example = from_witness-spend_of stack stack-Fits

abbrev three_bytes : List ℕ
three_bytes = 1 ∷ 2 ∷ 3 ∷ []

-- Two elements, of two bytes and of none, and one byte of what follows
abbrev bytes : List ℕ
bytes = 2 ∷ 2 ∷ 0x30 ∷ 0x44 ∷ 0 ∷ 0xFF ∷ []

decode-read_list_example : decode bytes ≡ (read_list >>= λ elems. pure (layout elems)) bytes
decode-read_list_example = decode-read_list bytes

abbrev decoded_bytes : Witness
decoded_bytes = record {
  content = 2 ∷ 0x30 ∷ 0x44 ∷ 0 ∷ 0 ∷ 0 ∷ 0 ∷ 0 ∷ 3 ∷ 0 ∷ 0 ∷ 0 ∷ [];
  witness_elements = 2;
  indices_start = 4;
}

decoded_bytes_lem : decode bytes ≡ ok (decoded_bytes, 0xFF ∷ [])
unfolding decode read_elements decode_elements finish required_len checked_add within_limit
    encode_cursor resize_if_needed read_into write_at rotate_left read_exact VarInt.size
    VarInt.decode VarInt.encode emit_uint read_uint to_le_bytes from_le_bytes
decoded_bytes_lem = refl

decode-IsValidWitness_example : IsValidWitness decoded_bytes
decode-IsValidWitness_example =
    decode-IsValidWitness bytes (0xFF ∷ []) decoded_bytes decoded_bytes_lem

one_push : push_slice (0x51 ∷ []) new ≡ ok (layout ((0x51 ∷ []) ∷ []))
one_push = push_slice-layout (0x51 ∷ []) [] (omega arith)

one-Reachable : Reachable (layout ((0x51 ∷ []) ∷ []))
unfolding VarInt.size
one-Reachable = pushed new (layout ((0x51 ∷ []) ∷ [])) (0x51 ∷ []) start (omega arith) one_push

Reachable-to_vec_example :
    (elems : List (List ℕ)) × (to_vec (layout ((0x51 ∷ []) ∷ [])) ≡ ok elems)
    × (len (layout ((0x51 ∷ []) ∷ [])) ≡ length elems)
    × ((i : ℕ) → nth (layout ((0x51 ∷ []) ∷ [])) i ≡ ok (get_elem? elems i))
Reachable-to_vec_example = Reachable-to_vec (layout ((0x51 ∷ []) ∷ [])) one-Reachable
