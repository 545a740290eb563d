-- ===== src/Witness.antt =====
-- `Witness` of litecoin/src/blockdata/witness.rs: the elements in one byte vector, each behind its
-- length, and behind them the table of their positions, four bytes each. The table is in the byte
-- order of the machine; it is little-endian here.
pub mod Buffer
pub mod Layout
pub mod Fill
pub mod Push
pub mod Nth
pub mod Decode
pub mod Codec
pub mod Stack
pub mod Spend
pub mod Stored
use rust_litecoin.Prelude.{
  ℕ, zero, suc, ◌+◌, ◌-◌, ◌*◌, ◌^◌, Bool, true, false, List, [], ◌∷◌, ◌++◌, Option, none, some,
  length, take, drop, replicate, ltb, leb, ◌==◌, if◌then◌else◌,
}
use rust_litecoin.Wire.Codec.{Result, ok, err, panic, Write, ◌⊕◌, emit}
use rust_litecoin.Wire.Ints.{to_le_bytes, from_le_bytes}
use rust_litecoin.Wire.VarInt
use rust_litecoin.Witness.Buffer.{◌and_then◌, write_at, rotate_right_from, resize}

pub record Witness : Type 0 where
  pub content : List ℕ
  pub witness_elements : ℕ
  pub indices_start : ℕ

abbrev pub new : Witness
new = record { content = []; witness_elements = 0; indices_start = 0 }

-- `try_into().expect("Larger than u32")` panics on a larger value.
unfoldable pub encode_cursor : List ℕ → ℕ → ℕ → ℕ → Result (List ℕ)
encode_cursor bytes start_of_indices index value =
    if ltb value (2 ^ 32)
    then write_at (start_of_indices + index * 4) (to_le_bytes 4 value) bytes
    else err panic

unfoldable pub decode_cursor : List ℕ → ℕ → ℕ → Option ℕ
decode_cursor bytes start_of_indices index =
    let start = start_of_indices + index * 4 in
    if ltb (length bytes) (start + 4)
    then none
    else some (from_le_bytes (take 4 (drop start bytes)))

-- The bytes that a `VarInt` writes into a slice of its size
abbrev pub written : Write → List ℕ
written (ok (bytes, len)) = bytes
written (err e) = []

abbrev pub varint_bytes : ℕ → List ℕ
varint_bytes n = written (VarInt.encode n)

-- The length and the bytes of an element, written at `cursor`
unfoldable pub put_element : ℕ → List ℕ → List ℕ → Result (List ℕ)
put_element cursor elem content =
    write_at cursor (varint_bytes (length elem)) content and_then λ content.
    write_at (cursor + VarInt.size (length elem)) elem content

abbrev pub item_size : List ℕ → ℕ
item_size elem = VarInt.size (length elem) + length elem

abbrev pub content_size : List (List ℕ) → ℕ
content_size [] = 0
content_size (e ∷ es) = item_size e + content_size es

-- The loop of `from_slice` from its `i` and `cursor`
unfoldable pub fill : ℕ → ℕ → ℕ → List (List ℕ) → List ℕ → Result (List ℕ)
fill size i cursor [] content = ok content
fill size i cursor (elem ∷ elems) content = encode_cursor content size i cursor and_then λ content.
    put_element cursor elem content and_then λ content.
    fill size (i + 1) (cursor + item_size elem) elems content

abbrev pub finished : ℕ → ℕ → List ℕ → Witness
finished elements size content = record {
  content = content;
  witness_elements = elements;
  indices_start = size;
}

unfoldable pub from_slice : List (List ℕ) → Result Witness
from_slice elems =
    fill (content_size elems) 0 0 elems (replicate (content_size elems + length elems * 4) 0)
    and_then λ content. ok (finished (length elems) (content_size elems) content)

unfoldable pub push_slice : List ℕ → Witness → Result Witness
push_slice elem w =
    let elements = w.witness_elements + 1 in
    let end = w.indices_start in
    let start = w.indices_start + item_size elem in
    rotate_right_from end (item_size elem)
      (resize (length w.content + item_size elem + 4) w.content)
    and_then λ content. encode_cursor content start (elements - 1) end and_then λ content.
        put_element end elem content and_then λ content. ok (finished elements start content)

-- `clear`
unfoldable pub clear : Witness → Witness
clear w = new

unfoldable pub is_empty : Witness → Bool
is_empty w = w.witness_elements == 0

unfoldable pub len : Witness → ℕ
len w = w.witness_elements

-- `&content[start..start + n]`
unfoldable pub slice : List ℕ → ℕ → ℕ → Result (Option (List ℕ))
slice content start n =
    if leb (start + n) (length content) then ok (some (take n (drop start content))) else err panic

-- What follows the length that was read, or `None` where it is malformed
unfoldable pub element_behind : List ℕ → ℕ → Result (ℕ × List ℕ) → Result (Option (List ℕ))
element_behind content index (ok (n, rest)) = slice content (index + VarInt.size n) n
element_behind content index (err e) = ok none

-- `&self.content[index..]` panics behind the end.
unfoldable pub element_at : List ℕ → ℕ → Result (Option (List ℕ))
element_at content index =
    if leb index (length content)
    then element_behind content index (VarInt.decode (drop index content))
    else err panic

unfoldable pub at_position : List ℕ → Option ℕ → Result (Option (List ℕ))
at_position content none = ok none
at_position content (some pos) = element_at content pos

unfoldable pub nth : Witness → ℕ → Result (Option (List ℕ))
nth w index = at_position w.content (decode_cursor w.content w.indices_start index)

unfoldable pub last : Witness → Result (Option (List ℕ))
last w = if w.witness_elements == 0 then ok none else nth w (w.witness_elements - 1)

unfoldable pub second_to_last : Witness → Result (Option (List ℕ))
second_to_last w = if leb w.witness_elements 1 then ok none else nth w (w.witness_elements - 2)

unfoldable pub third_to_last : Witness → Result (Option (List ℕ))
third_to_last w = if leb w.witness_elements 2 then ok none else nth w (w.witness_elements - 3)

-- `iter().collect()`: `Iter::next` from its `current_index`, until it gives `None`. Every element
-- has four bytes in the table, so the length of the content is enough fuel (`to_vec-layout`).
unfoldable pub collect : ℕ → Witness → ℕ → Result (List (List ℕ))
collect zero w i = err panic
collect (suc fuel) w i = nth w i and_then λ next. elim next [
  | none ↦ ok []
  | some elem ↦ collect fuel w (i + 1) and_then λ rest. ok (elem ∷ rest)
]

unfoldable pub to_vec : Witness → Result (List (List ℕ))
to_vec w = collect (suc (length w.content)) w 0

unfoldable pub size : Witness → Result ℕ
size w = to_vec w and_then λ elems. ok (VarInt.size w.witness_elements + content_size elems)

-- The encoder writes the content without its table. `content_len` underflows where the table does
-- not fit, which panics.
unfoldable pub encode : Witness → Write
encode w =
    let content_len = length w.content - w.witness_elements * 4 in
    if leb (w.witness_elements * 4) (length w.content)
    then ok (
      varint_bytes w.witness_elements ++ take content_len w.content,
      content_len + VarInt.size w.witness_elements,
    )
    else err panic
