-- ===== src/Witness/Fill.antt =====
-- `from_slice` writes the layout of its elements.
use rust_litecoin.Prelude.{
  ℕ, suc, ◌+◌, ◌*◌, ◌^◌, ◌<◌, ◌≡◌, refl, sym, ap, ◌∙◌, List, [], ◌∷◌, ◌++◌, length, replicate,
  arith, length-append, append_assoc, lt→ltb, take, drop, take-append-drop, length-take,
  length-drop,
}
use rust_litecoin.Wire.Codec.{Result, ok, err}
use rust_litecoin.Wire.Ints.{to_le_bytes, length-to_le_bytes}
use rust_litecoin.Wire.VarInt
use rust_litecoin.Witness.{
  varint_bytes, item_size, content_size, encode_cursor, put_element, fill, from_slice,
}
use rust_litecoin.Witness.Buffer.{
  ◌and_then◌, write_at, write_at-middle, length-replicate, replicate_add,
}
use rust_litecoin.Witness.Layout.{item, items, table, layout, length-varint_bytes, length-item}

-- A position is written over four bytes.
pub encode_cursor-middle :
    (start index value : ℕ) (front old back : List ℕ)
    → start + index * 4 ≡ length front
    → length old ≡ 4
    → value < 2 ^ 32
    → encode_cursor (front ++ (old ++ back)) start index value
      ≡ ok (front ++ (to_le_bytes 4 value ++ back))
unfolding encode_cursor
encode_cursor-middle start index value front old back e f h = rw (lt→ltb value (2 ^ 32) h) (
    write_at-middle (start + index * 4) front old (to_le_bytes 4 value) back e
      (length-to_le_bytes 4 value ∙ sym f))

-- An element is written over as many bytes as it takes.
pub put_element-middle :
    (cursor : ℕ) (front old elem back : List ℕ)
    → cursor ≡ length front
    → length old ≡ item_size elem
    → put_element cursor elem (front ++ (old ++ back)) ≡ ok (front ++ (item elem ++ back))
unfolding put_element
put_element-middle cursor front old elem back e f =
    let n = VarInt.size (length elem) in
    let prefix = varint_bytes (length elem) in
    let split : front ++ (old ++ back) ≡ front ++ (take n old ++ (drop n old ++ back)) =
      ap (λ xs. front ++ (xs ++ back)) (sym (take-append-drop n old))
      ∙ ap (λ xs. front ++ xs) (append_assoc (take n old) (drop n old) back) in
    let first =
      write_at-middle cursor front (take n old) prefix (drop n old ++ back) e
        (omega (arith, length-varint_bytes (length elem), length-take n old, f)) in
    let regroup = sym (append_assoc front prefix (drop n old ++ back)) in
    let second =
      write_at-middle (cursor + n) (front ++ prefix) (drop n old) elem back
        (omega (arith, e, length-append front prefix, length-varint_bytes (length elem)))
        (omega (arith, length-drop n old, f)) in
    rw (split, first)
      (ap (λ xs. write_at (cursor + n) elem xs) regroup
        ∙ second
        ∙ ap ok (
            append_assoc front prefix (elem ++ back)
            ∙ ap (λ xs. front ++ xs) (sym (append_assoc prefix elem back))))

abbrev pub zeros : ℕ → List ℕ
zeros n = replicate n 0

-- One round: the position of an element, and the element.
pub fill_step :
    (size i cursor : ℕ) (a t elem room more : List ℕ)
    → cursor ≡ length a
    → length t ≡ i * 4
    → cursor + item_size elem + length room ≡ size
    → cursor < 2 ^ 32
    → (encode_cursor
          (a ++ ((zeros (item_size elem) ++ room) ++ (t ++ (zeros 4 ++ more))))
          size
          i
          cursor
        and_then λ content. put_element cursor elem content)
      ≡ ok ((a ++ item elem) ++ (room ++ ((t ++ to_le_bytes 4 cursor) ++ more)))
fill_step size i cursor a t elem room more e f g h =
    let blank = zeros (item_size elem) in
    let blank_size = length-replicate (item_size elem) 0 in
    let pos = to_le_bytes 4 cursor in
    let before : a ++ ((blank ++ room) ++ (t ++ (zeros 4 ++ more)))
        ≡ (a ++ (blank ++ (room ++ t))) ++ (zeros 4 ++ more) =
      simp append_assoc in
    let between : (a ++ (blank ++ (room ++ t))) ++ (pos ++ more)
        ≡ a ++ (blank ++ (room ++ (t ++ (pos ++ more)))) =
      simp append_assoc in
    let after : a ++ (item elem ++ (room ++ (t ++ (pos ++ more))))
        ≡ (a ++ item elem) ++ (room ++ ((t ++ pos) ++ more)) =
      simp append_assoc in
    let first =
      encode_cursor-middle size i cursor (a ++ (blank ++ (room ++ t))) (zeros 4) more
        (omega (
          arith,
          e,
          f,
          g,
          blank_size,
          length-append a (blank ++ (room ++ t)),
          length-append blank (room ++ t),
          length-append room t,
        ))
        refl h in
    let second =
      put_element-middle cursor a blank elem (room ++ (t ++ (pos ++ more))) e blank_size in
    ap (λ xs. encode_cursor xs size i cursor and_then λ content. put_element cursor elem content)
      before
    ∙ ap (λ r. r and_then λ content. put_element cursor elem content) first
    ∙ ap (λ xs. put_element cursor elem xs) between
    ∙ second
    ∙ ap ok after

pub and_then_assoc :
    {A B C : Type 0} (r : Result A) (f : A → Result B) (g : B → Result C)
    → (r and_then f) and_then g ≡ (r and_then λ x. f x and_then g)
and_then_assoc (ok a) f g = refl
and_then_assoc (err e) f g = refl

-- The loop fills the blank parts for the elements and for their positions.
fill_lem :
    (size i cursor : ℕ) (a t : List ℕ) (es : List (List ℕ))
    → cursor ≡ length a
    → length t ≡ i * 4
    → cursor + content_size es ≡ size
    → size < 2 ^ 32
    → fill size i cursor es (a ++ (zeros (content_size es) ++ (t ++ zeros (length es * 4))))
      ≡ ok (a ++ (items es ++ (t ++ table cursor es)))
unfolding fill
fill_lem size i cursor a t [] e f g h = refl
fill_lem size i cursor a t (elem ∷ es) e f g h =
    let pos = to_le_bytes 4 cursor in
    let room = zeros (content_size es) in
    let more = zeros (length es * 4) in
    let continue : List ℕ → Result (List ℕ) =
      λ content. fill size (i + 1) (cursor + item_size elem) es content in
    let blank : zeros (item_size elem + content_size es) ≡ zeros (item_size elem) ++ room =
      replicate_add (item_size elem) (content_size es) 0 in
    let blank_table : zeros (suc (length es) * 4) ≡ zeros 4 ++ more =
      ap zeros (omega arith) ∙ replicate_add 4 (length es * 4) 0 in
    let step =
      fill_step size i cursor a t elem room more e f
        (omega (arith, g, length-replicate (content_size es) 0)) (omega (arith, g, h)) in
    let rest =
      fill_lem size (i + 1) (cursor + item_size elem) (a ++ item elem) (t ++ pos) es
        (omega (arith, e, length-append a (item elem), length-item elem))
        (omega (arith, f, length-append t pos, length-to_le_bytes 4 cursor)) (omega (arith, g)) h in
    let regroup : (a ++ item elem)
          ++ (items es ++ ((t ++ pos) ++ table (cursor + item_size elem) es))
        ≡ a ++ (items (elem ∷ es) ++ (t ++ table cursor (elem ∷ es))) =
      simp append_assoc in
    ap
      (λ xs. encode_cursor xs size i cursor and_then λ content.
        put_element cursor elem content and_then continue)
      (ap (λ xs. a ++ (xs ++ (t ++ zeros (suc (length es) * 4)))) blank
        ∙ ap (λ xs. a ++ ((zeros (item_size elem) ++ room) ++ (t ++ xs))) blank_table)
    ∙ sym (
        and_then_assoc
          (encode_cursor (a ++ ((zeros (item_size elem) ++ room) ++ (t ++ (zeros 4 ++ more)))) size
            i cursor)
          (λ content. put_element cursor elem content) continue)
    ∙ ap (λ r. r and_then continue) step
    ∙ rest
    ∙ ap ok regroup

-- `from_slice` gives the layout of its elements and does not panic, for elements that take less
-- than 2 ^ 32 bytes with their lengths.
pub from_slice-layout :
    (es : List (List ℕ)) → content_size es < 2 ^ 32 → from_slice es ≡ ok (layout es)
unfolding from_slice
from_slice-layout es h =
    let blank = replicate_add (content_size es) (length es * 4) 0 in
    rw (blank, fill_lem (content_size es) 0 0 [] [] es refl refl (omega arith) h) refl
