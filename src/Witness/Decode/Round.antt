-- ===== src/Witness/Decode/Round.antt =====
-- One round of the decoder's loop, and what follows the last one.
use rust_litecoin.Prelude.{
  ℕ, suc, ◌+◌, ◌-◌, ◌*◌, ◌≤◌, ◌≡◌, refl, sym, ap, ◌∙◌, List, [], ◌∷◌, ◌++◌, inl, inr, length, take,
  arith, length-append, append_assoc, append-nil, le→leb,
}
use rust_litecoin.Wire.Codec.{ok, max_vec_size, ◌>>=◌, read_exact}
use rust_litecoin.Wire.Ints.{to_le_bytes, length-to_le_bytes}
use rust_litecoin.Wire.VarInt
use rust_litecoin.Witness.{content_size, varint_bytes, encode_cursor}
use rust_litecoin.Witness.Buffer.{
  ◌and_then◌, write_at, rotate_left, take_at, drop_at, length-replicate, replicate_add,
}
use rust_litecoin.Witness.Fill.{zeros}
use rust_litecoin.Witness.Layout.{
  items, table, layout, length-items, length-table, items-append, table-append, length-varint_bytes,
}
use rust_litecoin.Witness.Decode.{required_len, resize_if_needed, read_elements, finish}
use rust_litecoin.Witness.Decode.Elements.{Result-cases, make_item, read_into-middle}
use rust_litecoin.Witness.Decode.Plain.{required_len-fits}

-- Behind the loop the table moves to the end.
pub finish_lem :
    (ys : List (List ℕ)) (elements space cursor : ℕ) (room s : List ℕ)
    → elements ≡ length ys
    → space ≡ length ys * 4
    → cursor ≡ space + content_size ys
    → finish elements space (cursor, table 0 ys ++ (items ys ++ room)) s ≡ ok (layout ys, s)
unfolding finish rotate_left
finish_lem ys elements space cursor room s e f g =
    let regroup : table 0 ys ++ (items ys ++ room) ≡ (table 0 ys ++ items ys) ++ room =
      sym (append_assoc (table 0 ys) (items ys) room) in
    let kept : take cursor (table 0 ys ++ (items ys ++ room)) ≡ table 0 ys ++ items ys =
      ap (λ xs. take cursor xs) regroup
      ∙ take_at cursor (table 0 ys ++ items ys) room (
          omega (
            arith,
            f,
            g,
            length-append (table 0 ys) (items ys),
            length-table 0 ys,
            length-items ys,
          )) in
    let at_table : space ≡ length (table 0 ys) = omega (arith, f, length-table 0 ys) in
    let fits =
      le→leb space (length (table 0 ys ++ items ys))
        (omega (arith, at_table, length-append (table 0 ys) (items ys))) in
    let start : cursor - space ≡ content_size ys = omega (arith, g) in
    rw
      (
        kept,
        fits,
        take_at space (table 0 ys) (items ys) at_table,
        drop_at space (table 0 ys) (items ys) at_table,
        start,
        e,
      )
      refl

-- The content with one more element in it
pub next_content :
    (ys : List (List ℕ)) (elem blank room : List ℕ)
    → (table 0 ys ++ (to_le_bytes 4 (content_size ys) ++ (blank ++ items ys)))
        ++ (varint_bytes (length elem) ++ (elem ++ room))
      ≡ table 0 (ys ++ elem ∷ []) ++ (blank ++ (items (ys ++ elem ∷ []) ++ room))
next_content ys elem blank room =
    let pos = to_le_bytes 4 (content_size ys) in
    let positions : table 0 (ys ++ elem ∷ []) ≡ table 0 ys ++ (pos ++ []) =
      table-append 0 ys (elem ∷ [])
      ∙ ap (λ n. table 0 ys ++ (to_le_bytes 4 n ++ [])) (omega arith) in
    rw (positions, items-append ys (elem ∷ [])) (simp (append_assoc, append-nil))

-- A round whose writes succeed goes on with the bytes of its element.
pub round_step :
    (count n index value space cursor required : ℕ)
    (front old room' content split_content s s1 : List ℕ)
    → VarInt.decode s ≡ ok (n, s1)
    → required_len space cursor n ≡ ok required
    → cursor - space ≡ value
    → content ≡ split_content
    → (encode_cursor split_content 0 index value and_then λ content.
        resize_if_needed content required and_then λ content.
        write_at cursor (varint_bytes n) content)
      ≡ ok (front ++ (varint_bytes n ++ (old ++ room')))
    → cursor ≡ length front
    → length old ≡ n
    → read_elements space index (suc count) cursor content s
      ≡ (read_exact n >>= λ elem.
            read_elements space
              (index + 1)
              count
              (cursor + VarInt.size n + n)
              (front ++ (varint_bytes n ++ (elem ++ room'))))
          s1
unfolding read_elements
round_step count n index value space cursor required front old room' content split_content s s1 got
      few e f made start size =
    let prefix = varint_bytes n in
    let regroup : front ++ (prefix ++ (old ++ room')) ≡ (front ++ prefix) ++ (old ++ room') =
      sym (append_assoc front prefix (old ++ room')) in
    let read =
      read_into-middle (cursor + VarInt.size n) n (front ++ prefix) old room' s1
        (omega (arith, start, length-append front prefix, length-varint_bytes n)) size in
    rw (◌>>=◌, got, few, e, f, made, regroup, read)
      (elim (Result-cases (read_exact n s1)) [
        | inr (x, stops) ↦ rw (◌>>=◌, stops) refl
        | inl ((elem, s2), reads) ↦
            rw (◌>>=◌, reads, append_assoc front prefix (elem ++ room')) refl
      ])

-- A round for an element that fits
pub round_lem :
    (count n : ℕ) (ys : List (List ℕ)) (space used : ℕ) (room s s1 : List ℕ)
    → space ≡ (length ys + suc count) * 4
    → used ≡ content_size ys
    → length ys + suc count ≤ max_vec_size
    → VarInt.decode s ≡ ok (n, s1)
    → used + VarInt.size n + n ≤ max_vec_size
    → (room' : List ℕ) × (read_elements space
          (length ys)
          (suc count)
          (space + used)
          (table 0 ys ++ (zeros (suc count * 4) ++ (items ys ++ room)))
          s
        ≡ (read_exact n >>= λ elem.
              read_elements space (length ys + 1) count (space + used + VarInt.size n + n) (
                (table 0 ys ++ (to_le_bytes 4 (content_size ys) ++ (zeros (count * 4) ++ items ys)))
                ++ (varint_bytes n ++ (elem ++ room'))))
            s1)
round_lem count n ys space used room s s1 f h few got fits =
    let pos = to_le_bytes 4 (content_size ys) in
    let blank = zeros (count * 4) in
    let value : space + used - space ≡ content_size ys = omega (arith, h) in
    let split : zeros (suc count * 4) ++ (items ys ++ room)
        ≡ zeros 4 ++ (blank ++ (items ys ++ room)) =
      ap (λ xs. xs ++ (items ys ++ room)) (ap zeros (omega arith) ∙ replicate_add 4 (count * 4) 0)
      ∙ append_assoc (zeros 4) blank (items ys ++ room) in
    let cursor : space + used ≡ length (table 0 ys) + 4 + length blank + length (items ys) =
      omega (arith, f, h, length-table 0 ys, length-items ys, length-replicate (count * 4) 0) in
    let (old, room', size, made) =
      make_item (length ys) (content_size ys) (space + used + n + VarInt.size n) (space + used) n
        (table 0 ys) (zeros 4) blank (items ys) room (sym (length-table 0 ys)) refl
        (omega (arith, h, fits)) cursor refl in
    (
      room',
      round_step count n (length ys) (content_size ys) space (space + used)
          (space + used + n + VarInt.size n) (table 0 ys ++ (pos ++ (blank ++ items ys))) old room'
          (table 0 ys ++ (zeros (suc count * 4) ++ (items ys ++ room)))
          (table 0 ys ++ (zeros 4 ++ (blank ++ (items ys ++ room)))) s s1 got
          (required_len-fits space used n fits (omega (arith, f, few))) value
          (ap (λ xs. table 0 ys ++ xs) split) made
          (omega (
            arith,
            cursor,
            length-append (table 0 ys) (pos ++ (blank ++ items ys)),
            length-append pos (blank ++ items ys),
            length-append blank (items ys),
            length-to_le_bytes 4 (content_size ys),
          ))
          size,
    )
