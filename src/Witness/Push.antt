-- ===== src/Witness/Push.antt =====
-- `push_slice` appends an element to the layout.
use rust_litecoin.Prelude.{
  ℕ, ◌+◌, ◌-◌, ◌^◌, ◌<◌, ◌≡◌, refl, sym, ap, ◌∙◌, List, [], ◌∷◌, ◌++◌, length, arith, length-append,
  append_assoc, append-nil,
}
use rust_litecoin.Wire.Codec.{Result, ok}
use rust_litecoin.Wire.Ints.{to_le_bytes}
use rust_litecoin.Witness.{
  Witness, item_size, content_size, encode_cursor, put_element, finished, push_slice,
}
use rust_litecoin.Witness.Buffer.{
  ◌and_then◌, rotate_right_from, resize, rotate_right_from-middle, resize_grow, length-replicate,
  replicate_add,
}
use rust_litecoin.Witness.Fill.{and_then_assoc, fill_step, zeros}
use rust_litecoin.Witness.Layout.{
  item, items, table, layout, length-items, length-table, items-append, table-append,
  content_size-append,
}

-- The vector after `resize` and `rotate_right`: blank bytes for the element behind the elements,
-- and for its position behind the table.
make_room :
    (n s : ℕ) (front table : List ℕ)
    → n ≡ length front
    → rotate_right_from n s (resize (length (front ++ table) + s + 4) (front ++ table))
      ≡ ok (front ++ ((zeros s ++ []) ++ (table ++ (zeros 4 ++ []))))
make_room n s front table e =
    let grown : resize (length (front ++ table) + s + 4) (front ++ table)
        ≡ front ++ ((table ++ zeros 4) ++ zeros s) =
      ap (λ k. resize k (front ++ table)) (omega arith)
      ∙ resize_grow (4 + s) (front ++ table)
      ∙ ap (λ xs. (front ++ table) ++ xs) (replicate_add 4 s 0)
      ∙ append_assoc front table (zeros 4 ++ zeros s)
      ∙ ap (λ xs. front ++ xs) (sym (append_assoc table (zeros 4) (zeros s))) in
    let regroup : front ++ (zeros s ++ (table ++ zeros 4))
        ≡ front ++ ((zeros s ++ []) ++ (table ++ (zeros 4 ++ []))) =
      simp append-nil in
    rw grown (
      rotate_right_from-middle n s front (table ++ zeros 4) (zeros s) e (sym (length-replicate s 0))
      ∙ ap ok regroup)

-- The witness that the new parts make up is the layout with one more element.
layout_push :
    (elem : List ℕ) (xs : List (List ℕ))
    → finished
        (length xs + 1)
        (content_size xs + item_size elem)
        ((items xs ++ item elem) ++ ([] ++ ((table 0 xs ++ to_le_bytes 4 (content_size xs)) ++ [])))
      ≡ layout (xs ++ elem ∷ [])
layout_push elem xs =
    let elements : length xs + 1 ≡ length (xs ++ elem ∷ []) =
      omega (arith, length-append xs (elem ∷ [])) in
    let start : content_size xs + item_size elem ≡ content_size (xs ++ elem ∷ []) =
      omega (arith, content_size-append xs (elem ∷ [])) in
    let back : items xs ++ item elem ≡ items (xs ++ elem ∷ []) =
      ap (λ ys. items xs ++ ys) (sym (append-nil (item elem)))
      ∙ sym (items-append xs (elem ∷ [])) in
    let positions : (table 0 xs ++ to_le_bytes 4 (content_size xs)) ++ []
        ≡ table 0 (xs ++ elem ∷ []) =
      append_assoc (table 0 xs) (to_le_bytes 4 (content_size xs)) []
      ∙ ap (λ n. table 0 xs ++ (to_le_bytes 4 n ++ [])) (omega arith)
      ∙ sym (table-append 0 xs (elem ∷ [])) in
    rw (elements, start, back, positions) refl

-- `push_slice` on the layout of a list of elements gives the layout with the new element at the end
-- and does not panic, for elements that take less than 2 ^ 32 bytes with their lengths.
pub push_slice-layout :
    (elem : List ℕ) (xs : List (List ℕ))
    → content_size xs < 2 ^ 32
    → push_slice elem (layout xs) ≡ ok (layout (xs ++ elem ∷ []))
unfolding push_slice
push_slice-layout elem xs h =
    let end = content_size xs in
    let room = make_room end (item_size elem) (items xs) (table 0 xs) (sym (length-items xs)) in
    let index : length xs + 1 - 1 ≡ length xs = omega arith in
    let step =
      fill_step (end + item_size elem) (length xs) end (items xs) (table 0 xs) elem [] []
        (sym (length-items xs)) (length-table 0 xs) (omega arith) h in
    let done : List ℕ → Result Witness =
      λ content. ok (finished (length xs + 1) (end + item_size elem) content) in
    rw (room, index)
      (sym (
          and_then_assoc
            (encode_cursor
              (items xs ++ ((zeros (item_size elem) ++ []) ++ (table 0 xs ++ (zeros 4 ++ []))))
              (end + item_size elem) (length xs) end)
            (λ content. put_element end elem content) done)
        ∙ ap (λ r. r and_then done) step
        ∙ ap ok (layout_push elem xs))
