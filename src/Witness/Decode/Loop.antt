-- ===== src/Witness/Decode/Loop.antt =====
-- The decoder of `Witness` computes what the plain decoder computes.
use rust_litecoin.Prelude.{
  ℕ, zero, suc, ◌+◌, ◌*◌, ◌≤◌, ◌≡◌, refl, sym, ap, ◌∙◌, List, [], ◌∷◌, ◌++◌, inl, inr, true, false,
  length, ltb, ◌==◌, ==_iff, arith, tests, length-append, append_assoc, append-nil, ltb→ge,
  Bool-cases,
}
use rust_litecoin.Wire.Codec.{ok, max_vec_size, Read, pure, ◌>>=◌, read_exact}
use rust_litecoin.Wire.Ints.{to_le_bytes}
use rust_litecoin.Wire.VarInt
use rust_litecoin.Witness.{content_size, varint_bytes}
use rust_litecoin.Witness.Buffer.{replicate_add}
use rust_litecoin.Witness.Fill.{zeros}
use rust_litecoin.Witness.Layout.{items, table, layout, content_size-append}
use rust_litecoin.Witness.Decode.{read_elements, finish, decode_elements, decode}
use rust_litecoin.Witness.Decode.Elements.{Result-cases, read_exact-length}
use rust_litecoin.Witness.Decode.Plain.{read_items, read_list, required_len-refused}
use rust_litecoin.Witness.Decode.Round.{finish_lem, next_content, round_lem}

-- A round, and the rounds behind it
loop_step :
    (count n : ℕ) (ys : List (List ℕ)) (elements space used : ℕ) (s s1 : List ℕ)
    (rounds : Read (ℕ × List ℕ)) (rest : List ℕ → Read (ℕ × List ℕ))
    → rounds s ≡ (read_exact n >>= rest) s1
    → VarInt.decode s ≡ ok (n, s1)
    → ltb max_vec_size (used + VarInt.size n + n) ≡ false
    → ((elem s2 : List ℕ)
        → length elem ≡ n
        → (rest elem >>= finish elements space) s2
          ≡ (read_items space (used + VarInt.size n + n) count >>= λ zs.
                pure (layout ((ys ++ elem ∷ []) ++ zs)))
              s2)
    → (rounds >>= finish elements space) s
      ≡ (read_items space used (suc count) >>= λ zs. pure (layout (ys ++ zs))) s
unfolding read_items
loop_step count n ys elements space used s s1 rounds rest round got small later =
    rw (◌>>=◌, round, got, small)
      (elim (Result-cases (read_exact n s1)) [
        | inr (x, stops) ↦ rw (◌>>=◌, stops) refl
        | inl ((elem, s2), reads) ↦
            rw (◌>>=◌, reads)
              (later elem s2 (read_exact-length n s1 elem s2 reads) ∙ next_elem elem s2)
      ])
  where
    count_items : Read (List (List ℕ))
    count_items = read_items space (used + VarInt.size n + n) count

    next_elem :
        (elem s2 : List ℕ)
        → (count_items >>= λ zs. pure (layout ((ys ++ elem ∷ []) ++ zs))) s2
          ≡ (count_items >>= (λ zs. pure (elem ∷ zs)) >>= λ zs. pure (layout (ys ++ zs))) s2
    next_elem elem s2 = elim (Result-cases (count_items s2)) [
      | inr (x, stops) ↦ rw (◌>>=◌, stops) refl
      | inl ((zs, s3), reads) ↦ rw (◌>>=◌, reads, append_assoc ys (elem ∷ []) zs) refl
    ]

-- The rounds behind the elements `ys`, for the last `count` ones
loop_lem :
    (count : ℕ) (ys : List (List ℕ)) (elements space used : ℕ) (room s : List ℕ)
    → elements ≡ length ys + count
    → space ≡ elements * 4
    → elements ≤ max_vec_size
    → used ≡ content_size ys
    → used ≤ max_vec_size
    → (read_elements space
            (length ys)
            count
            (space + used)
            (table 0 ys ++ (zeros (count * 4) ++ (items ys ++ room)))
          >>= finish elements space)
        s
      ≡ (read_items space used count >>= λ zs. pure (layout (ys ++ zs))) s
unfolding read_items read_elements
loop_lem zero ys elements space used room s e f g h fits =
    let all : layout ys ≡ layout (ys ++ []) = ap layout (sym (append-nil ys)) in
    finish_lem ys elements space (space + used) room s (omega (arith, e)) (omega (arith, e, f))
      (omega (arith, h))
    ∙ ap (λ w. ok (w, s)) all
loop_lem (suc count) ys elements space used room s e f g h fits =
    elim (Result-cases (VarInt.decode s)) [
      | inr (x, got) ↦ rw (◌>>=◌, got) refl
      | inl ((n, s1), got) ↦ elim (Bool-cases (ltb max_vec_size (used + VarInt.size n + n))) [
        | inl large ↦ rw (◌>>=◌, got, large, required_len-refused space used n (omega tests)) refl
        | inr small ↦
            let fits' = ltb→ge max_vec_size (used + VarInt.size n + n) small in
            let (room', round) =
              round_lem count n ys space used room s s1 (omega (arith, e, f)) h
                (omega (arith, e, g)) got fits' in
            let front =
              table 0 ys ++ (to_le_bytes 4 (content_size ys) ++ (zeros (count * 4) ++ items ys)) in
            loop_step count n ys elements space used s s1
              (read_elements space (length ys) (suc count) (space + used)
                (table 0 ys ++ (zeros (suc count * 4) ++ (items ys ++ room))))
              (λ elem.
                read_elements space (length ys + 1) count (space + used + VarInt.size n + n)
                  (front ++ (varint_bytes n ++ (elem ++ room'))))
              round got small
              (λ elem s2 size.
                let more = ys ++ elem ∷ [] in
                let index : length ys + 1 ≡ length more =
                  omega (arith, length-append ys (elem ∷ [])) in
                let cursor : space + used + VarInt.size n + n ≡ space + (used + VarInt.size n + n) =
                  omega arith in
                let content =
                  ap (λ m. front ++ (varint_bytes m ++ (elem ++ room'))) (sym size)
                  ∙ next_content ys elem (zeros (count * 4)) room' in
                let later =
                  loop_lem count more elements space (used + VarInt.size n + n) room' s2
                    (omega (arith, e, index)) f g
                    (omega (
                      arith,
                      h,
                      content_size-append ys (elem ∷ []),
                      ap (λ m. VarInt.size m + m) size,
                    ))
                    fits' in
                rw (index, cursor, content) later)
      ]
    ]

decode_elements_lem :
    (count : ℕ) (s : List ℕ)
    → count ≤ max_vec_size
    → decode_elements count s ≡ (read_items (count * 4) 0 count >>= λ zs. pure (layout zs)) s
unfolding decode_elements
decode_elements_lem count s h =
    let start : count * 4 + 0 ≡ count * 4 = omega arith in
    rw (replicate_add (count * 4) 128 0) (
      ap
        (λ cursor.
          (read_elements (count * 4) 0 count cursor (zeros (count * 4) ++ zeros 128)
              >>= finish count (count * 4))
            s)
        (sym start)
      ∙ loop_lem count [] count (count * 4) 0 (zeros 128) s (omega arith) refl h refl (omega arith))

no_items :
    (count : ℕ) (s : List ℕ) → (count == 0) ≡ true → read_items (count * 4) 0 count s ≡ ok ([], s)
unfolding read_items
no_items count s h = rw ((==_iff count 0).0 h) refl

-- The decoder gives the layout of the elements that the plain decoder reads, and its errors.
pub decode-read_list : (s : List ℕ) → decode s ≡ (read_list >>= λ elems. pure (layout elems)) s
unfolding decode read_list
decode-read_list s = elim (Result-cases (VarInt.decode s)) [
  | inr (x, got) ↦ rw (◌>>=◌, got) refl
  | inl ((count, s1), got) ↦ elim (Bool-cases (ltb max_vec_size count)) [
    | inl large ↦ rw (◌>>=◌, got, large) refl
    | inr small ↦ elim (Bool-cases (count == 0)) [
      | inl none_there ↦ rw (◌>>=◌, got, small, none_there, no_items count s1 none_there) refl
      | inr some_there ↦
          rw (◌>>=◌, got, small, some_there)
            (decode_elements_lem count s1 (ltb→ge max_vec_size count small))
    ]
  ]
]
