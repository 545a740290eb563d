-- ===== src/Witness/Decode/Elements.antt =====
-- One round of the decoder's loop: the position, the length and the bytes of an element.
use rust_litecoin.Prelude.{
  ℕ, ◌+◌, ◌*◌, ◌^◌, ◌<◌, ◌≡◌, refl, sym, ap, ◌∙◌, List, ◌++◌, ◌⊎◌, inl, inr, length, take, drop,
  replicate, ltb, arith, length-append, append_assoc, le→leb, ltb→ge, take-append-drop, length-take,
  length-drop, Bool-cases,
}
use rust_litecoin.Wire.Codec.{Result, ok, err, Error, pure, ◌>>=◌, read_exact}
use rust_litecoin.Wire.Ints.{to_le_bytes, length-to_le_bytes}
use rust_litecoin.Wire.VarInt
use rust_litecoin.Witness.{varint_bytes, encode_cursor}
use rust_litecoin.Witness.Buffer.{◌and_then◌, write_at, write_at-middle}
use rust_litecoin.Witness.Layout.{length-varint_bytes}
use rust_litecoin.Witness.Fill.{encode_cursor-middle}
use rust_litecoin.Witness.Decode.{resize_if_needed, read_into}
use rust_litecoin.Witness.Decode.Resize.{resize_if_needed_lem}

pub Result-cases :
    {A : Type 0} (r : Result A) → ((a : A) × (r ≡ ok a)) ⊎ ((e : Error) × (r ≡ err e))
Result-cases (ok a) = inl (a, refl)
Result-cases (err e) = inr (e, refl)

pub read_exact-length :
    (n : ℕ) (s elem rest : List ℕ) → read_exact n s ≡ ok (elem, rest) → length elem ≡ n
unfolding read_exact
read_exact-length n s elem rest e = elim (Bool-cases (ltb (length s) n)) [
  | inl short ↦ let clash = rw short at e in absurd cc
  | inr enough ↦
      let read = rw enough at e in
      let got : take n s ≡ elem = cc in
      omega (arith, ap length got, length-take n s, ltb→ge (length s) n enough)
]

-- The position and the length of an element are in place, with `n` bytes of space for the element.
pub make_item :
    (index value required cursor n : ℕ) (t old_pos blank is room : List ℕ)
    → index * 4 ≡ length t
    → length old_pos ≡ 4
    → value < 2 ^ 32
    → cursor ≡ length t + 4 + length blank + length is
    → required ≡ cursor + n + VarInt.size n
    → (old room' : List ℕ) × (length old ≡ n)
      × ((encode_cursor (t ++ (old_pos ++ (blank ++ (is ++ room)))) 0 index value
            and_then λ content. resize_if_needed content required and_then λ content.
                write_at cursor (varint_bytes n) content)
          ≡ ok
              ((t ++ (to_le_bytes 4 value ++ (blank ++ is))) ++ (varint_bytes n ++ (old ++ room'))))
make_item index value required cursor n t old_pos blank is room e f g h k =
    let pos = to_le_bytes 4 value in
    let front = t ++ (pos ++ (blank ++ is)) in
    let (m, resized, fits) =
      resize_if_needed_lem (t ++ (pos ++ (blank ++ (is ++ room)))) required in
    let space = room ++ replicate m 0 in
    let size = VarInt.size n in
    let regroup : (t ++ (pos ++ (blank ++ (is ++ room)))) ++ replicate m 0 ≡ front ++ space =
      simp append_assoc in
    let length_front : length front ≡ cursor = omega (
      arith,
      h,
      length-append t (pos ++ (blank ++ is)),
      length-append pos (blank ++ is),
      length-append blank is,
      length-to_le_bytes 4 value,
    ) in
    let enough : required < cursor + length space =
      omega (arith, fits, ap length regroup, length-append front space, length_front) in
    let old = take n (drop size space) in
    let room' = drop n (drop size space) in
    let split : front ++ space ≡ front ++ (take size space ++ (old ++ room')) =
      ap (λ xs. front ++ xs)
        (sym (take-append-drop size space)
          ∙ ap (λ xs. take size space ++ xs) (sym (take-append-drop n (drop size space)))) in
    let written =
      write_at-middle cursor front (take size space) (varint_bytes n) (old ++ room')
        (sym length_front)
        (omega (arith, enough, k, length-varint_bytes n, length-take size space)) in
    let placed =
      encode_cursor-middle 0 index value t old_pos (blank ++ (is ++ room)) (omega (arith, e)) f g in
    (
      old,
      room',
      omega (arith, enough, k, length-take n (drop size space), length-drop size space),
      rw (placed, resized, regroup, split) written,
    )

-- The bytes of an element are read into their space.
pub read_into-middle :
    (cursor n : ℕ) (front old back s : List ℕ)
    → cursor ≡ length front
    → length old ≡ n
    → read_into cursor n (front ++ (old ++ back)) s
      ≡ (read_exact n >>= λ elem. pure (front ++ (elem ++ back))) s
unfolding read_into
read_into-middle cursor n front old back s e f =
    let fits =
      le→leb (cursor + n) (length (front ++ (old ++ back)))
        (omega (arith, e, f, length-append front (old ++ back), length-append old back)) in
    elim (Result-cases (read_exact n s)) [
      | inl ((elem, rest), got) ↦
          rw
            (
              fits,
              ◌>>=◌,
              got,
              write_at-middle cursor front old elem back e
                  (read_exact-length n s elem rest got ∙ sym f),
            )
            refl
      | inr (x, got) ↦ rw (fits, ◌>>=◌, got) refl
    ]
