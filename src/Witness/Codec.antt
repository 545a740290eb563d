-- ===== src/Witness/Codec.antt =====
-- The encoder and the decoder of `Witness` belong together.
use rust_litecoin.Prelude.{
  ℕ, zero, suc, ◌+◌, ◌-◌, ◌*◌, ◌≤◌, ◌≡◌, refl, sym, ap, ◌∙◌, List, [], ◌∷◌, ◌++◌, inl, inr, length,
  ltb, arith, length-append, append_assoc, le→leb, ge→ltb, ltb→ge, Bool-cases,
}
use rust_litecoin.Wire.Codec.{ok, max_vec_size, Read, pure, ◌>>=◌, read_exact}
use rust_litecoin.Wire.RoundTrip.{RoundTrip, Sized, read_exact_front}
use rust_litecoin.Wire.VarInt
use rust_litecoin.Witness.{Witness, content_size, varint_bytes, encode, size}
use rust_litecoin.Witness.Buffer.{take_at}
use rust_litecoin.Witness.Layout.{
  items, table, layout, length-varint_bytes, length-items, length-table,
}
use rust_litecoin.Witness.Nth.{decode-varint_bytes, to_vec-layout}
use rust_litecoin.Witness.Decode.{decode}
use rust_litecoin.Witness.Decode.Elements.{Result-cases, read_exact-length}
use rust_litecoin.Witness.Decode.Plain.{read_items, read_list}
use rust_litecoin.Witness.Decode.Loop.{decode-read_list}

-- A witness that holds a list of elements of at most `MAX_VEC_SIZE` bytes with their lengths
abbrev pub IsValidWitness : Witness → Type 0
IsValidWitness w =
    (elems : List (List ℕ)) × (w ≡ layout elems) × (content_size elems ≤ max_vec_size)

var_int_size : (n : ℕ) → 1 ≤ VarInt.size n
unfolding VarInt.size
var_int_size n = ground arith

pub length_le_content_size : (elems : List (List ℕ)) → length elems ≤ content_size elems
length_le_content_size [] = omega arith
length_le_content_size (e ∷ es) = omega (arith, length_le_content_size es, var_int_size (length e))

encode-layout :
    (elems : List (List ℕ))
    → encode (layout elems)
      ≡ ok (
        varint_bytes (length elems) ++ items elems,
        content_size elems + VarInt.size (length elems),
      )
unfolding encode
encode-layout elems =
    let total : length (items elems ++ table 0 elems) ≡ content_size elems + length elems * 4 =
      omega (
        arith,
        length-append (items elems) (table 0 elems),
        length-items elems,
        length-table 0 elems,
      ) in
    let fits =
      le→leb (length elems * 4) (length (items elems ++ table 0 elems)) (omega (arith, total)) in
    let content : length (items elems ++ table 0 elems) - length elems * 4 ≡ content_size elems =
      omega (arith, total) in
    let kept =
      take_at (content_size elems) (items elems) (table 0 elems) (sym (length-items elems)) in
    rw (fits, content, kept) refl

-- The elements are read from what is written.
read_items-items :
    (space used : ℕ) (elems : List (List ℕ)) (rest : List ℕ)
    → used + content_size elems ≤ max_vec_size
    → read_items space used (length elems) (items elems ++ rest) ≡ ok (elems, rest)
unfolding read_items
read_items-items space used [] rest h = refl
read_items-items space used (e ∷ es) rest h =
    let n = length e in
    let regroup : items (e ∷ es) ++ rest ≡ varint_bytes n ++ (e ++ (items es ++ rest)) =
      simp append_assoc in
    let fits = ge→ltb max_vec_size (used + VarInt.size n + n) (omega (arith, h)) in
    let more = read_items-items space (used + VarInt.size n + n) es rest (omega (arith, h)) in
    rw
      (
        regroup,
        ◌>>=◌,
        decode-varint_bytes n (e ++ (items es ++ rest)) (omega (arith, h)),
        fits,
        ◌>>=◌,
        read_exact_front e (items es ++ rest),
        ◌>>=◌,
        more,
      )
      refl

read_list-items :
    (elems : List (List ℕ)) (rest : List ℕ)
    → content_size elems ≤ max_vec_size
    → read_list ((varint_bytes (length elems) ++ items elems) ++ rest) ≡ ok (elems, rest)
unfolding read_list
read_list-items elems rest h =
    let count = length elems in
    let few = length_le_content_size elems in
    rw
      (
        append_assoc (varint_bytes count) (items elems) rest,
        ◌>>=◌,
        decode-varint_bytes count (items elems ++ rest) (omega (arith, few, h)),
        ge→ltb max_vec_size count (omega (arith, few, h)),
      )
      (read_items-items (count * 4) 0 elems rest (omega (arith, h)))

-- A witness whose elements take at most `MAX_VEC_SIZE` bytes with their lengths reads back from its
-- bytes, with its table of positions rebuilt.
pub RoundTrip-witness :
    (elems : List (List ℕ))
    → content_size elems ≤ max_vec_size
    → RoundTrip (encode (layout elems)) decode (layout elems)
RoundTrip-witness elems h =
    let bytes = varint_bytes (length elems) ++ items elems in
    let count : content_size elems + VarInt.size (length elems) ≡ length bytes = omega (
      arith,
      length-append (varint_bytes (length elems)) (items elems),
      length-varint_bytes (length elems),
      length-items elems,
    ) in
    (
      bytes,
      encode-layout elems ∙ ap (λ n. ok (bytes, n)) count,
      λ rest. decode-read_list (bytes ++ rest) ∙ rw (◌>>=◌, read_list-items elems rest h) refl,
    )

-- `size` does not panic, and counts the bytes that the encoder writes and the length it returns,
-- for elements that take at most `MAX_VEC_SIZE` bytes with their lengths.
pub size-Sized :
    (elems : List (List ℕ))
    → content_size elems ≤ max_vec_size
    → (n : ℕ) × (size (layout elems) ≡ ok n) × Sized (encode (layout elems)) n
unfolding size
size-Sized elems h =
    let count = VarInt.size (length elems) in
    let swap : content_size elems + count ≡ count + content_size elems = omega arith in
    (
      count + content_size elems,
      rw (to_vec-layout elems (omega (arith, h))) refl,
      (
        varint_bytes (length elems) ++ items elems,
        encode-layout elems ∙ ap (λ n. ok (varint_bytes (length elems) ++ items elems, n)) swap,
        omega (
          arith,
          length-append (varint_bytes (length elems)) (items elems),
          length-varint_bytes (length elems),
          length-items elems,
        ),
      ),
    )

-- A decoder that succeeds behind another one: both do.
>>=_ok :
    {A B : Type 0} (p : Read A) (f : A → Read B) (s rest : List ℕ) (b : B)
    → (p >>= f) s ≡ ok (b, rest)
    → (a : A) × (s' : List ℕ) × (p s ≡ ok (a, s')) × (f a s' ≡ ok (b, rest))
>>=_ok p f s rest b e = elim (Result-cases (p s)) [
  | inr (x, got) ↦ let clash = rw (◌>>=◌, got) at e in absurd cc
  | inl ((a, s'), got) ↦ (a, s', got, rw (◌>>=◌, got) at e)
]

value_of : {A : Type 0} (a b : A) (s t : List ℕ) → pure a s ≡ ok (b, t) → b ≡ a
value_of a b s t e = cc

-- The elements that are read meet the limit.
read_items-fits :
    (count space used : ℕ) (s rest : List ℕ) (elems : List (List ℕ))
    → used ≤ max_vec_size
    → read_items space used count s ≡ ok (elems, rest)
    → used + content_size elems ≤ max_vec_size
unfolding read_items
read_items-fits zero space used s rest elems h e =
    let none_read : elems ≡ [] = value_of [] elems s rest e in rw none_read (omega (arith, h))
read_items-fits (suc count) space used s rest elems h e =
    let (n, s1, got, e1) = >>=_ok VarInt.decode _ s rest elems e in
    elim (Bool-cases (ltb max_vec_size (used + VarInt.size n + n))) [
      | inl large ↦ let clash = rw large at e1 in absurd cc
      | inr small ↦
          let (elem, s2, reads, e2) = >>=_ok (read_exact n) _ s1 rest elems (rw small at e1) in
          let (es, s3, later, e3) =
            >>=_ok (read_items space (used + VarInt.size n + n) count) _ s2 rest elems e2 in
          let all : elems ≡ elem ∷ es = value_of (elem ∷ es) elems s3 rest e3 in
          let size = read_exact-length n s1 elem s2 reads in
          let fits =
            read_items-fits count space (used + VarInt.size n + n) s2 s3 es
              (ltb→ge max_vec_size (used + VarInt.size n + n) small) later in
          rw (all, size) (omega (arith, fits))
    ]

-- Whatever the decoder accepts is the layout of a list of elements, which take at most
-- `MAX_VEC_SIZE` bytes with their lengths.
pub decode-IsValidWitness :
    (s rest : List ℕ) (w : Witness) → decode s ≡ ok (w, rest) → IsValidWitness w
unfolding read_list
decode-IsValidWitness s rest w e =
    let (elems, s1, got, e1) =
      >>=_ok read_list (λ elems. pure (layout elems)) s rest w (sym (decode-read_list s) ∙ e) in
    let (count, s2, got2, e2) = >>=_ok VarInt.decode _ s s1 elems got in
    elim (Bool-cases (ltb max_vec_size count)) [
      | inl large ↦ let clash = rw large at e2 in absurd cc
      | inr small ↦
          let same : w ≡ layout elems = value_of (layout elems) w s1 rest e1 in
          let fits =
            read_items-fits count (count * 4) 0 s2 s1 elems (omega arith) (rw small at e2) in
          (elems, same, omega (arith, fits))
    ]
