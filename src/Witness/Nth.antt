-- ===== src/Witness/Nth.antt =====
-- `nth` and the iterator read the elements of a layout.
use rust_litecoin.Prelude.{
  ℕ, zero, suc, ◌+◌, ◌*◌, ◌^◌, ◌≤◌, ◌<◌, ◌≡◌, refl, sym, ap, ◌∙◌, List, [], ◌∷◌, ◌++◌, none, some,
  ◌⊎◌, inl, inr, length, drop, get_elem?, arith, length-append, append_assoc, ge→ltb, lt→ltb,
  le→leb,
}
use rust_litecoin.Wire.Codec.{ok}
use rust_litecoin.Wire.Ints.{to_le_bytes, length-to_le_bytes, from_le_bytes-to_le_bytes}
use rust_litecoin.Wire.VarInt
use rust_litecoin.Witness.{
  varint_bytes, item_size, content_size, decode_cursor, slice, element_behind, element_at,
  at_position, nth, collect, to_vec,
}
use rust_litecoin.Witness.Buffer.{take_at, drop_at}
use rust_litecoin.Witness.Layout.{
  items, table, layout, length-varint_bytes, length-items, length-table, items_split, table-append,
  content_size-append,
}

pub decode-varint_bytes :
    (n : ℕ) (rest : List ℕ) → n < 2 ^ 64 → VarInt.decode (varint_bytes n ++ rest) ≡ ok (n, rest)
decode-varint_bytes n rest h = let t = VarInt.RoundTrip-var_int n h in rw t.1 (t.2 rest)

-- The position of an element that is there
decode_cursor-middle :
    (start index value : ℕ) (front back : List ℕ)
    → start + index * 4 ≡ length front
    → value < 2 ^ 32
    → decode_cursor (front ++ (to_le_bytes 4 value ++ back)) start index ≡ some value
unfolding decode_cursor
decode_cursor-middle start index value front back e h =
    let pos = to_le_bytes 4 value in
    let there = ge→ltb (length (front ++ (pos ++ back))) (start + index * 4 + 4) (
      omega (
        arith,
        e,
        length-append front (pos ++ back),
        length-append pos back,
        length-to_le_bytes 4 value,
      )) in
    let read = drop_at (start + index * 4) front (pos ++ back) e in
    rw
      (
        there,
        read,
        take_at 4 pos back (sym (length-to_le_bytes 4 value)),
        from_le_bytes-to_le_bytes 4 value h,
      )
      refl

-- The element that is written at a position
element_at-middle :
    (pos : ℕ) (front elem back : List ℕ)
    → pos ≡ length front
    → length elem < 2 ^ 64
    → element_at (front ++ (varint_bytes (length elem) ++ (elem ++ back))) pos ≡ ok (some elem)
unfolding element_at element_behind slice
element_at-middle pos front elem back e h =
    let n = length elem in
    let prefix = varint_bytes n in
    let content = front ++ (prefix ++ (elem ++ back)) in
    let total : length content ≡ length front + (VarInt.size n + (n + length back)) = omega (
      arith,
      length-append front (prefix ++ (elem ++ back)),
      length-append prefix (elem ++ back),
      length-append elem back,
      length-varint_bytes n,
    ) in
    let starts = le→leb pos (length content) (omega (arith, e, total)) in
    let ends = le→leb (pos + VarInt.size n + n) (length content) (omega (arith, e, total)) in
    let rest = drop_at pos front (prefix ++ (elem ++ back)) e in
    let behind : drop (pos + VarInt.size n) content ≡ elem ++ back =
      ap (λ xs. drop (pos + VarInt.size n) xs) (sym (append_assoc front prefix (elem ++ back)))
      ∙ drop_at (pos + VarInt.size n) (front ++ prefix) (elem ++ back)
          (omega (arith, e, length-append front prefix, length-varint_bytes n)) in
    rw
      (starts, rest, decode-varint_bytes n (elem ++ back) h, ends, behind, take_at n elem back refl)
      refl

-- The element behind the elements `ys`
nth-middle :
    (ys : List (List ℕ)) (e : List ℕ) (zs : List (List ℕ))
    → content_size (ys ++ e ∷ zs) < 2 ^ 32
    → nth (layout (ys ++ e ∷ zs)) (length ys) ≡ ok (some e)
unfolding nth at_position
nth-middle ys e zs h =
    let all = ys ++ e ∷ zs in
    let pos = 0 + content_size ys in
    let positions : (items all ++ table 0 all)
        ≡ (items all ++ table 0 ys) ++ (to_le_bytes 4 pos ++ table (pos + item_size e) zs) =
      ap (λ xs. items all ++ xs) (table-append 0 ys (e ∷ zs))
      ∙ sym (append_assoc (items all) (table 0 ys) (table pos (e ∷ zs))) in
    let found : decode_cursor (items all ++ table 0 all) (content_size all) (length ys) ≡ some pos =
      ap (λ xs. decode_cursor xs (content_size all) (length ys)) positions
      ∙ decode_cursor-middle (content_size all) (length ys) pos (items all ++ table 0 ys)
          (table (pos + item_size e) zs)
          (omega
            (arith, length-append (items all) (table 0 ys), length-items all, length-table 0 ys))
          (omega (arith, h, content_size-append ys (e ∷ zs))) in
    let content : items all ++ table 0 all
        ≡ items ys ++ (varint_bytes (length e) ++ (e ++ (items zs ++ table 0 all))) =
      ap (λ xs. xs ++ table 0 all) (items_split ys e zs)
      ∙ append_assoc (items ys) (varint_bytes (length e) ++ (e ++ items zs)) (table 0 all)
      ∙ ap (λ xs. items ys ++ xs)
          (append_assoc (varint_bytes (length e)) (e ++ items zs) (table 0 all)
            ∙ ap (λ xs. varint_bytes (length e) ++ xs) (append_assoc e (items zs) (table 0 all))) in
    ap (λ p. at_position (items all ++ table 0 all) p) found
    ∙ ap (λ xs. element_at xs pos) content
    ∙ element_at-middle pos (items ys) e (items zs ++ table 0 all) (omega (arith, length-items ys))
        (omega (arith, h, content_size-append ys (e ∷ zs)))

nth-past : (xs : List (List ℕ)) (i : ℕ) → length xs ≤ i → nth (layout xs) i ≡ ok none
unfolding nth at_position decode_cursor
nth-past xs i h =
    let out = lt→ltb (length (items xs ++ table 0 xs)) (content_size xs + i * 4 + 4) (
      omega
        (arith, h, length-append (items xs) (table 0 xs), length-items xs, length-table 0 xs)) in
    rw out refl

-- The list of the elements from the one at `i`, or an index behind its end
get_elem?-split :
    {A : Type 0} (xs : List A) (i : ℕ)
    → ((ys : List A) × (x : A) × (zs : List A) × (xs ≡ ys ++ x ∷ zs)
        × (i ≡ length ys)
        × (get_elem? xs i ≡ some x))
      ⊎ ((length xs ≤ i) × (get_elem? xs i ≡ none))
get_elem?-split [] i = inr (omega arith, refl)
get_elem?-split (x ∷ xs) zero = inl ([], x, xs, refl, refl, refl)
get_elem?-split (x ∷ xs) (suc i) = elim (get_elem?-split xs i) [
  | inl (ys, y, zs, e, f, g) ↦ inl (x ∷ ys, y, zs, ap (λ l. x ∷ l) e, ap suc f, g)
  | inr (h, g) ↦ inr (omega (arith, h), g)
]

pub nth-layout :
    (xs : List (List ℕ)) (i : ℕ)
    → content_size xs < 2 ^ 32
    → nth (layout xs) i ≡ ok (get_elem? xs i)
nth-layout xs i h = elim (get_elem?-split xs i) [
  | inl (ys, y, zs, e, f, g) ↦ rw (g, e, f) (nth-middle ys y zs (rw e at h))
  | inr (past, g) ↦ rw g (nth-past xs i past)
]

collect-layout :
    (fuel : ℕ) (ys zs : List (List ℕ))
    → content_size (ys ++ zs) < 2 ^ 32
    → length zs < fuel
    → collect fuel (layout (ys ++ zs)) (length ys) ≡ ok zs
unfolding collect
collect-layout zero ys zs h less = absurd (omega (arith, less))
collect-layout (suc fuel) ys [] h less =
    rw (nth-past (ys ++ []) (length ys) (omega (arith, length-append ys []))) refl
collect-layout (suc fuel) ys (z ∷ zs) h less =
    let one : (ys ++ z ∷ []) ++ zs ≡ ys ++ z ∷ zs = append_assoc ys (z ∷ []) zs in
    let next : length ys + 1 ≡ length (ys ++ z ∷ []) = omega (arith, length-append ys (z ∷ [])) in
    let rest = collect-layout fuel (ys ++ z ∷ []) zs (rw one h) (omega (arith, less)) in
    rw (nth-middle ys z zs h, next, ← one, rest) refl

-- The iterator gives all the elements, and its fuel is enough.
pub to_vec-layout : (xs : List (List ℕ)) → content_size xs < 2 ^ 32 → to_vec (layout xs) ≡ ok xs
unfolding to_vec
to_vec-layout xs h =
    collect-layout (suc (length (items xs ++ table 0 xs))) [] xs h
      (omega (arith, length-append (items xs) (table 0 xs), length-table 0 xs))
