-- ===== src/Witness/Layout.antt =====
-- The layout that a list of elements has: what a `Witness` stands for.
use rust_litecoin.Prelude.{
  ℕ, ◌+◌, ◌*◌, ◌≡◌, refl, sym, ap, ◌∙◌, List, [], ◌∷◌, ◌++◌, length, arith, length-append,
  append_assoc,
}
use rust_litecoin.Wire.Codec.{ok}
use rust_litecoin.Wire.Ints.{to_le_bytes, length-to_le_bytes}
use rust_litecoin.Wire.VarInt
use rust_litecoin.Witness.{Witness, varint_bytes, item_size, content_size}

-- An element behind its length
abbrev pub item : List ℕ → List ℕ
item elem = varint_bytes (length elem) ++ elem

abbrev pub items : List (List ℕ) → List ℕ
items [] = []
items (e ∷ es) = item e ++ items es

-- The positions of the elements, of which the first one starts at `pos`
abbrev pub table : ℕ → List (List ℕ) → List ℕ
table pos [] = []
table pos (e ∷ es) = to_le_bytes 4 pos ++ table (pos + item_size e) es

-- The value that stands for a list of elements
abbrev pub layout : List (List ℕ) → Witness
layout elems = record {
  content = items elems ++ table 0 elems;
  witness_elements = length elems;
  indices_start = content_size elems;
}

pub length-varint_bytes : (n : ℕ) → length (varint_bytes n) ≡ VarInt.size n
length-varint_bytes n = let (bs, e, h) = VarInt.encode-size n in rw e h

pub varint_bytes_lem : (n : ℕ) → VarInt.encode n ≡ ok (varint_bytes n, VarInt.size n)
varint_bytes_lem n = let (bs, e, h) = VarInt.encode-size n in rw e refl

pub length-item : (e : List ℕ) → length (item e) ≡ item_size e
length-item e =
    omega (arith, length-append (varint_bytes (length e)) e, length-varint_bytes (length e))

pub length-items : (es : List (List ℕ)) → length (items es) ≡ content_size es
length-items [] = refl
length-items (e ∷ es) =
    omega (arith, length-append (item e) (items es), length-item e, length-items es)

pub length-table : (pos : ℕ) (es : List (List ℕ)) → length (table pos es) ≡ length es * 4
length-table pos [] = refl
length-table pos (e ∷ es) = omega (
  arith,
  length-append (to_le_bytes 4 pos) (table (pos + item_size e) es),
  length-to_le_bytes 4 pos,
  length-table (pos + item_size e) es,
)

pub items-append : (xs ys : List (List ℕ)) → items (xs ++ ys) ≡ items xs ++ items ys
items-append [] ys = refl
items-append (x ∷ xs) ys =
    ap (λ rest. item x ++ rest) (items-append xs ys)
    ∙ sym (append_assoc (item x) (items xs) (items ys))

pub content_size-append :
    (xs ys : List (List ℕ)) → content_size (xs ++ ys) ≡ content_size xs + content_size ys
content_size-append [] ys = omega arith
content_size-append (x ∷ xs) ys = omega (arith, content_size-append xs ys)

pub table-append :
    (pos : ℕ) (xs ys : List (List ℕ))
    → table pos (xs ++ ys) ≡ table pos xs ++ table (pos + content_size xs) ys
table-append pos [] ys = ap (λ n. table n ys) (omega arith)
table-append pos (x ∷ xs) ys =
    let e : pos + item_size x + content_size xs ≡ pos + (item_size x + content_size xs) =
      omega arith in
    ap (λ rest. to_le_bytes 4 pos ++ rest) (table-append (pos + item_size x) xs ys)
    ∙ rw (e, append_assoc)

-- The parts before and behind an element.
pub items_split :
    (ys : List (List ℕ)) (e : List ℕ) (zs : List (List ℕ))
    → items (ys ++ e ∷ zs) ≡ items ys ++ (varint_bytes (length e) ++ (e ++ items zs))
items_split ys e zs =
    items-append ys (e ∷ zs)
    ∙ ap (λ rest. items ys ++ rest) (append_assoc (varint_bytes (length e)) e (items zs))
