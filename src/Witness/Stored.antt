-- ===== src/Witness/Stored.antt =====
-- A witness that the operations build up is the layout of some list of elements, and then no
-- operation that reads it panics.
use rust_litecoin.Prelude.{
  ℕ, ◌+◌, ◌^◌, ◌<◌, ◌≡◌, refl, sym, ap, ◌∙◌, List, [], ◌∷◌, ◌++◌, length, get_elem?, arith,
}
use rust_litecoin.Wire.Codec.{ok}
use rust_litecoin.Witness.{
  Witness, new, item_size, content_size, from_slice, push_slice, clear, len, nth, to_vec,
}
use rust_litecoin.Witness.Layout.{layout, content_size-append}
use rust_litecoin.Witness.Fill.{from_slice-layout}
use rust_litecoin.Witness.Push.{push_slice-layout}
use rust_litecoin.Witness.Nth.{nth-layout, to_vec-layout}
use rust_litecoin.Witness.Decode.{decode}
use rust_litecoin.Witness.Codec.{decode-IsValidWitness}

-- The witnesses that a program can hold. The elements with their lengths take less than 2 ^ 32
-- bytes, behind which a position would not fit its four bytes.
pub data Reachable : Witness → Type 0 where
  start : Reachable new
  sliced :
      (elems : List (List ℕ)) (w : Witness)
      → content_size elems < 2 ^ 32
      → from_slice elems ≡ ok w
      → Reachable w
  decoded : (s rest : List ℕ) (w : Witness) → decode s ≡ ok (w, rest) → Reachable w
  pushed :
      (w w' : Witness) (elem : List ℕ)
      → Reachable w
      → w.indices_start + item_size elem < 2 ^ 32
      → push_slice elem w ≡ ok w'
      → Reachable w'
  cleared : (w : Witness) → Reachable w → Reachable (clear w)

abbrev pub IsStored : Witness → Type 0
IsStored w = (elems : List (List ℕ)) × (w ≡ layout elems) × (content_size elems < 2 ^ 32)

same_ok : {A : Type 0} (a b : A) → ok a ≡ ok b → b ≡ a
same_ok a b e = cc

push_slice-IsStored :
    (elem : List ℕ) (w w' : Witness)
    → IsStored w
    → w.indices_start + item_size elem < 2 ^ 32
    → push_slice elem w ≡ ok w'
    → IsStored w'
push_slice-IsStored elem w w' (elems, e, h) fits done =
    let start = ap Witness.indices_start e in
    let next = sym (push_slice-layout elem elems h) ∙ sym (ap (push_slice elem) e) ∙ done in
    (
      elems ++ elem ∷ [],
      same_ok (layout (elems ++ elem ∷ [])) w' next,
      omega (arith, content_size-append elems (elem ∷ []), start, fits),
    )

pub Reachable-IsStored : (w : Witness) → Reachable w → IsStored w
unfolding clear
Reachable-IsStored _ start = ([], refl, omega arith)
Reachable-IsStored _ (sliced elems w h done) =
    (elems, same_ok (layout elems) w (sym (from_slice-layout elems h) ∙ done), h)
Reachable-IsStored _ (decoded s rest w done) =
    let (elems, e, h) = decode-IsValidWitness s rest w done in (elems, e, omega (arith, h))
Reachable-IsStored _ (pushed v w elem r fits done) =
    push_slice-IsStored elem v w (Reachable-IsStored v r) fits done
Reachable-IsStored _ (cleared v r) = ([], refl, omega arith)

-- The elements of a reachable witness: `to_vec` gives them and does not panic, `len` counts them,
-- and `nth` gives the one at each index, and nothing behind the last one.
pub Reachable-to_vec :
    (w : Witness)
    → Reachable w
    → (elems : List (List ℕ)) × (to_vec w ≡ ok elems)
      × (len w ≡ length elems)
      × ((i : ℕ) → nth w i ≡ ok (get_elem? elems i))
unfolding len
Reachable-to_vec w r =
    let (elems, e, h) = Reachable-IsStored w r in
    (
      elems,
      rw e (to_vec-layout elems h),
      ap Witness.witness_elements e,
      λ i. rw e (nth-layout elems i h),
    )
