-- ===== src/Witness/Spend/Bip341.antt =====
-- The reading of a witness as a taproot spend, on its stack: BIP 341 takes the annex away first.
use rust_litecoin.Prelude.{
  ℕ, ◌^◌, ◌<◌, ◌≡◌, refl, List, [], ◌∷◌, Option, none, some, length, if◌then◌else◌, arith, ne→==,
  Bool-cases, inl, inr,
}
use rust_litecoin.Wire.Codec.{ok}
use rust_litecoin.Witness.{content_size, len}
use rust_litecoin.Witness.Layout.{layout}
use rust_litecoin.Witness.Stack.{bottom_up, length-bottom_up, from_top}
use rust_litecoin.Witness.Spend.{
  P2TrSpend, key, script, starts_with_annex_prefix, last_is_annex, key_with_annex,
  script_with_annex, script_without_annex, from_witness,
}

-- A stack without its annex: a key path has one element, a script path the control block on the
-- top and the script below it.
abbrev pub without_annex : Option (List ℕ) → List (List ℕ) → Option P2TrSpend
without_annex annex [] = none
without_annex annex (signature ∷ []) = some (key annex)
without_annex annex (control_block ∷ leaf_script ∷ rest) =
    some (script leaf_script control_block annex)

-- The top of at least two elements is the annex if it starts with 0x50.
abbrev pub spend_of : List (List ℕ) → Option P2TrSpend
spend_of [] = none
spend_of (top ∷ []) = without_annex none (top ∷ [])
spend_of (top ∷ below ∷ rest) =
    if starts_with_annex_prefix top
    then without_annex (some top) (below ∷ rest)
    else without_annex none (top ∷ below ∷ rest)

-- `from_witness` reads a stack by these rules and does not panic, for elements of less than 2 ^ 32
-- bytes with their lengths.
pub from_witness-spend_of :
    (stack : List (List ℕ))
    → content_size (bottom_up stack) < 2 ^ 32
    → from_witness (layout (bottom_up stack)) ≡ ok (spend_of stack)
unfolding from_witness last_is_annex key_with_annex script_with_annex script_without_annex len
from_witness-spend_of [] h = refl
from_witness-spend_of (a ∷ []) h = refl
from_witness-spend_of (a ∷ b ∷ []) h =
    let (e1, e2, e3) = from_top (a ∷ b ∷ []) h in
    elim (Bool-cases (starts_with_annex_prefix a)) [
      | inl e ↦ rw (e1, e) refl
      | inr e ↦ rw (e1, e, e2) refl
    ]
from_witness-spend_of (a ∷ b ∷ c ∷ rest) h =
    let stack = a ∷ b ∷ c ∷ rest in
    let (e1, e2, e3) = from_top stack h in
    let n = length-bottom_up stack in
    let not_none = ne→== (length (bottom_up stack)) 0 (omega (arith, n)) in
    let not_one = ne→== (length (bottom_up stack)) 1 (omega (arith, n)) in
    let not_two = ne→== (length (bottom_up stack)) 2 (omega (arith, n)) in
    elim (Bool-cases (starts_with_annex_prefix a)) [
      | inl e ↦ rw (not_none, not_one, e1, e, not_two, e2, e3) refl
      | inr e ↦ rw (not_none, not_one, e1, e, e2) refl
    ]
