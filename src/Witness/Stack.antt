-- ===== src/Witness/Stack.antt =====
-- The elements of a witness counted from its end, the top of the stack.
use rust_litecoin.Prelude.{
  ℕ, zero, suc, ◌-◌, ◌^◌, ◌≤◌, ◌<◌, ◌≡◌, refl, ap, ◌∙◌, List, [], ◌∷◌, ◌++◌, none, length,
  get_elem?, get_elem?-middle, leb, ◌==◌, if◌then◌else◌, arith, length-append, tests, Bool-cases,
  inl, inr,
}
use rust_litecoin.Wire.Codec.{ok}
use rust_litecoin.Witness.{content_size, last, second_to_last, third_to_last, nth}
use rust_litecoin.Witness.Layout.{layout}
use rust_litecoin.Witness.Nth.{nth-layout}

-- The order in which a witness holds a stack that is given from its top
abbrev pub bottom_up : {A : Type 0} → List A → List A
bottom_up [] = []
bottom_up (x ∷ xs) = bottom_up xs ++ x ∷ []

pub length-bottom_up : {A : Type 0} (xs : List A) → length (bottom_up xs) ≡ length xs
length-bottom_up [] = refl
length-bottom_up (x ∷ xs) =
    omega (arith, length-append (bottom_up xs) (x ∷ []), length-bottom_up xs)

get_elem?-front :
    {A : Type 0} (ys zs : List A) (i : ℕ) → i < length ys → get_elem? (ys ++ zs) i ≡ get_elem? ys i
get_elem?-front [] zs i h = absurd (omega (arith, h))
get_elem?-front (y ∷ ys) zs zero h = refl
get_elem?-front (y ∷ ys) zs (suc i) h = get_elem?-front ys zs i (omega (arith, h))

get_elem?-past : {A : Type 0} (xs : List A) (i : ℕ) → length xs ≤ i → get_elem? xs i ≡ none
get_elem?-past [] i h = refl
get_elem?-past (x ∷ xs) zero h = absurd (omega (arith, h))
get_elem?-past (x ∷ xs) (suc i) h = get_elem?-past xs i (omega (arith, h))

get_elem?-bottom_up :
    {A : Type 0} (stack : List A) (k : ℕ)
    → k < length stack
    → get_elem? (bottom_up stack) (length stack - suc k) ≡ get_elem? stack k
get_elem?-bottom_up [] k h = absurd (omega (arith, h))
get_elem?-bottom_up (x ∷ xs) zero h =
    ap (λ i. get_elem? (bottom_up xs ++ x ∷ []) i) (omega (arith, length-bottom_up xs))
    ∙ get_elem?-middle (bottom_up xs) x []
get_elem?-bottom_up (x ∷ xs) (suc k) h =
    let i = length xs - suc k in
    ap (λ i. get_elem? (bottom_up xs ++ x ∷ []) i) (omega arith)
    ∙ get_elem?-front (bottom_up xs) (x ∷ []) i (omega (arith, h, length-bottom_up xs))
    ∙ get_elem?-bottom_up xs k (omega (arith, h))

-- An accessor that counts from the end
from_end :
    (stack : List (List ℕ)) (k : ℕ)
    → content_size (bottom_up stack) < 2 ^ 32
    → (if leb (length (bottom_up stack)) k
        then ok none
        else nth (layout (bottom_up stack)) (length (bottom_up stack) - suc k))
      ≡ ok (get_elem? stack k)
from_end stack k h = elim (Bool-cases (leb (length (bottom_up stack)) k)) [
  | inl few ↦ rw (few, get_elem?-past stack k (omega (tests, length-bottom_up stack, few))) refl
  | inr enough ↦
      let there : k < length stack = omega (tests, length-bottom_up stack, enough) in
      rw (enough, nth-layout (bottom_up stack) (length (bottom_up stack) - suc k) h)
        (ap (λ n. ok (get_elem? (bottom_up stack) (n - suc k))) (length-bottom_up stack)
          ∙ ap ok (get_elem?-bottom_up stack k there))
]

zero_or_less : (n : ℕ) → (n == 0) ≡ leb n 0
zero_or_less n = ground arith

-- The accessors of the last elements give the elements from the top of the stack, and nothing
-- where it is not that high, for elements of less than 2 ^ 32 bytes with their lengths.
pub from_top :
    (stack : List (List ℕ))
    → content_size (bottom_up stack) < 2 ^ 32
    → (last (layout (bottom_up stack)) ≡ ok (get_elem? stack 0))
      × (second_to_last (layout (bottom_up stack)) ≡ ok (get_elem? stack 1))
      × (third_to_last (layout (bottom_up stack)) ≡ ok (get_elem? stack 2))
unfolding last second_to_last third_to_last
from_top stack h = (
  rw (zero_or_less (length (bottom_up stack))) (from_end stack 0 h),
  from_end stack 1 h,
  from_end stack 2 h,
)
