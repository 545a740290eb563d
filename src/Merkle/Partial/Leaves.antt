-- ===== src/Merkle/Partial/Leaves.antt =====
-- The leaves below a node, and those of them that are matched.
use rust_litecoin.Prelude.{
  ℕ, zero, suc, ◌+◌, ◌≤◌, ◌<◌, ◌≡◌, refl, sym, ap, ◌∙◌, Bool, true, false, ◌||◌, List, [], ◌∷◌,
  ◌++◌, length, take, drop, drop_add, take_add, arith, ltb, inl, inr, Bool-cases, ltb→lt, ltb→ge,
}
use rust_litecoin.Wire.Codec.{ok}
use rust_litecoin.Merkle.{index}
use rust_litecoin.Merkle.Partial.{any_match}

abbrev pub any_true : List Bool → Bool
any_true [] = false
any_true (b ∷ bs) = b || any_true bs

-- The txids with a set flag
abbrev pub matched_txids : List (List ℕ) → List Bool → List (List ℕ)
matched_txids [] ms = []
matched_txids (t ∷ ts) [] = []
matched_txids (t ∷ ts) (true ∷ ms) = t ∷ matched_txids ts ms
matched_txids (t ∷ ts) (false ∷ ms) = matched_txids ts ms

-- The indexes of the set flags, of which the first one has the index `i`
abbrev pub matched_indexes : ℕ → List Bool → List ℕ
matched_indexes i [] = []
matched_indexes i (true ∷ ms) = i ∷ matched_indexes (i + 1) ms
matched_indexes i (false ∷ ms) = matched_indexes (i + 1) ms

pub index-there :
    {A : Type 0} (xs : List A) (p : ℕ)
    → p < length xs
    → (x : A) × (index xs p ≡ ok x) × (drop p xs ≡ x ∷ drop (p + 1) xs)
index-there [] p h = absurd (omega (arith, h))
index-there (x ∷ xs) zero h = (x, refl, refl)
index-there (x ∷ xs) (suc p) h =
    let (y, e, f) = index-there xs p (omega (arith, h)) in
    let next : suc p + 1 ≡ suc (p + 1) = omega arith in
    (y, e, f ∙ ap (λ k. y ∷ drop k (x ∷ xs)) (sym next))

drop-past : {A : Type 0} (xs : List A) (p : ℕ) → length xs ≤ p → drop p xs ≡ []
drop-past [] zero h = refl
drop-past [] (suc p) h = refl
drop-past (x ∷ xs) zero h = absurd (omega (arith, h))
drop-past (x ∷ xs) (suc p) h = drop-past xs p (omega (arith, h))

take_none : {A : Type 0} (k : ℕ) → take {A = A} k [] ≡ []
take_none zero = refl
take_none (suc k) = refl

-- The leaves from `p` on, `k` of them or as many as there are
abbrev pub leaves : {A : Type 0} → ℕ → ℕ → List A → List A
leaves p k xs = take k (drop p xs)

pub leaves_past : {A : Type 0} (xs : List A) (p k : ℕ) → length xs ≤ p → leaves p k xs ≡ []
leaves_past xs p k h = ap (take k) (drop-past xs p h) ∙ take_none k

pub leaves_add :
    {A : Type 0} (xs : List A) (p j k : ℕ)
    → leaves p (j + k) xs ≡ leaves p j xs ++ leaves (p + j) k xs
leaves_add xs p j k =
    take_add j k (drop p xs) ∙ ap (λ ys. leaves p j xs ++ take k ys) (sym (drop_add p j xs))

pub leaves_one :
    {A : Type 0} (xs : List A) (p : ℕ)
    → p < length xs
    → (x : A) × (index xs p ≡ ok x) × (leaves p 1 xs ≡ x ∷ [])
leaves_one xs p h = let (x, e, f) = index-there xs p h in (x, e, ap (take 1) f)

pub any_match_lem :
    (n : ℕ) (matches : List Bool) (k p : ℕ)
    → n ≡ length matches
    → any_match n matches k p ≡ ok (any_true (leaves p k matches))
unfolding any_match
any_match_lem n matches zero p e = refl
any_match_lem n matches (suc k) p e = elim (Bool-cases (ltb p n)) [
  | inr past ↦ rw (past, leaves_past matches p (suc k) (omega (arith, e, ltb→ge p n past))) refl
  | inl there ↦
      let (m, at, rest) = index-there matches p (omega (arith, e, ltb→lt p n there)) in
      rw (there, at, any_match_lem n matches k (p + 1) e, rest) refl
]

pub matched_txids-append :
    (ts us : List (List ℕ)) (ms ns : List Bool)
    → length ts ≡ length ms
    → matched_txids (ts ++ us) (ms ++ ns) ≡ matched_txids ts ms ++ matched_txids us ns
matched_txids-append [] us [] ns e = refl
matched_txids-append [] us (m ∷ ms) ns e = absurd (omega (arith, e))
matched_txids-append (t ∷ ts) us [] ns e = absurd (omega (arith, e))
matched_txids-append (t ∷ ts) us (true ∷ ms) ns e =
    ap (λ xs. t ∷ xs) (matched_txids-append ts us ms ns (omega (arith, e)))
matched_txids-append (t ∷ ts) us (false ∷ ms) ns e =
    matched_txids-append ts us ms ns (omega (arith, e))

pub matched_indexes-append :
    (i : ℕ) (ms ns : List Bool)
    → matched_indexes i (ms ++ ns) ≡ matched_indexes i ms ++ matched_indexes (i + length ms) ns
matched_indexes-append i [] ns = ap (λ k. matched_indexes k ns) (omega arith)
matched_indexes-append i (true ∷ ms) ns =
    let next : i + 1 + length ms ≡ i + suc (length ms) = omega arith in
    ap (λ xs. i ∷ xs) (matched_indexes-append (i + 1) ms ns ∙ rw next refl)
matched_indexes-append i (false ∷ ms) ns =
    let next : i + 1 + length ms ≡ i + suc (length ms) = omega arith in
    matched_indexes-append (i + 1) ms ns ∙ rw next refl

-- Without a set flag nothing is matched.
pub matched_txids-none :
    (ts : List (List ℕ)) (ms : List Bool) → any_true ms ≡ false → matched_txids ts ms ≡ []
matched_txids-none [] ms e = refl
matched_txids-none (t ∷ ts) [] e = refl
matched_txids-none (t ∷ ts) (true ∷ ms) e = absurd cc
matched_txids-none (t ∷ ts) (false ∷ ms) e = matched_txids-none ts ms e

pub matched_indexes-none :
    (i : ℕ) (ms : List Bool) → any_true ms ≡ false → matched_indexes i ms ≡ []
matched_indexes-none i [] e = refl
matched_indexes-none i (true ∷ ms) e = absurd cc
matched_indexes-none i (false ∷ ms) e = matched_indexes-none (i + 1) ms e
