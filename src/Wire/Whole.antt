-- ===== src/Wire/Whole.antt =====
-- `serialize`, `deserialize`, `deserialize_partial` and the size limit of `consensus_decode` of
-- litecoin/src/consensus/encode.rs, for any encoder and decoder.
use rust_litecoin.Prelude.{
  ℕ, suc, ◌-◌, ◌≤◌, ◌≡◌, ◌↔◌, refl, sym, ◌∙◌, List, [], ◌∷◌, ◌++◌, length, length-append, ◌==◌,
  if◌then◌else◌, arith, ==_refl, ==_iff, ne→==, Bool-cases, inl, inr,
}
use rust_litecoin.Wire.RoundTrip.{RoundTrip, Sized, RoundTrip-limited}
use rust_litecoin.Wire.Codec.{
  Error, Result, ok, err, parse_failed, panic, Read, Write, limited, max_vec_size,
}

-- `serialize`: `expect` panics if the encoder fails, and `debug_assert_eq!` if it miscounts,
-- in a build that has it.
unfoldable pub serialize : Write → Result (List ℕ)
serialize (ok (bs, len)) = if len == length bs then ok bs else err panic
serialize (err e) = err panic

-- The `Cursor` stands behind the bytes that are used up.
unfoldable pub deserialize_partial : {A : Type 0} → Read A → List ℕ → Result (A × ℕ)
deserialize_partial p data' = elim (p data') [
  | ok (rv, rest) ↦ ok (rv, length data' - length rest)
  | err e ↦ err e
]

abbrev unconsumed : Error
unconsumed = parse_failed "data not consumed entirely when explicitly deserializing"

finish : {A : Type 0} → ℕ → Result (A × ℕ) → Result A
finish size (ok (rv, consumed)) = if consumed == size then ok rv else err unconsumed
finish size (err e) = err e

unfoldable pub deserialize : {A : Type 0} → Read A → List ℕ → Result A
unfolding finish deserialize_partial
deserialize p data' = finish (length data') (deserialize_partial p data')

-- The default `Decodable::consensus_decode`
unfoldable pub consensus_decode : {A : Type 0} → Read A → Read A
unfolding limited
consensus_decode p = limited max_vec_size p

refused : {A : Type 0} (e : Error) (a : A) → ¬ (err e ≡ ok a)
refused e a h = cc

-- For bytes that an encoder wrote and a decoder reads back, whatever follows them: in a build with debug
-- assertions, `serialize` returns the bytes exactly when the encoder counted them correctly;
-- `deserialize` returns the value exactly when nothing follows the bytes.
pub deserialize-serialize :
    {A : Type 0} (bs : List ℕ) (len : ℕ) (p : Read A) (a : A) (more : List ℕ)
    → ((rest : List ℕ) → p (bs ++ rest) ≡ ok (a, rest))
    → ((serialize (ok (bs, len)) ≡ ok bs) ↔ (len ≡ length bs))
      × ((deserialize p (bs ++ more) ≡ ok a) ↔ (more ≡ []))
unfolding serialize deserialize deserialize_partial finish
deserialize-serialize bs len p a more reads = (counted, consumed more)
  where
    counted : (serialize (ok (bs, len)) ≡ ok bs) ↔ (len ≡ length bs)
    counted = elim (Bool-cases (len == length bs)) [
      | inl e ↦ (λ h. (==_iff len (length bs)).0 e, λ h. rw e refl)
      | inr e ↦ (
        λ h. absurd (refused panic bs (sym (rw e refl) ∙ h)),
        λ h. absurd (cc (sym e ∙ (==_iff len (length bs)).1 h)),
      )
    ]

    consumed : (more : List ℕ) → (deserialize p (bs ++ more) ≡ ok a) ↔ (more ≡ [])
    consumed [] =
        let all_used : length (bs ++ []) - 0 ≡ length (bs ++ []) = omega arith in
        (
          λ h. refl,
          λ h. rw (reads [], deserialize_partial, finish, all_used, ==_refl (length (bs ++ []))),
        )
    consumed (b ∷ more) =
        let size = length (bs ++ b ∷ more) in
        let left =
          ne→== (size - suc (length more)) size
            (λ e. omega (arith, e, length-append bs (b ∷ more))) in
        let refusal : deserialize p (bs ++ b ∷ more) ≡ err unconsumed =
          rw (reads (b ∷ more), deserialize_partial, finish, left) in
        (λ h. absurd (refused unconsumed a (sym refusal ∙ h)), λ h. absurd (cc))

-- What fits the limit is read in full.
pub RoundTrip-consensus_decode :
    {A : Type 0} (w : Write) (p : Read A) (a : A) (n : ℕ)
    → RoundTrip w p a
    → Sized w n
    → n ≤ max_vec_size
    → RoundTrip w (consensus_decode p) a
unfolding consensus_decode
RoundTrip-consensus_decode w p a n t (bs, e, size) small =
    RoundTrip-limited max_vec_size w p a t (omega (arith, size, small, same_count w t.0 bs n t.1 e))
  where
    same_count :
        (v : Write) (xs ys : List ℕ) (m : ℕ)
        → v ≡ ok (xs, length xs)
        → v ≡ ok (ys, m)
        → length xs ≡ m
    same_count v xs ys m g h = cc
