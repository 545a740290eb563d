-- ===== src/Witness/Decode/Plain.antt =====
-- A decoder that only reads the elements, one after the other: what the decoder of `Witness`
-- computes, whose vector grows and is turned around on the way.
use rust_litecoin.Prelude.{
  ℕ, zero, suc, ◌+◌, ◌-◌, ◌*◌, ◌^◌, ◌≤◌, ◌<◌, ◌≡◌, refl, List, [], ◌∷◌, inl, inr, ltb,
  if◌then◌else◌, arith, tests, lt→ltb, ge→ltb, Bool-cases,
}
use rust_litecoin.Wire.Codec.{
  ok, err, oversized_vector_allocation, max_vec_size, Read, pure, throw, ◌>>=◌, read_exact,
}
use rust_litecoin.Wire.VarInt
use rust_litecoin.Witness.Decode.{checked_add, within_limit, required_len}

-- The length that the error names: `usize::MAX` where it is no `usize`
abbrev pub requested : ℕ → ℕ
requested total = if ltb total (2 ^ 64) then total else 2 ^ 64 - 1

-- `count` elements, behind `used` bytes of content. Each one has to fit before it is read.
unfoldable pub read_items : ℕ → ℕ → ℕ → Read (List (List ℕ))
read_items space used zero = pure []
read_items space used (suc count) = VarInt.decode >>= λ n.
    if ltb max_vec_size (used + VarInt.size n + n)
    then throw
        (oversized_vector_allocation (requested (space + used + n + VarInt.size n)) max_vec_size)
    else (read_exact n >>= λ elem.
        read_items space (used + VarInt.size n + n) count >>= λ rest. pure (elem ∷ rest))

unfoldable pub read_list : Read (List (List ℕ))
read_list = VarInt.decode >>= λ count.
    if ltb max_vec_size count
    then throw (oversized_vector_allocation count max_vec_size)
    else read_items (count * 4) 0 count

pub required_len-fits :
    (space used n : ℕ)
    → used + VarInt.size n + n ≤ max_vec_size
    → space ≤ 4 * max_vec_size
    → required_len space (space + used) n ≡ ok (space + used + n + VarInt.size n)
unfolding required_len checked_add within_limit
required_len-fits space used n h bound =
    rw
      (
        lt→ltb (space + used + n) (2 ^ 64) (omega (arith, h, bound)),
        lt→ltb (space + used + n + VarInt.size n) (2 ^ 64) (omega (arith, h, bound)),
        ge→ltb (max_vec_size + space) (space + used + n + VarInt.size n) (omega (arith, h)),
      )
      refl

pub required_len-refused :
    (space used n : ℕ)
    → max_vec_size < used + VarInt.size n + n
    → required_len space (space + used) n
      ≡ err
          (oversized_vector_allocation (requested (space + used + n + VarInt.size n)) max_vec_size)
unfolding required_len checked_add within_limit
required_len-refused space used n h =
    elim (Bool-cases (ltb (space + used + n + VarInt.size n) (2 ^ 64))) [
      | inl e ↦
          rw
            (
              lt→ltb (space + used + n) (2 ^ 64) (omega tests),
              e,
              lt→ltb (max_vec_size + space) (space + used + n + VarInt.size n) (omega (arith, h)),
            )
            refl
      | inr e ↦ elim (Bool-cases (ltb (space + used + n) (2 ^ 64))) [
        | inl f ↦ rw (f, e) refl
        | inr f ↦ rw (f, e) refl
      ]
    ]
