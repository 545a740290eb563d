-- ===== src/Witness/Decode/Resize.antt =====
-- `resize_if_needed` gives a longer vector that starts with the old one.
use rust_litecoin.Prelude.{
  ℕ, zero, suc, ◌+◌, ◌-◌, ◌*◌, ◌≤◌, ◌<◌, ◌≡◌, ap, ◌∙◌, List, [], ◌++◌, inl, inr, length, replicate,
  leb, arith, gt→leb, leb→gt, length-append, Bool-cases, append-nil,
}
use rust_litecoin.Wire.Codec.{ok}
use rust_litecoin.Witness.Buffer.{resize, resize_grow, length-replicate}
use rust_litecoin.Witness.Decode.{doubled, at_least_one, resize_if_needed}

-- The loop ends: its length at least doubles in each round.
doubled_lem :
    (fuel new_len required_len : ℕ)
    → 1 ≤ new_len
    → required_len < new_len + fuel
    → (n : ℕ) × (doubled (suc fuel) new_len required_len ≡ ok n)
      × (new_len ≤ n)
      × (required_len < n)
unfolding doubled
doubled_lem zero new_len required_len pos enough = (
  new_len,
  rw (doubled, gt→leb new_len required_len (omega (arith, enough))),
  omega arith,
  omega arith,
)
doubled_lem (suc fuel) new_len required_len pos enough =
    elim (Bool-cases (leb new_len required_len)) [
      | inl e ↦
          let (n, stops, longer, fits) =
            doubled_lem fuel (new_len * 2) required_len (omega (arith, pos))
              (omega (arith, pos, enough)) in
          (n, rw (doubled, e) stops, omega (arith, longer), fits)
      | inr e ↦ (new_len, rw (doubled, e), omega arith, leb→gt new_len required_len e)
    ]

at_least_one_lem : (n : ℕ) → (1 ≤ at_least_one n) × (n ≤ at_least_one n)
unfolding at_least_one
at_least_one_lem n = ground arith

-- The doubling loop ends within its fuel, and the vector ends up longer than required, with zeros
-- behind its old bytes.
pub resize_if_needed_lem :
    (vec : List ℕ) (required_len : ℕ)
    → (k : ℕ) × (resize_if_needed vec required_len ≡ ok (vec ++ replicate k 0))
      × (required_len < length (vec ++ replicate k 0))
unfolding resize_if_needed
resize_if_needed_lem vec required_len = elim (Bool-cases (leb (length vec) required_len)) [
  | inl e ↦
      let (pos, above) = at_least_one_lem (length vec) in
      let (n, stops, longer, fits) =
        doubled_lem required_len (at_least_one (length vec)) required_len pos
          (omega (arith, pos)) in
      let k = n - length vec in
      let total : n ≡ length vec + k = omega (arith, longer, above) in
      (
        k,
        rw (e, stops) (ap (λ m. ok (resize m vec)) total ∙ ap ok (resize_grow k vec)),
        omega (arith, fits, total, length-append vec (replicate k 0), length-replicate k 0),
      )
  | inr e ↦ (
    0,
    rw (e, append-nil),
    omega (arith, leb→gt (length vec) required_len e, length-append vec []),
  )
]
