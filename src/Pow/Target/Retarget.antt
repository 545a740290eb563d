-- ===== src/Pow/Target/Retarget.antt =====
-- The retarget rule against the product and the quotient of the numbers.
use rust_litecoin.Prelude.{
  ℕ, ◌+◌, ◌*◌, ◌/◌, ◌%◌, ◌^◌, ◌≤◌, ◌<◌, ◌≡◌, refl, sym, ap, ◌∙◌, some, arith, ltb, Bool-cases, inl,
  inr, ge→ltb, ltb→ge,
}
use rust_litecoin.Pow.U256.{U256, overflowing_mul}
use rust_litecoin.Pow.U256.Value.{value, IsValid}
use rust_litecoin.Pow.U256.Multiply.{overflowing_mul_lem}
use rust_litecoin.Pow.U256.Divide.Quotient.{div_rem_lem}
use rust_litecoin.Pow.Target.{
  Params, from_uint, quotient_of, clamped, retarget_by, retarget, mainnet, max_attainable_mainnet,
}

from_uint-IsValid : (n : ℕ) → n < 2 ^ 64 → IsValid (from_uint n)
from_uint-IsValid n h = record { high_fits = omega arith; low_fits = omega arith }

-- The bounds are not crossed.
clamped-bounds :
    (timespan : ℕ) (params : Params)
    → params.pow_target_timespan < 2 ^ 62
    → (c : ℕ) × (clamped timespan params ≡ some c)
      × (params.pow_target_timespan / 4 ≤ c)
      × (c ≤ params.pow_target_timespan * 4)
unfolding clamped
clamped-bounds timespan params h =
    let low = params.pow_target_timespan / 4 in
    let high = params.pow_target_timespan * 4 % 2 ^ 64 in
    let open_ = ge→ltb high low (omega arith) in
    elim (Bool-cases (ltb timespan low)) [
      | inl e ↦ (low, rw (open_, e) refl, omega arith, omega arith)
      | inr e ↦ elim (Bool-cases (ltb high timespan)) [
        | inl f ↦ (high, rw (open_, e, f) refl, omega arith, omega arith)
        | inr f ↦ (
          timespan,
          rw (open_, e, f) refl,
          ltb→ge timespan low e,
          omega (arith, ltb→ge high timespan f),
        )
      ]
    ]

quotient_of-some : (q r : U256) → quotient_of (some (q, r)) ≡ some q
unfolding quotient_of
quotient_of-some q r = refl

-- Where a timespan is aimed at that is below 2 ^ 62 seconds, the rule does not panic: the timespan is
-- clamped to some `c`, and the new target is the previous one times `c`, divided by the timespan that
-- is aimed at, where the product is taken modulo 2 ^ 256: so it is the exact quotient wherever the
-- product fits 256 bits.
pub retarget_lem :
    (prev : U256) (timespan : ℕ) (params : Params)
    → IsValid prev
    → 0 < params.pow_target_timespan
    → params.pow_target_timespan < 2 ^ 62
    → (c : ℕ) × (w : U256) × (clamped timespan params ≡ some c)
      × (retarget prev timespan params ≡ some w)
      × (value w ≡ value prev * c % 2 ^ 256 / params.pow_target_timespan)
unfolding retarget retarget_by
retarget_lem prev timespan params v h k =
    let (n, found, low, high) = clamped-bounds timespan params k in
    let m = overflowing_mul_lem prev (from_uint n) v (from_uint-IsValid n (omega (arith, high))) in
    let d =
      div_rem_lem (overflowing_mul prev (from_uint n)).0 (from_uint params.pow_target_timespan) m.0
        (from_uint-IsValid params.pow_target_timespan (omega arith)) (omega arith) in
    let whole : value (from_uint n) % 2 ^ 192 + value (from_uint n) / 2 ^ 192 ≡ n =
      omega (arith, high) in
    let single : value (from_uint params.pow_target_timespan) ≡ params.pow_target_timespan =
      omega arith in
    (
      n,
      d.0,
      found,
      rw (retarget, found, retarget_by) (ap quotient_of d.2 ∙ quotient_of-some d.0 d.1),
      d.5 ∙ rw (m.1, whole, single),
    )

some-inj : (m n : ℕ) → some m ≡ some n → m ≡ n
some-inj m n h = cc

clamped-mainnet : (timespan : ℕ) → 1_209_600 ≤ timespan → clamped timespan mainnet ≡ some 1_209_600
unfolding clamped
clamped-mainnet timespan h = ground arith

-- At the limit of the main network, whose blocks came four times too slowly or worse, the product
-- does not fit: the new target is not the limit, but less than six tenths of it.
pub retarget-wraps :
    (timespan : ℕ)
    → 1_209_600 ≤ timespan
    → (w : U256) × (retarget max_attainable_mainnet timespan mainnet ≡ some w)
      × (10 * value w < 6 * value max_attainable_mainnet)
retarget-wraps timespan h =
    let r =
      retarget_lem max_attainable_mainnet timespan mainnet
        (record { high_fits = omega arith; low_fits = omega arith }) (omega arith) (omega arith) in
    let same = some-inj r.0 1_209_600 (sym r.2 ∙ clamped-mainnet timespan h) in
    (r.1, r.3, omega (arith, r.4, same))
