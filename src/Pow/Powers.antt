-- ===== src/Pow/Powers.antt =====
-- Powers of two, and numbers split at a power of two.
use native.Mathlib.Nat.{
  two-pow-succ, one-le-pow, div-add-mod', mod-lt, mul-le-mul_right, div-lt_iff_lt-mul,
}
use native.Mathlib.Numerals.{unary_clauses}
use rust_litecoin.Prelude.{ℕ, zero, suc, ◌+◌, ◌*◌, ◌/◌, ◌%◌, ◌^◌, ◌≤◌, ◌<◌, ◌≡◌, sym, ap, arith}

pub pow_sum : (a b : ℕ) → 2 ^ (a + b) ≡ 2 ^ a * 2 ^ b
pow_sum a zero = simp unary_clauses (omega arith)
pow_sum a (suc b) =
    let ih = pow_sum a b in
    simp unary_clauses (omega (arith, two-pow-succ (a + b), two-pow-succ b, ih))

pub pow_pos : (a : ℕ) → 0 < 2 ^ a
pow_pos a = one-le-pow a 2 (omega arith)

-- A number below `p * q`, shifted up by `p`: the part that leaves, and the part that stays.
pub split_up :
    (a p q m : ℕ) → p * q ≡ m → 0 < q → (a * p ≡ a / q * m + a % q * p) × (a % q * p + p ≤ m)
split_up a p q m e h =
    let parts = ap (λ n. n * p) (sym (div-add-mod' a q)) in
    let whole = ap (λ n. a / q * n) e in
    let below = mod-lt a h in
    let room = mul-le-mul_right {m = a % q + 1} {n = q} p (omega arith) in
    (omega (arith, parts, whole), omega (arith, room, e))

pub div_below : (a p q m : ℕ) → p * q ≡ m → 0 < q → a < m → a / q < p
div_below a p q m e h l = (div-lt_iff_lt-mul h).1 (omega (arith, e, l))
