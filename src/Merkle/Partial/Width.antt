-- ===== src/Merkle/Partial/Width.antt =====
-- The width of a level: a position lies in it if its first leaf does.
use rust_litecoin.Prelude.{
  ℕ, zero, suc, ◌+◌, ◌-◌, ◌*◌, ◌/◌, ◌%◌, ◌^◌, ◌≤◌, ◌<◌, ◌≡◌, sym, ap, ◌∙◌, ltb, arith, lt→ltb,
  ltb→lt, ltb→ge, Bool-cases, inl, inr,
}
use native.Mathlib.Nat.{pow-suc, pow-succ', mul_assoc, le-div_iff_mul-le}
use rust_litecoin.Merkle.Partial.{calc_tree_width}

pub power_positive : (h : ℕ) → 0 < 2 ^ h
power_positive zero = omega arith
power_positive (suc h) = omega (arith, pow-suc 2 h, power_positive h)

-- The first leaf below the left child, and below the right one
pub first_left : (pos h : ℕ) → pos * 2 * 2 ^ h ≡ pos * 2 ^ suc h
first_left pos h = mul_assoc pos 2 (2 ^ h) ∙ ap (λ q. pos * q) (sym (pow-succ' 2 h))

pub add_one_mul : (a q : ℕ) → (a + 1) * q ≡ a * q + q
add_one_mul a q = omega arith

pub first_right : (pos h : ℕ) → (pos * 2 + 1) * 2 ^ h ≡ pos * 2 ^ suc h + 2 ^ h
first_right pos h = add_one_mul (pos * 2) (2 ^ h) ∙ ap (λ a. a + 2 ^ h) (first_left pos h)

width_small : (n h : ℕ) → n < 2 ^ 31 → 2 ^ h ≤ 2 ^ 31 → (n + 2 ^ h - 1) % 2 ^ 32 ≡ n + 2 ^ h - 1
width_small n h few low = omega (arith, few, low)

pub in_width :
    (n h pos : ℕ)
    → n < 2 ^ 31
    → 2 ^ h ≤ 2 ^ 31
    → ltb pos (calc_tree_width n h) ≡ ltb (pos * 2 ^ h) n
unfolding calc_tree_width
in_width n h pos few low =
    let q = 2 ^ h in
    let w = (n + q - 1) / q in
    let fits = le-div_iff_mul-le {k = q} {x = pos + 1} {y = n + q - 1} (power_positive h) in
    let next = add_one_mul pos q in
    rw (width_small n h few low) (elim (Bool-cases (ltb (pos * q) n)) [
      | inl e ↦
          let room : (pos + 1) * q ≤ n + q - 1 = omega (arith, next, ltb→lt (pos * q) n e) in
          rw e (lt→ltb pos w (omega (arith, fits.1 room)))
      | inr e ↦ elim (Bool-cases (ltb pos w)) [
        | inl f ↦
            let room = fits.0 (omega (arith, ltb→lt pos w f)) in
            absurd (omega (arith, room, next, ltb→ge (pos * q) n e, power_positive h))
        | inr f ↦ f ∙ sym e
      ]
    ])
