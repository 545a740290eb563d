-- ===== src/Script/Number/Minimal.antt =====
-- The bytes that `write_scriptint` of litecoin/src/blockdata/script/mod.rs writes are the minimal
-- ones of a magnitude and a sign.
use rust_litecoin.Prelude.{
  ℕ, zero, suc, ◌+◌, ◌*◌, ◌/◌, ◌%◌, ◌^◌, ◌<◌, ◌≤◌, ◌≡◌, refl, sym, ap, ◌∙◌, Bool, true, false, not,
  ◌||◌, List, [], ◌∷◌, length, ltb, ◌==◌, arith, tests, Bool-cases, inl, inr, ge→ltb, lt→ltb, All,
  ==_iff,
}
use native.Mathlib.Nat.{pow-suc}
use rust_litecoin.Wire.Codec.{IsByte}
use rust_litecoin.Script.Number.{high_bit, sign_byte}
use rust_litecoin.Script.Number.Write.{
  last_bytes, last_bytes-two, last_bytes-one, bytes_of, bytes_of-more, bytes_of-last, low_byte,
  high_byte,
}
use rust_litecoin.Script.Number.Meaning.{magnitude, sign, is_minimal}

abbrev pub Means : Bool → ℕ → List ℕ → Type 0
Means neg abs v = All IsByte v × (magnitude v ≡ abs) × (sign v ≡ neg) × (is_minimal v ≡ true)

sign_byte-high : (neg : Bool) → high_bit (sign_byte neg) ≡ neg
unfolding high_bit
sign_byte-high true = refl
sign_byte-high false = refl

or_left : (a b : Bool) → a ≡ true → (a || b) ≡ true
or_left a b h = rw h refl

or_true : (a b : Bool) → b ≡ true → (a || b) ≡ true
or_true true b h = refl
or_true false b h = h

not_zero : (n : ℕ) → 1 ≤ n → not (n == 0) ≡ true
not_zero n h = ground arith

with_sign : (neg : Bool) (abs : ℕ) → abs < 128 → high_bit (abs + sign_byte neg) ≡ neg
unfolding high_bit
with_sign true abs h = ground arith
with_sign false abs h = ground arith

sign_byte_cases : (neg : Bool) (abs : ℕ) → abs < 128 → (abs + sign_byte neg) % 128 ≡ abs
sign_byte_cases true abs h = omega arith
sign_byte_cases false abs h = omega arith

sign_byte-IsByte : (neg : Bool) (abs : ℕ) → abs < 128 → abs + sign_byte neg < 256
sign_byte-IsByte true abs h = omega arith
sign_byte-IsByte false abs h = omega arith

last_bytes-Means : (neg : Bool) (abs : ℕ) → 1 ≤ abs → abs < 256 → Means neg abs (last_bytes neg abs)
unfolding magnitude sign is_minimal
last_bytes-Means neg abs pos small = elim (Bool-cases (high_bit abs)) [
  | inl e ↦ rw (last_bytes-two neg abs e) (
    (small, (omega (arith, sign_byte-IsByte neg 0 (omega arith)), tt)),
    omega (arith, sign_byte_cases neg 0 (omega arith)),
    sign_byte-high neg,
    or_true (not (sign_byte neg % 128 == 0)) (high_bit abs) e,
  )
  | inr e ↦
      let low = low_byte abs small e in
      let back = sign_byte_cases neg abs low in
      rw (last_bytes-one neg abs e) (
        (sign_byte-IsByte neg abs low, tt),
        back,
        with_sign neg abs low,
        not_zero ((abs + sign_byte neg) % 128) (omega (arith, back)),
      )
]

cons-Means :
    (neg : Bool) (a abs : ℕ) (v : List ℕ)
    → a < 256
    → 1 ≤ abs
    → Means neg abs v
    → Means neg (a + 256 * abs) (a ∷ v)
unfolding magnitude sign is_minimal
cons-Means neg a abs [] h pos m = absurd (omega (arith, m.1))
cons-Means neg a abs (b ∷ []) h pos (bytes, mag, s, min) =
    ((h, bytes), omega (arith, mag), s, or_left (not (b % 128 == 0)) (high_bit a) min)
cons-Means neg a abs (b ∷ c ∷ v) h pos (bytes, mag, s, min) =
    ((h, bytes), omega (arith, mag), s, min)

pub bytes_of-Means :
    (fuel : ℕ) (neg : Bool) (abs : ℕ)
    → 1 ≤ abs
    → abs < 256 ^ suc fuel
    → Means neg abs (bytes_of fuel neg abs)
bytes_of-Means zero neg abs pos small =
    rw (bytes_of-last zero neg abs (ge→ltb 255 abs (omega arith)))
      (last_bytes-Means neg abs pos (omega arith))
bytes_of-Means (suc fuel) neg abs pos small = elim (Bool-cases (ltb 0xff abs)) [
  | inl e ↦
      let split : abs ≡ abs % 256 + 256 * (abs / 256) = omega arith in
      let ih = bytes_of-Means fuel neg (abs / 256) (omega tests) (grind (arith, pow-suc)) in
      let m =
        cons-Means neg (abs % 256) (abs / 256) (bytes_of fuel neg (abs / 256)) (omega arith)
          (omega tests) ih in
      rw (bytes_of-more fuel neg abs e) (m.0, m.1 ∙ sym split, m.2, m.3)
  | inr e ↦ rw (bytes_of-last (suc fuel) neg abs e) (last_bytes-Means neg abs pos (omega tests))
]

room_for : (x : ℕ) (y : Bool) → (not (x == 0) || y) ≡ true → y ≡ false → 1 ≤ x
room_for x true h e = absurd (cc)
room_for x false h e = ground arith

pub minimal_positive :
    (a : ℕ) (v : List ℕ) → is_minimal (a ∷ v) ≡ true → All IsByte (a ∷ v) → 1 ≤ magnitude (a ∷ v)
unfolding magnitude is_minimal
minimal_positive a [] h bs = ground arith
minimal_positive a (b ∷ []) h (ha, bs) = elim (Bool-cases (high_bit a)) [
  | inl e ↦ omega (arith, high_byte a ha e)
  | inr e ↦ omega (arith, room_for (b % 128) (high_bit a) h e)
]
minimal_positive a (b ∷ c ∷ v) h (ha, bs) = omega (arith, minimal_positive b (c ∷ v) h bs)

low_high : (b : ℕ) → b < 128 → high_bit b ≡ false
unfolding high_bit
low_high b h = ground arith

ne_zero : (n : ℕ) → (n == 0) ≡ false → 1 ≤ n
ne_zero n h = ground arith

signed_low : (b : ℕ) → IsByte b → b % 128 + sign_byte (high_bit b) ≡ b
signed_low b hb = elim (Bool-cases (high_bit b)) [
  | inl e ↦ rw e (omega (arith, high_byte b hb e))
  | inr e ↦ rw e (omega (arith, low_byte b hb e))
]

carries : (a b : ℕ) → (b % 128 == 0) ≡ true → is_minimal (a ∷ b ∷ []) ≡ true → high_bit a ≡ true
unfolding is_minimal
carries a b e h = clear (b % 128 == 0) (high_bit a) e h
  where
    clear : (x y : Bool) → x ≡ true → (not x || y) ≡ true → y ≡ true
    clear true y e h = h
    clear false y e h = absurd (cc)

bytes_of-one : (fuel b : ℕ) → IsByte b → bytes_of fuel (high_bit b) (b % 128) ≡ b ∷ []
bytes_of-one fuel b hb = rw (
  bytes_of-last fuel (high_bit b) (b % 128) (ge→ltb 255 (b % 128) (omega arith)),
  last_bytes-one (high_bit b) (b % 128) (low_high (b % 128) (omega arith)),
  signed_low b hb,
)

bytes_of-two :
    (fuel a b : ℕ)
    → IsByte a
    → IsByte b
    → is_minimal (a ∷ b ∷ []) ≡ true
    → bytes_of (suc fuel) (high_bit b) (a + 256 * (b % 128)) ≡ a ∷ b ∷ []
bytes_of-two fuel a b ha hb h = elim (Bool-cases (b % 128 == 0)) [
  | inl e ↦
      let zero_low : b % 128 ≡ 0 = (==_iff (b % 128) 0).0 e in
      let big = carries a b e h in
      let abs : a + 256 * (b % 128) ≡ a = omega (arith, zero_low) in
      let top : sign_byte (high_bit b) ≡ b = omega (arith, zero_low, signed_low b hb) in
      rw (
        abs,
        bytes_of-last (suc fuel) (high_bit b) a (ge→ltb 255 a (omega arith)),
        last_bytes-two (high_bit b) a big,
        top,
      )
  | inr e ↦
      let n = b % 128 in
      let more = ne_zero n e in
      let low : (a + 256 * n) % 256 ≡ a = omega arith in
      let high : (a + 256 * n) / 256 ≡ n = omega arith in
      rw (
        bytes_of-more fuel (high_bit b) (a + 256 * n) (lt→ltb 255 (a + 256 * n) (omega arith)),
        low,
        high,
        bytes_of-one fuel b hb,
      )
]

-- Minimal bytes are those written for what they mean.
pub bytes_of-meaning :
    (fuel a : ℕ) (v : List ℕ)
    → All IsByte (a ∷ v)
    → is_minimal (a ∷ v) ≡ true
    → length v ≤ fuel
    → bytes_of fuel (sign (a ∷ v)) (magnitude (a ∷ v)) ≡ a ∷ v
unfolding magnitude sign is_minimal
bytes_of-meaning fuel a [] (ha, bs) h k = bytes_of-one fuel a ha
bytes_of-meaning zero a (b ∷ v) bs h k = absurd (omega arith)
bytes_of-meaning (suc fuel) a (b ∷ []) (ha, (hb, bs)) h k = bytes_of-two fuel a b ha hb h
bytes_of-meaning (suc fuel) a (b ∷ c ∷ v) (ha, bs) h k =
    let n = magnitude (b ∷ c ∷ v) in
    let pos = minimal_positive b (c ∷ v) h bs in
    let low : (a + 256 * n) % 256 ≡ a = omega arith in
    let high : (a + 256 * n) / 256 ≡ n = omega arith in
    rw
      (
        bytes_of-more fuel (sign (b ∷ c ∷ v)) (a + 256 * n)
            (lt→ltb 255 (a + 256 * n) (omega arith)),
        low,
        high,
      )
      (ap (λ xs. a ∷ xs) (bytes_of-meaning fuel b (c ∷ v) bs h (omega arith)))

last_bytes-length :
    (neg : Bool) (abs k : ℕ) → abs < 128 * 256 ^ k → abs < 256 → length (last_bytes neg abs) ≤ suc k
last_bytes-length neg abs k h small = elim (Bool-cases (high_bit abs)) [
  | inl e ↦ rw (last_bytes-two neg abs e) (room k h (high_byte abs small e))
  | inr e ↦ rw (last_bytes-one neg abs e) (omega arith)
]
  where
    room : (k : ℕ) → abs < 128 * 256 ^ k → 128 ≤ abs → 2 ≤ suc k
    room zero h g = absurd (omega arith)
    room (suc k) h g = omega arith

-- How long they are
pub length-bytes_of :
    (fuel k : ℕ) (neg : Bool) (abs : ℕ)
    → abs < 128 * 256 ^ k
    → abs < 256 ^ suc fuel
    → length (bytes_of fuel neg abs) ≤ suc k
length-bytes_of zero k neg abs h small =
    rw (bytes_of-last zero neg abs (ge→ltb 255 abs (omega arith)))
      (last_bytes-length neg abs k h (omega arith))
length-bytes_of (suc fuel) zero neg abs h small =
    rw (bytes_of-last (suc fuel) neg abs (ge→ltb 255 abs (omega arith)))
      (last_bytes-length neg abs 0 h (omega arith))
length-bytes_of (suc fuel) (suc k) neg abs h small = elim (Bool-cases (ltb 0xff abs)) [
  | inl e ↦
      let ih =
        length-bytes_of fuel k neg (abs / 256) (grind (arith, pow-suc)) (grind (arith, pow-suc)) in
      rw (bytes_of-more fuel neg abs e) (omega arith)
  | inr e ↦
      rw (bytes_of-last (suc fuel) neg abs e) (last_bytes-length neg abs (suc k) h (omega tests))
]

last_bytes-nonempty : (neg : Bool) (abs : ℕ) → 1 ≤ length (last_bytes neg abs)
last_bytes-nonempty neg abs = elim (Bool-cases (high_bit abs)) [
  | inl e ↦ rw (last_bytes-two neg abs e) (omega arith)
  | inr e ↦ rw (last_bytes-one neg abs e) (omega arith)
]

bytes_of-nonempty : (fuel : ℕ) (neg : Bool) (abs : ℕ) → 1 ≤ length (bytes_of fuel neg abs)
unfolding bytes_of
bytes_of-nonempty zero neg abs = (last_bytes-nonempty neg abs)
bytes_of-nonempty (suc fuel) neg abs = elim (Bool-cases (ltb 0xff abs)) [
  | inl e ↦ rw (bytes_of-more fuel neg abs e) (omega arith)
  | inr e ↦ rw (bytes_of-last (suc fuel) neg abs e) (last_bytes-nonempty neg abs)
]

pub power_pos : (k : ℕ) → 1 ≤ 256 ^ k
power_pos zero = omega arith
power_pos (suc k) = omega (arith, power_pos k, pow-suc 256 k)

last_bytes-long :
    (neg : Bool) (abs k : ℕ) → 128 * 256 ^ k ≤ abs → abs < 256 → suc k < length (last_bytes neg abs)
last_bytes-long neg abs zero h small = elim (Bool-cases (high_bit abs)) [
  | inl e ↦ rw (last_bytes-two neg abs e) (omega arith)
  | inr e ↦ absurd (omega (arith, low_byte abs small e))
]
last_bytes-long neg abs (suc k) h small = absurd (omega (arith, power_pos k, pow-suc 256 k))

pub bytes_of-long :
    (fuel k : ℕ) (neg : Bool) (abs : ℕ)
    → 128 * 256 ^ k ≤ abs
    → abs < 256 ^ suc fuel
    → suc k < length (bytes_of fuel neg abs)
bytes_of-long zero k neg abs h small =
    rw (bytes_of-last zero neg abs (ge→ltb 255 abs (omega arith)))
      (last_bytes-long neg abs k h (omega arith))
bytes_of-long (suc fuel) zero neg abs h small = elim (Bool-cases (ltb 0xff abs)) [
  | inl e ↦
      rw (bytes_of-more fuel neg abs e) (omega (arith, bytes_of-nonempty fuel neg (abs / 256)))
  | inr e ↦ rw (bytes_of-last (suc fuel) neg abs e) (last_bytes-long neg abs 0 h (omega tests))
]
bytes_of-long (suc fuel) (suc k) neg abs h small =
    let big : 255 < abs = omega (arith, power_pos k, pow-suc 256 k) in
    let ih =
      bytes_of-long fuel k neg (abs / 256) (grind (arith, pow-suc)) (grind (arith, pow-suc)) in
    rw (bytes_of-more fuel neg abs (lt→ltb 255 abs big)) (omega arith)
