-- ===== src/Script/Number/Meaning.antt =====
-- The numbers in scripts of litecoin/src/blockdata/script/mod.rs, by what their bytes mean: the low
-- seven bits of the last byte are the top of the magnitude, and its high bit is the sign.
use rust_litecoin.Prelude.{
  ℕ, ◌+◌, ◌*◌, ◌%◌, ◌^◌, ◌<◌, ◌≤◌, ◌≡◌, refl, ap, ◌∙◌, Bool, true, false, not, ◌&&◌, ◌||◌, List, [],
  ◌∷◌, some, length, ◌==◌, if◌then◌else◌, arith, Bool-cases, inl, inr, lt→ltb, All,
}
use rust_litecoin.Prelude.Int.{ℤ, pos}
use rust_litecoin.Wire.Codec.{IsByte}
use rust_litecoin.Script.{Result, ok, err, numeric_overflow, non_minimal_push, last}
use rust_litecoin.Script.Number.{
  signed, high_bit, fold_bytes, scriptint_parse, no_sign_conflict, read_scriptint,
}
use rust_litecoin.Script.Number.Write.{low_byte, high_byte}

unfoldable pub magnitude : List ℕ → ℕ
magnitude [] = 0
magnitude (top ∷ []) = top % 128
magnitude (a ∷ b ∷ v) = a + 256 * magnitude (b ∷ v)

unfoldable pub sign : List ℕ → Bool
sign [] = false
sign (top ∷ []) = high_bit top
sign (a ∷ b ∷ v) = sign (b ∷ v)

-- No byte can be left out: the last one holds more than the sign, or the one before needs the room.
unfoldable pub is_minimal : List ℕ → Bool
is_minimal [] = true
is_minimal (top ∷ []) = not (top % 128 == 0)
is_minimal (a ∷ top ∷ []) = not (top % 128 == 0) || high_bit a
is_minimal (a ∷ b ∷ c ∷ v) = is_minimal (b ∷ c ∷ v)

-- What the parser makes of the folded bytes
chosen :
    (top ret m n : ℕ)
    → (high_bit top ≡ true → ret % m ≡ n)
    → (high_bit top ≡ false → ret ≡ n)
    → (if high_bit top then ok (signed true (ret % m)) else ok (pos ret))
      ≡ ok (signed (high_bit top) n)
chosen top ret m n h k = elim (Bool-cases (high_bit top)) [
  | inl e ↦ rw (e, h e) refl
  | inr e ↦ rw (e, k e) refl
]

pub scriptint_parse-magnitude :
    (a : ℕ) (v : List ℕ)
    → All IsByte (a ∷ v)
    → length v ≤ 3
    → scriptint_parse (a ∷ v) ≡ ok (signed (sign (a ∷ v)) (magnitude (a ∷ v)))
unfolding scriptint_parse fold_bytes last sign magnitude
scriptint_parse-magnitude a [] (ha, u) h =
    chosen a (0 + a * 1) 128 (a % 128) (λ e. omega arith) (λ e. omega (arith, low_byte a ha e))
scriptint_parse-magnitude a (b ∷ []) (ha, (hb, u)) h =
    chosen b (0 + a * 1 + b * 256) (2 ^ 15) (a + 256 * (b % 128))
      (λ e. omega (arith, high_byte b hb e)) (λ e. omega (arith, low_byte b hb e))
scriptint_parse-magnitude a (b ∷ c ∷ []) (ha, (hb, (hc, u))) h =
    chosen c (0 + a * 1 + b * 256 + c * 256 ^ 2) (2 ^ 23) (a + 256 * (b + 256 * (c % 128)))
      (λ e. omega (arith, high_byte c hc e)) (λ e. omega (arith, low_byte c hc e))
scriptint_parse-magnitude a (b ∷ c ∷ d ∷ []) (ha, (hb, (hc, (hd, u)))) h =
    chosen d (0 + a * 1 + b * 256 + c * 256 ^ 2 + d * 256 ^ 3) (2 ^ 31)
      (a + 256 * (b + 256 * (c + 256 * (d % 128)))) (λ e. omega (arith, high_byte d hd e))
      (λ e. omega (arith, low_byte d hd e))
scriptint_parse-magnitude a (b ∷ c ∷ d ∷ x ∷ v) h k = absurd (omega arith)

refused_one :
    (x : Bool) (r : Result ℤ)
    → (if x && true then err non_minimal_push else r) ≡ (if not x then r else err non_minimal_push)
refused_one true r = refl
refused_one false r = refl

refused_more :
    (x y : Bool) (r : Result ℤ)
    → (if x && (false || not y) then err non_minimal_push else r)
      ≡ (if not x || y then r else err non_minimal_push)
refused_more true true r = refl
refused_more true false r = refl
refused_more false y r = refl

read-minimal :
    (a : ℕ) (v : List ℕ)
    → length v ≤ 3
    → read_scriptint (a ∷ v)
      ≡ (if is_minimal (a ∷ v) then scriptint_parse (a ∷ v) else err non_minimal_push)
unfolding read_scriptint is_minimal no_sign_conflict last
read-minimal a [] h = refused_one (a % 128 == 0) (scriptint_parse (a ∷ []))
read-minimal a (b ∷ []) h = refused_more (b % 128 == 0) (high_bit a) (scriptint_parse (a ∷ b ∷ []))
read-minimal a (b ∷ c ∷ []) h =
    refused_more (c % 128 == 0) (high_bit b) (scriptint_parse (a ∷ b ∷ c ∷ []))
read-minimal a (b ∷ c ∷ d ∷ []) h =
    refused_more (d % 128 == 0) (high_bit c) (scriptint_parse (a ∷ b ∷ c ∷ d ∷ []))
read-minimal a (b ∷ c ∷ d ∷ x ∷ v) h = absurd (omega arith)

read_none :
    read_scriptint [] ≡ (if is_minimal [] then ok (signed false 0) else err non_minimal_push)
unfolding read_scriptint is_minimal last
read_none = refl

-- At most four bytes are read as what they mean, when no byte can be left out.
pub read_scriptint-meaning :
    (v : List ℕ)
    → All IsByte v
    → length v ≤ 4
    → read_scriptint v
      ≡ (if is_minimal v then ok (signed (sign v) (magnitude v)) else err non_minimal_push)
unfolding sign magnitude
read_scriptint-meaning [] h k = read_none
read_scriptint-meaning (a ∷ v) h k =
    read-minimal a v (omega arith)
    ∙ ap (λ r. if is_minimal (a ∷ v) then r else err non_minimal_push)
        (scriptint_parse-magnitude a v h (omega arith))

last-some : (a : ℕ) (v : List ℕ) → (top : ℕ) × (last (a ∷ v) ≡ some top)
unfolding last
last-some a [] = (a, refl)
last-some a (b ∷ v) = last-some b v

pub read_scriptint-long : (v : List ℕ) → 4 < length v → read_scriptint v ≡ err numeric_overflow
unfolding read_scriptint
read_scriptint-long [] h = absurd (omega arith)
read_scriptint-long (a ∷ v) h =
    rw (read_scriptint, (last-some a v).1, lt→ltb 4 (length (a ∷ v)) h) refl
