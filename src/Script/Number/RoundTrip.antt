-- ===== src/Script/Number/RoundTrip.antt =====
-- `write_scriptint` and `read_scriptint` of litecoin/src/blockdata/script/mod.rs belong together.
use rust_litecoin.Prelude.{
  ℕ, zero, suc, ◌+◌, ◌^◌, ◌<◌, ◌≤◌, ◌≡◌, refl, sym, ◌∙◌, Bool, true, false, List, [], ◌∷◌, ◌++◌,
  length, take, drop, ltb, if◌then◌else◌, arith, tests, Bool-cases, inl, inr, All, take_front,
}
use rust_litecoin.Prelude.Int.{ℤ, pos, negsuc}
use rust_litecoin.Wire.Codec.{IsByte}
use rust_litecoin.Script.{ok, err, numeric_overflow, non_minimal_push, last}
use rust_litecoin.Script.Number.{
  unsigned_abs, is_negative, is_zero, signed, write_scriptint, read_scriptint,
}
use rust_litecoin.Script.Number.Write.{bytes_of, write_bytes-filled}
use rust_litecoin.Script.Number.Meaning.{
  magnitude, sign, is_minimal, read_scriptint-meaning, read_scriptint-long,
}
use rust_litecoin.Script.Number.Minimal.{
  bytes_of-Means, minimal_positive, bytes_of-meaning, length-bytes_of, bytes_of-long, power_pos,
}
use native.Mathlib.Nat.{pow-suc}

-- The bytes of a number
abbrev pub script_bytes : ℤ → List ℕ
script_bytes (pos zero) = []
script_bytes (pos (suc n)) = bytes_of 7 false (suc n)
script_bytes (negsuc n) = bytes_of 7 true (suc n)

pub signed_of :
    (neg : Bool) (n : ℕ)
    → 1 ≤ n
    → (is_negative (signed neg n) ≡ neg)
      × (unsigned_abs (signed neg n) ≡ n)
      × (is_zero (signed neg n) ≡ false)
      × (script_bytes (signed neg n) ≡ bytes_of 7 neg n)
signed_of false zero h = absurd (omega arith)
signed_of false (suc n) h = (refl, refl, refl, refl)
signed_of true zero h = absurd (omega arith)
signed_of true (suc n) h = (refl, refl, refl, refl)

signed_back : (n : ℤ) → signed (is_negative n) (unsigned_abs n) ≡ n
signed_back (pos n) = refl
signed_back (negsuc n) = refl

write_positive :
    (out : List ℕ) (neg : Bool) (n : ℕ)
    → length out ≡ 8
    → 1 ≤ n
    → n < 2 ^ 63
    → write_scriptint out (signed neg n)
      ≡ ok (bytes_of 7 neg n ++ drop (length (bytes_of 7 neg n)) out, length (bytes_of 7 neg n))
unfolding write_scriptint
write_positive out neg n room one small =
    let s = signed_of neg n one in
    let short = length-bytes_of 7 7 neg n (omega arith) (omega arith) in
    let e : 0 + length (bytes_of 7 neg n) ≡ length (bytes_of 7 neg n) = omega arith in
    rw (write_scriptint, s.2, s.0, s.1)
      (write_bytes-filled 7 neg n [] out (omega arith) (omega arith) ∙ rw e refl)

-- A magnitude below 2 ^ 63 is written as its bytes and the rest of the buffer is kept.
pub write_scriptint-bytes :
    (out : List ℕ) (n : ℤ)
    → length out ≡ 8
    → unsigned_abs n < 2 ^ 63
    → write_scriptint out n
      ≡ ok (script_bytes n ++ drop (length (script_bytes n)) out, length (script_bytes n))
unfolding write_scriptint
write_scriptint-bytes out (pos zero) room small = refl
write_scriptint-bytes out (pos (suc n)) room small =
    write_positive out false (suc n) room (omega arith) small
write_scriptint-bytes out (negsuc n) room small =
    write_positive out true (suc n) room (omega arith) small

read_positive :
    (neg : Bool) (n : ℕ)
    → 1 ≤ n
    → n < 2 ^ 63
    → read_scriptint (bytes_of 7 neg n)
      ≡ (if ltb n (2 ^ 31) then ok (signed neg n) else err numeric_overflow)
read_positive neg n one small = elim (Bool-cases (ltb n (2 ^ 31))) [
  | inl e ↦
      let m = bytes_of-Means 7 neg n one (omega arith) in
      rw e (
        read_scriptint-meaning (bytes_of 7 neg n) m.0
          (length-bytes_of 7 3 neg n (omega tests) (omega arith))
        ∙ rw (m.3, m.2, m.1) refl)
  | inr e ↦
      rw e (
        read_scriptint-long (bytes_of 7 neg n)
          (bytes_of-long 7 3 neg n (omega tests) (omega arith)))
]

read_scriptint-bytes :
    (n : ℤ)
    → unsigned_abs n < 2 ^ 63
    → read_scriptint (script_bytes n)
      ≡ (if ltb (unsigned_abs n) (2 ^ 31) then ok n else err numeric_overflow)
unfolding read_scriptint last
read_scriptint-bytes (pos zero) small = refl
read_scriptint-bytes (pos (suc n)) small = read_positive false (suc n) (omega arith) small
read_scriptint-bytes (negsuc n) small = read_positive true (suc n) (omega arith) small

short_bytes : (n : ℤ) → unsigned_abs n < 2 ^ 63 → length (script_bytes n) ≤ 8
short_bytes (pos zero) small = omega arith
short_bytes (pos (suc n)) small = length-bytes_of 7 7 false (suc n) (omega arith) (omega arith)
short_bytes (negsuc n) small = length-bytes_of 7 7 true (suc n) (omega arith) (omega arith)

magnitude-bound : (k : ℕ) (v : List ℕ) → All IsByte v → length v ≤ k → magnitude v < 256 ^ k
unfolding magnitude
magnitude-bound k [] bytes h = power_pos k
magnitude-bound zero (a ∷ v) bytes h = absurd (omega arith)
magnitude-bound (suc k) (a ∷ []) (ha, bs) h = omega (arith, pow-suc 256 k, power_pos k)
magnitude-bound (suc k) (a ∷ b ∷ v) (ha, bs) h =
    omega (arith, magnitude-bound k (b ∷ v) bs (omega arith), pow-suc 256 k)

-- A minimal encoding that is read
rewritten :
    (out v : List ℕ) (neg : Bool) (n : ℕ)
    → length out ≡ 8
    → 1 ≤ n
    → n < 2 ^ 63
    → bytes_of 7 neg n ≡ v
    → (written : List ℕ) × (write_scriptint out (signed neg n) ≡ ok (written, length v))
      × (take (length v) written ≡ v)
rewritten out v neg n room one small e = (
  v ++ drop (length v) out,
  write_positive out neg n room one small ∙ rw e refl,
  take_front v (drop (length v) out),
)

ok-inj : (m n : ℤ) → ok m ≡ ok n → m ≡ n
ok-inj m n h = cc

-- Every number above the least i64 is written into a buffer of eight bytes, and the bytes that it
-- takes read back as the number when its magnitude is below 2 ^ 31 and as an overflow otherwise.
pub read_scriptint-write_scriptint :
    (out : List ℕ) (n : ℤ)
    → length out ≡ 8
    → unsigned_abs n < 2 ^ 63
    → (written : List ℕ) × (len : ℕ) × (write_scriptint out n ≡ ok (written, len))
      × (len ≤ 8)
      × (read_scriptint (take len written)
          ≡ (if ltb (unsigned_abs n) (2 ^ 31) then ok n else err numeric_overflow))
read_scriptint-write_scriptint out n room small =
    let bytes = script_bytes n in
    (
      bytes ++ drop (length bytes) out,
      length bytes,
      write_scriptint-bytes out n room small,
      short_bytes n small,
      rw (take_front bytes (drop (length bytes) out)) (read_scriptint-bytes n small),
    )

-- What `read_scriptint` takes is what `write_scriptint` writes for the number that it reads: no
-- number has two encodings.
pub write_scriptint-read_scriptint :
    (out v : List ℕ) (n : ℤ)
    → length out ≡ 8
    → All IsByte v
    → read_scriptint v ≡ ok n
    → (written : List ℕ) × (write_scriptint out n ≡ ok (written, length v))
      × (take (length v) written ≡ v)
write_scriptint-read_scriptint out [] n room bytes h =
    let zero_read : read_scriptint [] ≡ ok (pos 0) = read_scriptint-bytes (pos 0) (omega arith) in
    rw (sym (ok-inj (pos 0) n (sym zero_read ∙ h)))
      (out, write_scriptint-bytes out (pos 0) room (omega arith), refl)
write_scriptint-read_scriptint out (a ∷ v) n room bytes h =
    elim (Bool-cases (ltb 4 (length (a ∷ v)))) [
      | inl e ↦ absurd (clash n (sym (read_scriptint-long (a ∷ v) (omega tests)) ∙ h))
      | inr e ↦
          let meaning = read_scriptint-meaning (a ∷ v) bytes (omega tests) in
          elim (Bool-cases (is_minimal (a ∷ v))) [
            | inl m ↦
                let read : ok (signed (sign (a ∷ v)) (magnitude (a ∷ v))) ≡ ok n =
                  sym (meaning ∙ rw m refl) ∙ h in
                rw (sym (ok-inj (signed (sign (a ∷ v)) (magnitude (a ∷ v))) n read)) (
                  rewritten out (a ∷ v) (sign (a ∷ v)) (magnitude (a ∷ v)) room
                    (minimal_positive a v m bytes)
                    (omega (arith, magnitude-bound 4 (a ∷ v) bytes (omega tests)))
                    (bytes_of-meaning 7 a v bytes m (omega tests)))
            | inr m ↦ absurd (refused n (sym (meaning ∙ rw m refl) ∙ h))
          ]
    ]
  where
    clash : (n : ℤ) → err numeric_overflow ≡ ok n → ⊥
    clash n e = cc

    refused : (n : ℤ) → err non_minimal_push ≡ ok n → ⊥
    refused n e = cc
