-- ===== src/Script/Number/Write.antt =====
-- What `write_scriptint` of litecoin/src/blockdata/script/mod.rs leaves in the buffer.
use rust_litecoin.Prelude.{
  ℕ, zero, suc, ◌+◌, ◌/◌, ◌%◌, ◌^◌, ◌<◌, ◌≤◌, ◌≡◌, refl, sym, ap, ◌∙◌, Bool, true, false, List, [],
  ◌∷◌, ◌++◌, length, drop, ltb, if◌then◌else◌, arith, tests, Bool-cases, inl, inr, length-append,
  length-drop, drop_past, drop_add, append_assoc, lt→ltb, ge→ltb,
}
use native.Mathlib.Nat.{pow-suc}
use rust_litecoin.Witness.Buffer.{take_at}
use rust_litecoin.Script.{Result, ok, ◌and_script◌}
use rust_litecoin.Script.Number.{store, high_bit, sign_byte, write_last, write_bytes}

-- The bytes of a magnitude and a sign, from the low one
unfoldable pub last_bytes : Bool → ℕ → List ℕ
last_bytes neg abs = if high_bit abs then abs ∷ sign_byte neg ∷ [] else (abs + sign_byte neg) ∷ []

unfoldable pub bytes_of : ℕ → Bool → ℕ → List ℕ
bytes_of zero neg abs = last_bytes neg abs
bytes_of (suc fuel) neg abs = elim (ltb 0xff abs) [
  | true ↦ (abs % 256) ∷ bytes_of fuel neg (abs / 256)
  | false ↦ last_bytes neg abs
]

-- The buffer with some bytes replaced
abbrev pub filled : List ℕ → List ℕ → List ℕ → List ℕ × ℕ
filled done bytes rest = (done ++ (bytes ++ drop (length bytes) rest), length done + length bytes)

store-front :
    (b : ℕ) (done rest : List ℕ)
    → 0 < length rest
    → store b (done ++ rest, length done) ≡ ok (filled done (b ∷ []) rest)
unfolding store
store-front b done [] h = absurd (omega arith)
store-front b done (x ∷ rest) h =
    let fits =
      lt→ltb (length done) (length (done ++ x ∷ rest))
        (omega (arith, length-append done (x ∷ rest))) in
    let e : suc (length done) ≡ length done + 1 = omega arith in
    rw (fits, take_at (length done) done (x ∷ rest) refl, e, drop_past done (x ∷ rest) 1) refl

-- A byte that was written belongs to the front.
filled_one :
    (done : List ℕ) (b : ℕ) (rest : List ℕ)
    → filled done (b ∷ []) rest ≡ ((done ++ b ∷ []) ++ drop 1 rest, length (done ++ b ∷ []))
filled_one done b rest =
    let e : length (done ++ b ∷ []) ≡ length done + 1 =
      omega (arith, length-append done (b ∷ [])) in
    let f : done ++ b ∷ drop 1 rest ≡ (done ++ b ∷ []) ++ drop 1 rest = simp append_assoc in
    rw (e, f) refl

filled_step :
    (done : List ℕ) (b : ℕ) (bytes rest : List ℕ)
    → filled (done ++ b ∷ []) bytes (drop 1 rest) ≡ filled done (b ∷ bytes) rest
filled_step done b bytes rest =
    let e : length (done ++ b ∷ []) + length bytes ≡ length done + suc (length bytes) =
      omega (arith, length-append done (b ∷ [])) in
    let more : 1 + length bytes ≡ suc (length bytes) = omega arith in
    let f : drop (length bytes) (drop 1 rest) ≡ drop (suc (length bytes)) rest =
      sym (drop_add 1 (length bytes) rest) ∙ ap (λ n. drop n rest) more in
    rw (e, f, append_assoc done (b ∷ []) (bytes ++ drop (suc (length bytes)) rest)) refl

-- A byte and then whatever fills the rest
store_then :
    (b : ℕ) (bytes done rest : List ℕ) (k : List ℕ × ℕ → Result (List ℕ × ℕ))
    → 0 < length rest
    → k ((done ++ b ∷ []) ++ drop 1 rest, length (done ++ b ∷ []))
      ≡ ok (filled (done ++ b ∷ []) bytes (drop 1 rest))
    → (store b (done ++ rest, length done) and_script k) ≡ ok (filled done (b ∷ bytes) rest)
store_then b bytes done rest k h e =
    rw
      (
        store-front b done rest h,
        ◌and_script◌,
        filled_one done b rest,
        e,
        filled_step done b bytes rest,
      )
      refl

pub last_bytes-two :
    (neg : Bool) (abs : ℕ) → high_bit abs ≡ true → last_bytes neg abs ≡ abs ∷ sign_byte neg ∷ []
unfolding last_bytes
last_bytes-two neg abs e = rw e refl

pub last_bytes-one :
    (neg : Bool) (abs : ℕ) → high_bit abs ≡ false → last_bytes neg abs ≡ (abs + sign_byte neg) ∷ []
unfolding last_bytes
last_bytes-one neg abs e = rw e refl

pub low_byte : (b : ℕ) → b < 256 → high_bit b ≡ false → b < 128
unfolding high_bit
low_byte b h e = ground arith

pub high_byte : (b : ℕ) → b < 256 → high_bit b ≡ true → 128 ≤ b
unfolding high_bit
high_byte b h e = ground arith

sign_byte_small : (neg : Bool) → sign_byte neg ≤ 128
sign_byte_small true = omega arith
sign_byte_small false = omega arith

write_last-filled :
    (neg : Bool) (abs : ℕ) (done rest : List ℕ)
    → abs < 256
    → length (last_bytes neg abs) ≤ length rest
    → write_last neg abs (done ++ rest, length done) ≡ ok (filled done (last_bytes neg abs) rest)
unfolding write_last
write_last-filled neg abs done rest small fits = elim (Bool-cases (high_bit abs)) [
  | inl e ↦
      let two = last_bytes-two neg abs e in
      let room : 2 ≤ length rest = omega (arith, fits, ap length two) in
      let same : abs % 256 ≡ abs = omega arith in
      rw (e, two, same)
        (store_then abs (sign_byte neg ∷ []) done rest (store (sign_byte neg)) (omega arith) (
          store-front (sign_byte neg) (done ++ abs ∷ []) (drop 1 rest)
            (omega (arith, length-drop 1 rest))))
  | inr e ↦
      let one = last_bytes-one neg abs e in
      let room : 1 ≤ length rest = omega (arith, fits, ap length one) in
      let same : (abs + sign_byte neg) % 256 ≡ abs + sign_byte neg =
        omega (arith, low_byte abs small e, sign_byte_small neg) in
      rw (e, one, same) (store-front (abs + sign_byte neg) done rest (omega arith))
]

pub bytes_of-more :
    (fuel : ℕ) (neg : Bool) (abs : ℕ)
    → ltb 0xff abs ≡ true
    → bytes_of (suc fuel) neg abs ≡ (abs % 256) ∷ bytes_of fuel neg (abs / 256)
unfolding bytes_of
bytes_of-more fuel neg abs e = rw (bytes_of, e) refl

pub bytes_of-last :
    (fuel : ℕ) (neg : Bool) (abs : ℕ)
    → ltb 0xff abs ≡ false
    → bytes_of fuel neg abs ≡ last_bytes neg abs
unfolding bytes_of
bytes_of-last zero neg abs e = refl
bytes_of-last (suc fuel) neg abs e = rw (bytes_of, e) refl

write_bytes-last :
    (fuel : ℕ) (neg : Bool) (abs : ℕ) (state : List ℕ × ℕ)
    → ltb 0xff abs ≡ false
    → write_bytes (suc fuel) neg abs state ≡ write_last neg abs state
unfolding write_bytes
write_bytes-last fuel neg abs state e = rw (write_bytes, e) refl

write_bytes-more :
    (fuel : ℕ) (neg : Bool) (abs : ℕ) (state : List ℕ × ℕ)
    → ltb 0xff abs ≡ true
    → write_bytes (suc fuel) neg abs state
      ≡ (store (abs % 256) state and_script λ state'. write_bytes fuel neg (abs / 256) state')
unfolding write_bytes
write_bytes-more fuel neg abs state e = rw (write_bytes, e) refl

pub write_bytes-filled :
    (fuel : ℕ) (neg : Bool) (abs : ℕ) (done rest : List ℕ)
    → abs < 256 ^ suc fuel
    → length (bytes_of fuel neg abs) ≤ length rest
    → write_bytes (suc fuel) neg abs (done ++ rest, length done)
      ≡ ok (filled done (bytes_of fuel neg abs) rest)
write_bytes-filled zero neg abs done rest small fits =
    let e = ge→ltb 255 abs (omega arith) in
    let f = bytes_of-last zero neg abs e in
    rw (write_bytes-last zero neg abs (done ++ rest, length done) e, f)
      (write_last-filled neg abs done rest (omega arith) (omega (arith, fits, ap length f)))
write_bytes-filled (suc fuel) neg abs done rest small fits = elim (Bool-cases (ltb 0xff abs)) [
  | inl e ↦
      let f = bytes_of-more fuel neg abs e in
      let room : suc (length (bytes_of fuel neg (abs / 256))) ≤ length rest =
        omega (arith, fits, ap length f) in
      rw (write_bytes-more (suc fuel) neg abs (done ++ rest, length done) e, f)
        (store_then (abs % 256) (bytes_of fuel neg (abs / 256)) done rest
          (write_bytes (suc fuel) neg (abs / 256)) (omega arith)
          (write_bytes-filled fuel neg (abs / 256) (done ++ (abs % 256) ∷ []) (drop 1 rest)
            (grind (arith, pow-suc)) (omega (arith, length-drop 1 rest))))
  | inr e ↦
      let f = bytes_of-last (suc fuel) neg abs e in
      rw (write_bytes-last (suc fuel) neg abs (done ++ rest, length done) e, f)
        (write_last-filled neg abs done rest (omega tests) (omega (arith, fits, ap length f)))
]
