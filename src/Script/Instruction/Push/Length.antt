-- ===== src/Script/Instruction/Push/Length.antt =====
-- The length of a push by `read_uint_iter` of litecoin/src/blockdata/script/mod.rs, for the three
-- widths that instruction.rs uses.
use rust_litecoin.Prelude.{
  ℕ, suc, ◌+◌, ◌*◌, ◌^◌, ◌%◌, ◌<◌, ◌≡◌, refl, ap, ◌∙◌, List, ◌∷◌, length, arith, lt→ltb, ge→ltb,
}
use rust_litecoin.Wire.Codec.{IsByte}
use rust_litecoin.Script.Instruction.{
  uint_ok, uint_err, uint_early_end, read_uint_loop, read_uint_iter,
}

loop_step :
    (size i ret b : ℕ) (bytes : List ℕ)
    → i * 8 < 64
    → b * 2 ^ (i * 8) < 2 ^ 40
    → ret < 2 ^ 40
    → read_uint_loop (suc size) i ret (b ∷ bytes)
      ≡ read_uint_loop size (suc i) (b * 2 ^ (i * 8) + ret) bytes
unfolding read_uint_loop
loop_step size i ret b bytes h k l =
    let shifted = b * 2 ^ (i * 8) in
    let kept : shifted % 2 ^ 64 ≡ shifted = omega arith in
    let sum = lt→ltb (shifted + ret) (2 ^ 64) (omega arith) in
    let shift = lt→ltb (i * 8) 64 h in rw (read_uint_loop, shift, kept, sum, kept) refl

pub read_uint_one :
    (a : ℕ) (bytes : List ℕ) → IsByte a → read_uint_iter (a ∷ bytes) 1 ≡ (uint_ok a, bytes)
unfolding read_uint_iter read_uint_loop
read_uint_one a bytes ha = rw (ge→ltb (length (a ∷ bytes)) 1 (omega arith)) (
    loop_step 0 0 0 a bytes (omega arith) (omega arith) (omega arith)
    ∙ ap (λ n. (uint_ok n, bytes)) (omega arith))

pub read_uint_two :
    (a b : ℕ) (bytes : List ℕ)
    → IsByte a
    → IsByte b
    → read_uint_iter (a ∷ b ∷ bytes) 2 ≡ (uint_ok (a + 256 * b), bytes)
unfolding read_uint_iter read_uint_loop
read_uint_two a b bytes ha hb = rw (ge→ltb (length (a ∷ b ∷ bytes)) 2 (omega arith)) (
    loop_step 1 0 0 a (b ∷ bytes) (omega arith) (omega arith) (omega arith)
    ∙ loop_step 0 1 (a * 1 + 0) b bytes (omega arith) (omega arith) (omega arith)
    ∙ ap (λ n. (uint_ok n, bytes)) (omega arith))

pub read_uint_four :
    (a b c d : ℕ) (bytes : List ℕ)
    → IsByte a
    → IsByte b
    → IsByte c
    → IsByte d
    → read_uint_iter (a ∷ b ∷ c ∷ d ∷ bytes) 4
      ≡ (uint_ok (a + 256 * (b + 256 * (c + 256 * d))), bytes)
unfolding read_uint_iter read_uint_loop
read_uint_four a b c d bytes ha hb hc hd =
    rw (ge→ltb (length (a ∷ b ∷ c ∷ d ∷ bytes)) 4 (omega arith)) (
      loop_step 3 0 0 a (b ∷ c ∷ d ∷ bytes) (omega arith) (omega arith) (omega arith)
      ∙ loop_step 2 1 (a * 1 + 0) b (c ∷ d ∷ bytes) (omega arith) (omega arith) (omega arith)
      ∙ loop_step 1 2 (b * 2 ^ 8 + (a * 1 + 0)) c (d ∷ bytes) (omega arith) (omega arith)
          (omega arith)
      ∙ loop_step 0 3 (c * 2 ^ 16 + (b * 2 ^ 8 + (a * 1 + 0))) d bytes (omega arith) (omega arith)
          (omega arith)
      ∙ ap (λ n. (uint_ok n, bytes)) (omega arith))

-- With fewer bytes than the width there is no length.
pub read_uint_short :
    (bytes : List ℕ) (size : ℕ)
    → length bytes < size
    → read_uint_iter bytes size ≡ (uint_err uint_early_end, bytes)
unfolding read_uint_iter
read_uint_short bytes size h = rw (lt→ltb (length bytes) size h) refl
