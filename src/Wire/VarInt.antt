-- ===== src/Wire/VarInt.antt =====
-- `VarInt` of litecoin/src/consensus/encode.rs, a number below 2 ^ 64.
use rust_litecoin.Prelude.{
  ℕ, ◌+◌, ◌^◌, ◌≤◌, ◌<◌, ◌≡◌, refl, leb, ltb, ◌==◌, if◌then◌else◌, arith, ge→ltb, leb→le, ne→==, ap,
  tests,
}
use rust_litecoin.Wire.Codec.{non_minimal_var_int, Read, pure, throw, ◌>>=◌, Write, ◌⊕◌}
use rust_litecoin.Wire.RoundTrip.{
  RoundTrip, RoundTrip->>=, RoundTrip-then, RoundTrip-either, Sized, Sized-⊕, Sized-if,
}
use rust_litecoin.Wire.Ints.{emit_uint, read_uint, RoundTrip-uint, Sized-uint}

abbrev pub IsU64 : ℕ → Type 0
IsU64 v = v < 2 ^ 64

-- `VarInt::size`
unfoldable pub size : ℕ → ℕ
size v = if leb v 0xFC then 1 else if leb v 0xFFFF then 3 else if leb v 0xFFFFFFFF then 5 else 9

unfoldable pub encode : ℕ → Write
encode v =
    if leb v 0xFC
    then emit_uint 1 v
    else if leb v 0xFFFF
    then emit_uint 1 0xFD ⊕ emit_uint 2 v
    else if leb v 0xFFFFFFFF
    then emit_uint 1 0xFE ⊕ emit_uint 4 v
    else emit_uint 1 0xFF ⊕ emit_uint 8 v

-- A value that a shorter form could hold is refused.
at_least : ℕ → ℕ → Read ℕ
at_least low x = if ltb x low then throw non_minimal_var_int else pure x

decode_tail : ℕ → Read ℕ
decode_tail n =
    if n == 0xFF
    then (read_uint 8 >>= at_least 0x100000000)
    else if n == 0xFE
    then (read_uint 4 >>= at_least 0x10000)
    else if n == 0xFD
    then (read_uint 2 >>= at_least 0xFD)
    else pure n

unfoldable pub decode : Read ℕ
unfolding decode_tail at_least
decode = read_uint 1 >>= decode_tail

-- A long form reads back when its value is too large for the shorter ones.
tail_RoundTrip :
    (k low v : ℕ)
    → v < 256 ^ k
    → low ≤ v
    → RoundTrip (emit_uint k v) (read_uint k >>= at_least low) v
unfolding at_least
tail_RoundTrip k low v h l =
    RoundTrip-then _ (read_uint k) (at_least low) v v (RoundTrip-uint k v h)
      (λ s. rw (ge→ltb v low l))

-- A prefix byte and the form that it announces.
long_form :
    (mark k low v : ℕ)
    → mark < 256
    → (decode_tail mark ≡ (read_uint k >>= at_least low))
    → v < 256 ^ k
    → low ≤ v
    → RoundTrip (emit_uint 1 mark ⊕ emit_uint k v) decode v
unfolding decode
long_form mark k low v m e h l =
    RoundTrip->>= (emit_uint 1 mark) (emit_uint k v) (read_uint 1) decode_tail mark v
      (RoundTrip-uint 1 mark (omega arith)) (rw e (tail_RoundTrip k low v h l))

decode_tail-small : (v : ℕ) → v ≤ 0xFC → decode_tail v ≡ pure v
unfolding decode_tail
decode_tail-small v h =
    rw (ne→== v 0xFF (omega arith), ne→== v 0xFE (omega arith), ne→== v 0xFD (omega arith))

short_form : (v : ℕ) → v ≤ 0xFC → RoundTrip (emit_uint 1 v) decode v
unfolding decode
short_form v h =
    RoundTrip-then _ (read_uint 1) decode_tail v v (RoundTrip-uint 1 v (omega arith))
      (λ s. ap (λ (p : Read ℕ). p s) (decode_tail-small v h))

-- Every u64 is written, and reads back with whatever follows it left over.
pub RoundTrip-var_int : (v : ℕ) → IsU64 v → RoundTrip (encode v) decode v
unfolding encode decode_tail
RoundTrip-var_int v h =
    RoundTrip-either (leb v 0xFC) _ _ decode v (λ e. short_form v (leb→le v _ e))
      (λ e1.
        RoundTrip-either (leb v 0xFFFF) _ _ decode v
          (λ e. long_form 0xFD 2 0xFD v (omega arith) refl (omega tests) (omega tests))
          (λ e2.
            RoundTrip-either (leb v 0xFFFFFFFF) _ _ decode v
              (λ e. long_form 0xFE 4 0x10000 v (omega arith) refl (omega tests) (omega tests))
              (λ e3.
                long_form 0xFF 8 0x100000000 v (omega arith) refl (omega tests) (omega tests))))

pub size-bound : (v : ℕ) → size v ≤ 9
unfolding size
size-bound v = ground arith

-- Writing a number never fails, and both the bytes written and the length that `encode` returns
-- count what `size` predicts.
pub encode-size : (v : ℕ) → Sized (encode v) (size v)
unfolding encode size
encode-size v = Sized-if (leb v 0xFC) _ _ _ _ (Sized-uint 1 v) (
    Sized-if (leb v 0xFFFF) _ _ _ _ (long 0xFD 2)
      (Sized-if (leb v 0xFFFFFFFF) _ _ _ _ (long 0xFE 4) (long 0xFF 8)))
  where
    long : (mark k : ℕ) → Sized (emit_uint 1 mark ⊕ emit_uint k v) (1 + k)
    long mark k = Sized-⊕ _ _ 1 k (Sized-uint 1 mark) (Sized-uint k v)
