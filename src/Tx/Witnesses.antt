-- ===== src/Tx/Witnesses.antt =====
-- `Witness` of litecoin/src/blockdata/witness.rs as the witness of a transaction's inputs.
use mathlib.Core.Path.{subst}
use rust_litecoin.Prelude.{ℕ, suc, ◌≡◌, refl, sym, ◌∙◌, true, List, [], ◌∷◌, length, arith, ==_iff}
use rust_litecoin.Wire.Codec.{Result, ok, err}
use rust_litecoin.Wire.RoundTrip.{RoundTrip, Sized}
use rust_litecoin.Witness.{Witness, new, is_empty, size, encode}
use rust_litecoin.Witness.Layout.{layout}
use rust_litecoin.Witness.Decode.{decode}
use rust_litecoin.Witness.Codec.{IsValidWitness, RoundTrip-witness, size-Sized}
use rust_litecoin.Tx.Types.{WitnessCodec}

-- The number that `size` returns, which does not panic on a valid witness
abbrev pub byte_count : Result ℕ → ℕ
byte_count (ok n) = n
byte_count (err e) = 0

no_elements : (elems : List (List ℕ)) → is_empty (layout elems) ≡ true → layout elems ≡ new
unfolding is_empty
no_elements [] e = refl
no_elements (x ∷ xs) e =
    let n : suc (length xs) ≡ 0 = (==_iff (suc (length xs)) 0).0 e in absurd (omega (arith, n))

pub empty_is_new : (w : Witness) → IsValidWitness w → is_empty w ≡ true → w ≡ new
empty_is_new w (elems, e, h) none_there = e ∙ no_elements elems (rw e at none_there)

pub sized : (w : Witness) → IsValidWitness w → Sized (encode w) (byte_count (size w))
sized w (elems, e, h) = let (n, counts, total) = size-Sized elems h in rw (e, counts) total

pub round_trip : (w : Witness) → IsValidWitness w → RoundTrip (encode w) decode w
round_trip w (elems, e, h) =
    subst (λ v. RoundTrip (encode v) decode v) (sym e) (RoundTrip-witness elems h)

pub new-is_empty : is_empty new ≡ true
unfolding is_empty
new-is_empty = refl

abbrev pub witnesses : WitnessCodec
witnesses = record {
  Witness = Witness;
  default_witness = new;
  is_empty = is_empty;
  size = λ w. byte_count (size w);
  encode_witness = encode;
  decode_witness = decode;
  IsValidWitness = IsValidWitness;
  default_is_empty = new-is_empty;
  empty_is_default = empty_is_new;
  witness_sized = sized;
  witness_round_trip = round_trip;
}
