-- ===== src/Tx/Codec/Pieces.antt =====
-- The parts of the transaction codec: a transaction that fits, and each field read back.
use mathlib.Core.List.{map}
use rust_litecoin.Prelude.{
  ◌^◌, ◌<◌, ◌≡◌, refl, sym, Bool, true, false, not, ◌&&◌, ◌||◌, List, [], ◌∷◌, All, Option, none,
  some, length, ◌==◌, if◌then◌else◌, arith, ne→==,
}
use rust_litecoin.Wire.Codec.{pure, ◌>>=◌, emit}
use rust_litecoin.Wire.RoundTrip.{RoundTrip, RoundTrip->>=, RoundTrip-then, RoundTrip-pure}
use rust_litecoin.Wire.Ints.{read_uint, RoundTrip-uint}
use rust_litecoin.Wire.VarInt.{IsU64}
use rust_litecoin.Wire.Vectors.{
  encode_all, encode_vec, decode_vec, RoundTrip-vec, RoundTrip-vec_map,
}
use rust_litecoin.Locktime.Absolute.{encode_lock_time, decode_lock_time, RoundTrip-lock_time}
use rust_litecoin.Locktime.Absolute
use rust_litecoin.Mweb.Types.{PublicKeys}
use rust_litecoin.Mweb.Types as Mweb
use rust_litecoin.Mweb.Transaction.RoundTrip.{IsValidTransaction, RoundTrip-transaction}
use rust_litecoin.Tx.Types.{WitnessCodec, TxIn, TxOut, Transaction}
use rust_litecoin.Tx.Parts.{
  encode_tx_in, decode_tx_in, encode_tx_out, decode_tx_out, IsValidTxIn, IsValidTxOut,
  RoundTrip-tx_in, RoundTrip-tx_out,
}
use rust_litecoin.Tx.Codec.{
  is_some, any_witness, all_empty, encode_mweb, decode_witnesses, some_witness, decode_mweb,
}

module _ (secp : PublicKeys) (wc : WitnessCodec) where
  open secp use {PublicKey}
  open wc use {
    Witness, default_witness, is_empty, encode_witness, decode_witness, IsValidWitness,
    empty_is_default, witness_round_trip,
  }

  -- An input and its witness have the sizes of their types.
  pub record IsValidInput (i : TxIn Witness) : Type 0 where
    pub tx_in_ok : IsValidTxIn i
    pub witness_ok : IsValidWitness i.witness

  -- The MWEB part is valid, a transaction with one is not marked as HogEx, and a HogEx
  -- transaction has an output.
  abbrev pub IsValidMweb : Option (Mweb.Transaction PublicKey) → Bool → List TxOut → Type 0
  IsValidMweb (some mw) hog output = IsValidTransaction secp mw × (hog ≡ false)
  IsValidMweb none true output = 0 < length output
  IsValidMweb none false output = Unit

  unfoldable pub strip : TxIn Witness → TxIn Witness
  strip i = record i { witness = default_witness }

  stripped :
      (xs : List (TxIn Witness))
      → All IsValidInput xs
      → All (λ i. RoundTrip (encode_tx_in i) (decode_tx_in default_witness) (strip i)) xs
  unfolding strip
  stripped [] h = tt
  stripped (i ∷ is) (h, t) = (RoundTrip-tx_in i default_witness h.tx_in_ok, stripped is t)

  -- Without a witness there is nothing to strip.
  pub strip_none :
      (xs : List (TxIn Witness))
      → All IsValidInput xs
      → any_witness secp wc xs ≡ false
      → map strip xs ≡ xs
  unfolding strip any_witness
  strip_none [] h e = refl
  strip_none (i ∷ is) (h, t) e =
      let none_here : is_empty i.witness ≡ true = ground arith in
      let none_there : any_witness secp wc is ≡ false = ground arith in
      let back = empty_is_default i.witness h.witness_ok none_here in
      λ k. record i { witness = sym back k } ∷ strip_none is t none_there k

  pub all_empty-any_witness :
      (xs : List (TxIn Witness)) → all_empty secp wc xs ≡ not (any_witness secp wc xs)
  unfolding all_empty any_witness
  all_empty-any_witness [] = refl
  all_empty-any_witness (i ∷ is) = ground (arith, all_empty-any_witness is)

  witnesses_RoundTrip :
      (xs : List (TxIn Witness))
      → All IsValidInput xs
      → RoundTrip
          (encode_all (λ (i : TxIn Witness). encode_witness i.witness) xs)
          (decode_witnesses secp wc (map strip xs))
          xs
  unfolding encode_all decode_witnesses strip
  witnesses_RoundTrip [] h = RoundTrip-pure []
  witnesses_RoundTrip (i ∷ is) (h, t) =
      RoundTrip->>= _ _ decode_witness _ i.witness (i ∷ is)
        (witness_round_trip i.witness h.witness_ok)
        (RoundTrip-then _ (decode_witnesses secp wc (map strip is)) _ is (i ∷ is)
          (witnesses_RoundTrip is t) (λ s. refl))

  pub mweb_RoundTrip :
      (mw : Option (Mweb.Transaction PublicKey)) (hog : Bool) (output : List TxOut)
      → IsValidMweb mw hog output
      → RoundTrip
          (if is_some mw || hog then encode_mweb secp wc mw else emit [])
          (if is_some mw || hog
            then (read_uint 1 >>= decode_mweb secp wc output)
            else pure (none, false))
          (mw, hog)
  unfolding encode_mweb decode_mweb
  mweb_RoundTrip (some mw) hog output (h, e) =
      RoundTrip->>= _ _ (read_uint 1) (decode_mweb secp wc output) 1 (some mw, hog)
        (RoundTrip-uint 1 1 (omega arith))
        (RoundTrip-then _ _ _ mw (some mw, hog) (RoundTrip-transaction secp mw h) (λ s. rw e))
  mweb_RoundTrip none true output h =
      RoundTrip-then _ (read_uint 1) (decode_mweb secp wc output) 0 (none, true)
        (RoundTrip-uint 1 0 (omega arith)) (λ s. rw (ne→== (length output) 0 (omega arith)))
  mweb_RoundTrip none false output h = RoundTrip-pure (none, false)

  outs :
      (xs : List TxOut)
      → All IsValidTxOut xs
      → All (λ o. RoundTrip (encode_tx_out o) decode_tx_out o) xs
  outs [] h = tt
  outs (o ∷ os) (h, t) = (RoundTrip-tx_out o h, outs os t)

  -- Each optional field is absent or valid, the forms that the decoder refuses are excluded, and
  -- the numbers have the sizes of their types.
  pub record IsValidTx (t : Transaction PublicKey Witness) : Type 0 where
    pub version_fits : t.version < 2 ^ 32
    pub lock_time_ok : Absolute.IsValid t.lock_time
    pub inputs_ok : All IsValidInput t.input
    pub inputs_fit : IsU64 (length t.input)
    pub outputs_ok : All IsValidTxOut t.output
    pub outputs_fit : IsU64 (length t.output)
    pub mweb_ok : IsValidMweb t.mw_tx t.is_hog_ex t.output

  pub inputs_RoundTrip :
      (t : Transaction PublicKey Witness)
      → IsValidTx t
      → RoundTrip
          (encode_vec encode_tx_in t.input)
          (decode_vec (decode_tx_in default_witness))
          (map strip t.input)
  inputs_RoundTrip t v =
      RoundTrip-vec_map strip _ _ t.input v.inputs_fit (stripped t.input v.inputs_ok)

  pub outputs_RoundTrip :
      (t : Transaction PublicKey Witness)
      → IsValidTx t
      → RoundTrip (encode_vec encode_tx_out t.output) (decode_vec decode_tx_out) t.output
  outputs_RoundTrip t v = RoundTrip-vec _ _ t.output v.outputs_fit (outs t.output v.outputs_ok)

  -- The witnesses, or nothing where no witness is written.
  pub segwit_RoundTrip :
      (segwit : Bool) (xs : List (TxIn Witness))
      → All IsValidInput xs
      → (segwit ≡ true → (not (length xs == 0) && all_empty secp wc xs) ≡ false)
      → (segwit ≡ false → any_witness secp wc xs ≡ false)
      → RoundTrip
          (if segwit
            then encode_all (λ (i : TxIn Witness). encode_witness i.witness) xs
            else emit [])
          (if segwit
            then (decode_witnesses secp wc (map strip xs) >>= some_witness secp wc)
            else pure (map strip xs))
          xs
  unfolding some_witness
  segwit_RoundTrip true xs v h k =
      RoundTrip-then _ (decode_witnesses secp wc (map strip xs)) (some_witness secp wc) xs xs
        (witnesses_RoundTrip xs v) (λ s. rw (h refl))
  segwit_RoundTrip false xs v h k = rw (strip_none xs v (k refl)) (RoundTrip-pure xs)
