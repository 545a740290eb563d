-- ===== src/Tx/Codec/RoundTrip.antt =====
-- A valid transaction is written in one of its four forms, and reads back from it.
use mathlib.Core.List.{map}
use mathlib.Core.Path.{subst}
use rust_litecoin.Prelude.{
  ℕ, ◌<◌, ◌≡◌, refl, sym, Bool, true, false, not, ◌&&◌, ◌||◌, [], Option, none, length, ◌==◌,
  if◌then◌else◌, arith, Bool-cases, inl, inr,
}
use rust_litecoin.Wire.Codec.{◌>>=◌, Write, ◌⊕◌, emit}
use rust_litecoin.Wire.RoundTrip.{RoundTrip, RoundTrip->>=, RoundTrip-then, ⊕-assoc}
use rust_litecoin.Wire.Ints.{emit_uint, to_le_bytes, read_uint, RoundTrip-uint}
use rust_litecoin.Wire.Vectors.{encode_all, encode_vec, decode_vec, RoundTrip-vec}
use rust_litecoin.Locktime.Absolute.{encode_lock_time, decode_lock_time, RoundTrip-lock_time}
use rust_litecoin.Mweb.Types.{PublicKeys}
use rust_litecoin.Mweb.Types as Mweb
use rust_litecoin.Tx.Types.{WitnessCodec, TxIn, Transaction}
use rust_litecoin.Tx.Parts.{encode_tx_in, decode_tx_in, encode_tx_out}
use rust_litecoin.Tx.Codec.{
  flag_of, is_some, any_witness, all_empty, has_mweb, segwit_required, encode_mweb, encode_fields,
  encode_transaction, decode_extended, decode_flag, decode_legacy, decode_rest, decode_transaction,
  bad_flag,
}
use rust_litecoin.Tx.Codec.Pieces.{
  strip, strip_none, all_empty-any_witness, mweb_RoundTrip, inputs_RoundTrip, outputs_RoundTrip,
  segwit_RoundTrip, IsValidTx,
}

module _ (secp : PublicKeys) (wc : WitnessCodec) where
  open secp use {PublicKey}
  open wc use {Witness, default_witness, encode_witness}

  -- What follows the flag byte, for any choice of the two flags that the decoder accepts.
  extended_RoundTrip :
      (segwit : Bool) (t : Transaction PublicKey Witness)
      → IsValidTx secp wc t
      → (segwit ≡ true → (not (length t.input == 0) && all_empty secp wc t.input) ≡ false)
      → (segwit ≡ false → any_witness secp wc t.input ≡ false)
      → RoundTrip
          (encode_vec encode_tx_in t.input
            ⊕ encode_vec encode_tx_out t.output
            ⊕ (if segwit
                then encode_all (λ (i : TxIn Witness). encode_witness i.witness) t.input
                else emit [])
            ⊕ (if has_mweb secp wc t then encode_mweb secp wc t.mw_tx else emit [])
            ⊕ encode_lock_time t.lock_time)
          (decode_extended secp wc t.version segwit (has_mweb secp wc t))
          t
  unfolding decode_extended has_mweb
  extended_RoundTrip segwit t v h k =
      RoundTrip->>= _ _ _ _ (map (strip secp wc) t.input) t (inputs_RoundTrip secp wc t v) (
        RoundTrip->>= _ _ _ _ t.output t (outputs_RoundTrip secp wc t v) (
          RoundTrip->>= _ _ _ _ t.input t (segwit_RoundTrip secp wc segwit t.input v.inputs_ok h k)
            (RoundTrip->>= _ _ _ _ (t.mw_tx, t.is_hog_ex) t
              (mweb_RoundTrip secp wc t.mw_tx t.is_hog_ex t.output v.mweb_ok)
              (RoundTrip-then _ _ _ t.lock_time t (RoundTrip-lock_time t.lock_time v.lock_time_ok)
                (λ s. refl)))))

  -- The flags that are written are those that the decoder sees.
  flag_seen :
      (version : ℕ) (segwit mweb : Bool)
      → (segwit || mweb) ≡ true
      → decode_flag secp wc version (flag_of segwit mweb)
        ≡ decode_extended secp wc version segwit mweb
  unfolding decode_flag flag_of bad_flag
  flag_seen version true true h = refl
  flag_seen version true false h = refl
  flag_seen version false true h = refl
  flag_seen version false false h = cc

  flag_byte : (segwit mweb : Bool) → flag_of segwit mweb < 256
  unfolding flag_of
  flag_byte segwit mweb = ground arith

  marker_RoundTrip :
      RoundTrip (emit_uint 1 0) (decode_vec (decode_tx_in {Witness = Witness} default_witness)) []
  unfolding encode_vec emit_uint to_le_bytes
  marker_RoundTrip = RoundTrip-vec encode_tx_in (decode_tx_in default_witness) [] (omega arith) tt

  -- The extended form, regrouped.
  extended_form :
      (segwit mweb : Bool) (t : Transaction PublicKey Witness) (last : Write)
      → (segwit || mweb) ≡ true
      → encode_fields secp wc segwit mweb t ⊕ last
        ≡ emit_uint 1 0
          ⊕ emit_uint 1 (flag_of segwit mweb)
          ⊕ encode_vec encode_tx_in t.input
          ⊕ encode_vec encode_tx_out t.output
          ⊕ (if segwit
              then encode_all (λ (i : TxIn Witness). encode_witness i.witness) t.input
              else emit [])
          ⊕ (if mweb then encode_mweb secp wc t.mw_tx else emit [])
          ⊕ last
  unfolding encode_fields
  extended_form segwit mweb t last h =
      let e : (not segwit && not mweb) ≡ false = ground arith in rw e (simp ⊕-assoc)

  extended_all :
      (segwit : Bool) (t : Transaction PublicKey Witness)
      → IsValidTx secp wc t
      → (segwit || has_mweb secp wc t) ≡ true
      → (segwit ≡ true → (not (length t.input == 0) && all_empty secp wc t.input) ≡ false)
      → (segwit ≡ false → any_witness secp wc t.input ≡ false)
      → RoundTrip
          (encode_fields secp wc segwit (has_mweb secp wc t) t ⊕ encode_lock_time t.lock_time)
          (decode_vec (decode_tx_in default_witness) >>= decode_rest secp wc t.version)
          t
  unfolding decode_rest
  extended_all segwit t v some_flag h k =
      rw (extended_form segwit (has_mweb secp wc t) t (encode_lock_time t.lock_time) some_flag) (
        RoundTrip->>= _ _ _ (decode_rest secp wc t.version) [] t marker_RoundTrip (
          RoundTrip->>= _ _ (read_uint 1) (decode_flag secp wc t.version)
            (flag_of segwit (has_mweb secp wc t)) t
            (RoundTrip-uint 1 _ (flag_byte segwit (has_mweb secp wc t)))
            (rw (flag_seen t.version segwit (has_mweb secp wc t) some_flag)
              (extended_RoundTrip segwit t v h k))))

  no_mweb :
      (mw : Option (Mweb.Transaction PublicKey)) (hog : Bool)
      → (is_some mw || hog) ≡ false
      → (mw ≡ none) × (hog ≡ false)
  no_mweb mw hog h = (ground arith, ground arith)

  -- The legacy form has inputs, no witness and no MWEB part.
  legacy_all :
      (t : Transaction PublicKey Witness)
      → IsValidTx secp wc t
      → any_witness secp wc t.input ≡ false
      → has_mweb secp wc t ≡ false
      → (length t.input == 0) ≡ false
      → RoundTrip
          (encode_fields secp wc false false t ⊕ encode_lock_time t.lock_time)
          (decode_vec (decode_tx_in default_witness) >>= decode_rest secp wc t.version)
          t
  unfolding encode_fields decode_rest decode_legacy has_mweb
  legacy_all t v no_witness no_ext some_input =
      let (no_mw, no_hog) = no_mweb t.mw_tx t.is_hog_ex no_ext in
      let plain : Transaction PublicKey Witness = record t { mw_tx = none; is_hog_ex = false } in
      let back : plain ≡ t = λ k. record t { mw_tx = sym no_mw k; is_hog_ex = sym no_hog k } in
      rw ⊕-assoc (
        RoundTrip->>= _ _ _ (decode_rest secp wc t.version) t.input t
          (rw (strip_none secp wc t.input v.inputs_ok no_witness) at (inputs_RoundTrip secp wc t v))
          (rw some_input (
            subst (RoundTrip _ _) back (
              RoundTrip->>= _ _ _ _ t.output plain (outputs_RoundTrip secp wc t v) (
                RoundTrip-then _ decode_lock_time _ t.lock_time plain
                  (RoundTrip-lock_time t.lock_time v.lock_time_ok) (λ s. refl))))))

  required_some :
      (t : Transaction PublicKey Witness)
      → segwit_required secp wc t ≡ true
      → (not (length t.input == 0) && all_empty secp wc t.input) ≡ false
  unfolding segwit_required
  required_some t h = ground (arith, all_empty-any_witness secp wc t.input)

  not_required :
      (t : Transaction PublicKey Witness)
      → segwit_required secp wc t ≡ false
      → any_witness secp wc t.input ≡ false
  unfolding segwit_required
  not_required t h = ground arith

  no_flag :
      (t : Transaction PublicKey Witness)
      → (segwit_required secp wc t || has_mweb secp wc t) ≡ false
      → (segwit_required secp wc t ≡ false)
        × (has_mweb secp wc t ≡ false)
        × (any_witness secp wc t.input ≡ false)
        × ((length t.input == 0) ≡ false)
  unfolding segwit_required
  no_flag t h = ground arith

  fields_RoundTrip :
      (t : Transaction PublicKey Witness)
      → IsValidTx secp wc t
      → RoundTrip
          (encode_fields secp wc (segwit_required secp wc t) (has_mweb secp wc t) t
            ⊕ encode_lock_time t.lock_time)
          (decode_vec (decode_tx_in default_witness) >>= decode_rest secp wc t.version)
          t
  fields_RoundTrip t v = elim (Bool-cases (segwit_required secp wc t || has_mweb secp wc t)) [
    | inl flag ↦
        extended_all (segwit_required secp wc t) t v flag (required_some t) (not_required t)
    | inr none_set ↦
        let (no_segwit, no_ext, no_witness, some_input) = no_flag t none_set in
        rw (no_segwit, no_ext) (legacy_all t v no_witness no_ext some_input)
  ]

  -- Every valid transaction is written, whichever of its four forms it takes, and reads back with
  -- its witnesses, its MWEB part and its HogEx mark.
  pub RoundTrip-tx :
      (t : Transaction PublicKey Witness)
      → IsValidTx secp wc t
      → RoundTrip (encode_transaction secp wc t) (decode_transaction secp wc) t
  unfolding encode_transaction decode_transaction
  RoundTrip-tx t v =
      RoundTrip->>= (emit_uint 4 t.version) _ (read_uint 4) _ t.version t
        (RoundTrip-uint 4 t.version v.version_fits) (fields_RoundTrip t v)
