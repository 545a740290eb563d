-- ===== src/Tx/Size/Serialized.antt =====
-- `total_size` against the encoder.
use rust_litecoin.Prelude.{
  ℕ, ◌+◌, ◌≡◌, refl, Bool, true, false, List, [], ◌∷◌, All, length, if◌then◌else◌, arith,
}
use mathlib.Core.Path.{subst}
use rust_litecoin.Wire.Codec.{◌⊕◌, emit}
use rust_litecoin.Wire.RoundTrip.{Sized, Sized-⊕}
use rust_litecoin.Wire.Ints.{emit_uint, Sized-uint}
use rust_litecoin.Wire.VarInt
use rust_litecoin.Wire.Bytes.{Sized-bytes}
use rust_litecoin.Wire.Vectors.{sum_sizes, sum_sizes_add, Sized-each, Sized-vec}
use rust_litecoin.Locktime.Absolute.{encode_lock_time}
use rust_litecoin.Mweb.Types.{PublicKeys}
use rust_litecoin.Tx.Types.{WitnessCodec, TxIn, TxOut, Transaction}
use rust_litecoin.Tx.Parts.{encode_tx_in, encode_tx_out, encode_out_point, IsValidTxIn}
use rust_litecoin.Tx.Codec.{
  any_witness, has_mweb, segwit_required, encode_fields, encode_transaction,
}
use rust_litecoin.Tx.Codec.Pieces.{IsValidInput, IsValidTx}
use rust_litecoin.Tx.Size.{
  tx_out_size, size_from_script_pubkey, tx_in_base_size, tx_in_total_size, witness_somewhere,
  uses_segwit_serialization, total_size,
}

Sized-array : (n : ℕ) (bs : List ℕ) → length bs ≡ n → Sized (emit bs) n
Sized-array n bs e = (bs, rw e, e)

tx_out-Sized : (o : TxOut) → Sized (encode_tx_out o) (tx_out_size o)
unfolding encode_tx_out tx_out_size size_from_script_pubkey
tx_out-Sized o =
    subst (Sized _) (omega arith)
      (Sized-⊕ _ _ 8 _ (Sized-uint 8 o.value) (Sized-bytes o.script_pubkey))

outs-Sized : (os : List TxOut) → All (λ o. Sized (encode_tx_out o) (tx_out_size o)) os
outs-Sized [] = tt
outs-Sized (o ∷ os) = (tx_out-Sized o, outs-Sized os)

module _ (secp : PublicKeys) (wc : WitnessCodec) where
  open secp use {PublicKey}
  open wc use {Witness, size, encode_witness, witness_sized}

  tx_in-Sized :
      (i : TxIn Witness) → IsValidTxIn i → Sized (encode_tx_in i) (tx_in_base_size secp wc i)
  unfolding encode_tx_in encode_out_point tx_in_base_size
  tx_in-Sized i v = subst (Sized _) (omega arith) (
      Sized-⊕ _ _ 36 _
        (Sized-⊕ _ _ 32 4 (Sized-array 32 _ v.txid_size) (Sized-uint 4 i.previous_output.vout))
        (Sized-⊕ _ _ _ 4 (Sized-bytes i.script_sig) (Sized-uint 4 i.sequence)))

  ins-Sized :
      (is : List (TxIn Witness))
      → All (IsValidInput secp wc) is
      → All (λ i. Sized (encode_tx_in i) (tx_in_base_size secp wc i)) is
  ins-Sized [] h = tt
  ins-Sized (i ∷ is) (h, t) = (tx_in-Sized i h.tx_in_ok, ins-Sized is t)

  witnesses-Sized :
      (is : List (TxIn Witness))
      → All (IsValidInput secp wc) is
      → All (λ (i : TxIn Witness). Sized (encode_witness i.witness) (size i.witness)) is
  witnesses-Sized [] h = tt
  witnesses-Sized (i ∷ is) (h, t) = (witness_sized i.witness h.witness_ok, witnesses-Sized is t)

  -- What `total_size` adds up between the version and the lock time.
  fields_size : Bool → Transaction PublicKey Witness → ℕ
  fields_size segwit t =
      (if segwit then 2 else 0)
      + VarInt.size (length t.input)
      + sum_sizes (λ i. if segwit then tx_in_total_size secp wc i else tx_in_base_size secp wc i)
          t.input
      + VarInt.size (length t.output)
      + sum_sizes tx_out_size t.output

  fields-Sized :
      (segwit : Bool) (t : Transaction PublicKey Witness)
      → IsValidTx secp wc t
      → Sized (encode_fields secp wc segwit false t) (fields_size segwit t)
  unfolding encode_fields fields_size tx_in_total_size
  fields-Sized true t v =
      subst (Sized _)
        (omega (arith, sum_sizes_add (tx_in_base_size secp wc) (λ i. size i.witness) t.input))
        (Sized-⊕ _ _ 1 _ (Sized-uint 1 0) (
          Sized-⊕ _ _ 1 _ (Sized-uint 1 _) (
            Sized-⊕ _ _ _ _ (Sized-vec _ _ t.input (ins-Sized t.input v.inputs_ok)) (
              Sized-⊕ _ _ _ _ (Sized-vec _ _ t.output (outs-Sized t.output)) (
                Sized-⊕ _ _ _ 0 (Sized-each _ _ t.input (witnesses-Sized t.input v.inputs_ok))
                  ([], refl, refl))))))
  fields-Sized false t v = subst (Sized _) (omega arith) (
      Sized-⊕ _ _ _ _ (Sized-vec _ _ t.input (ins-Sized t.input v.inputs_ok))
        (Sized-vec _ _ t.output (outs-Sized t.output)))

  any_witness-witness_somewhere :
      (is : List (TxIn Witness)) → any_witness secp wc is ≡ witness_somewhere secp wc is
  unfolding any_witness witness_somewhere
  any_witness-witness_somewhere [] = refl
  any_witness-witness_somewhere (i ∷ is) = rw (any_witness-witness_somewhere is)

  -- Without an MWEB part and a HogEx mark, the encoder and `total_size` agree on the form.
  segwit_required-uses_segwit :
      (t : Transaction PublicKey Witness)
      → has_mweb secp wc t ≡ false
      → segwit_required secp wc t ≡ uses_segwit_serialization secp wc t
  unfolding segwit_required uses_segwit_serialization
  segwit_required-uses_segwit t h = ground (arith, any_witness-witness_somewhere t.input)

  form-Sized :
      (segwit uses_segwit mweb : Bool) (t : Transaction PublicKey Witness)
      → IsValidTx secp wc t
      → segwit ≡ uses_segwit
      → mweb ≡ false
      → Sized
          (emit_uint 4 t.version
            ⊕ encode_fields secp wc segwit mweb t
            ⊕ encode_lock_time t.lock_time)
          (4 + (fields_size uses_segwit t + 4))
  unfolding encode_lock_time
  form-Sized segwit uses_segwit mweb t v e h =
      rw (e, h)
        (Sized-⊕ _ _ 4 _ (Sized-uint 4 t.version)
          (Sized-⊕ _ _ _ 4 (fields-Sized uses_segwit t v) (Sized-uint 4 _)))

  -- A valid transaction without an MWEB part and a HogEx mark is written in exactly `total_size`
  -- bytes, in its legacy form as in its segwit form, and the encoder returns that number.
  pub total_size-Sized :
      (t : Transaction PublicKey Witness)
      → IsValidTx secp wc t
      → has_mweb secp wc t ≡ false
      → Sized (encode_transaction secp wc t) (total_size secp wc t)
  unfolding encode_transaction total_size fields_size
  total_size-Sized t v h =
      subst (Sized _) (omega arith) (
        form-Sized _ (uses_segwit_serialization secp wc t) _ t v (segwit_required-uses_segwit t h)
          h)
