-- ===== src/Tx/Parts.antt =====
-- The codecs of `OutPoint`, `TxIn` and `TxOut` in litecoin/src/blockdata/transaction.rs.
use rust_litecoin.Prelude.{◌^◌, ◌<◌, ◌≡◌, refl, length}
use rust_litecoin.Wire.Codec.{Read, pure, ◌>>=◌, read_exact, Write, ◌⊕◌, emit}
use rust_litecoin.Wire.RoundTrip.{RoundTrip, RoundTrip->>=, RoundTrip-then, RoundTrip-array}
use rust_litecoin.Wire.Ints.{emit_uint, read_uint, RoundTrip-uint}
use rust_litecoin.Wire.VarInt
use rust_litecoin.Wire.Bytes.{encode_with_size, decode_bytes, RoundTrip-bytes}
use rust_litecoin.Tx.Types.{OutPoint, TxIn, TxOut}

unfoldable pub encode_out_point : OutPoint → Write
encode_out_point o = emit o.txid ⊕ emit_uint 4 o.vout

unfoldable pub decode_out_point : Read OutPoint
decode_out_point = do
  txid ← read_exact 32
  vout ← read_uint 4
  pure (record { txid = txid; vout = vout })

-- `impl_consensus_encoding!(TxOut, value, script_pubkey)`
unfoldable pub encode_tx_out : TxOut → Write
encode_tx_out o = emit_uint 8 o.value ⊕ encode_with_size o.script_pubkey

unfoldable pub decode_tx_out : Read TxOut
decode_tx_out = do
  value ← read_uint 8
  script_pubkey ← decode_bytes
  pure (record { value = value; script_pubkey = script_pubkey })

-- The witness is neither written nor read with its input.
module _ {Witness : Type 0} where
  unfoldable pub encode_tx_in : TxIn Witness → Write
  unfolding encode_out_point
  encode_tx_in i =
      encode_out_point i.previous_output ⊕ encode_with_size i.script_sig ⊕ emit_uint 4 i.sequence

  unfoldable pub decode_tx_in : Witness → Read (TxIn Witness)
  unfolding decode_out_point
  decode_tx_in default_witness = do
    previous_output ← decode_out_point
    script_sig ← decode_bytes
    sequence ← read_uint 4
    pure (record {
      previous_output = previous_output;
      script_sig = script_sig;
      sequence = sequence;
      witness = default_witness;
    })

pub record IsValidTxOut (o : TxOut) : Type 0 where
  pub value_fits : o.value < 2 ^ 64
  pub script_fits : VarInt.IsU64 (length o.script_pubkey)

pub RoundTrip-tx_out : (o : TxOut) → IsValidTxOut o → RoundTrip (encode_tx_out o) decode_tx_out o
unfolding encode_tx_out decode_tx_out
RoundTrip-tx_out o v = RoundTrip->>= _ _ _ _ o.value o (RoundTrip-uint 8 o.value v.value_fits) (
    RoundTrip-then _ _ _ o.script_pubkey o (RoundTrip-bytes o.script_pubkey v.script_fits)
      (λ s. refl))

RoundTrip-out_point :
    (o : OutPoint)
    → length o.txid ≡ 32
    → o.vout < 2 ^ 32
    → RoundTrip (encode_out_point o) decode_out_point o
unfolding encode_out_point decode_out_point
RoundTrip-out_point o h k =
    RoundTrip->>= _ _ _ _ o.txid o (RoundTrip-array 32 o.txid h)
      (RoundTrip-then _ _ _ o.vout o (RoundTrip-uint 4 o.vout k) (λ s. refl))

module _ {Witness : Type 0} where
  pub record IsValidTxIn (i : TxIn Witness) : Type 0 where
    pub txid_size : length i.previous_output.txid ≡ 32
    pub vout_fits : i.previous_output.vout < 2 ^ 32
    pub script_fits : VarInt.IsU64 (length i.script_sig)
    pub sequence_fits : i.sequence < 2 ^ 32

  -- An input reads back with the default witness.
  pub RoundTrip-tx_in :
      (i : TxIn Witness) (w : Witness)
      → IsValidTxIn i
      → RoundTrip (encode_tx_in i) (decode_tx_in w) (record i { witness = w })
  unfolding encode_tx_in decode_tx_in
  RoundTrip-tx_in i w v =
      RoundTrip->>= _ _ _ _ i.previous_output (record i { witness = w })
        (RoundTrip-out_point i.previous_output v.txid_size v.vout_fits)
        (RoundTrip->>= _ _ _ _ i.script_sig (record i { witness = w })
          (RoundTrip-bytes i.script_sig v.script_fits)
          (RoundTrip-then _ _ _ i.sequence (record i { witness = w })
            (RoundTrip-uint 4 i.sequence v.sequence_fits) (λ s. refl)))
