-- ===== src/Mweb/Transaction.antt =====
-- The codecs of `TxBody` and `Transaction` in litecoin/src/blockdata/mimblewimble.rs.
pub mod RoundTrip
use rust_litecoin.Prelude.{ℕ, List, length, ◌==◌, if◌then◌else◌}
use rust_litecoin.Wire.Codec.{parse_failed, Read, pure, throw, ◌>>=◌, read_exact, Write, ◌⊕◌, emit}
use rust_litecoin.Wire.Vectors.{encode_vec, decode_vec}
use rust_litecoin.Mweb.Types.{PublicKeys, TxBody, Transaction}
use rust_litecoin.Mweb.Kernel.{encode_kernel, decode_kernel}
use rust_litecoin.Mweb.Input.{encode_input, decode_input}
use rust_litecoin.Mweb.Output.{encode_output, decode_output}

module _ (secp : PublicKeys) where
  open secp use {PublicKey}

  unfoldable pub encode_tx_body : TxBody PublicKey → Write
  encode_tx_body b =
      encode_vec (encode_input secp) b.inputs
      ⊕ encode_vec (encode_output secp) b.outputs
      ⊕ encode_vec (encode_kernel secp) b.kernels

  unfoldable pub decode_tx_body : Read (TxBody PublicKey)
  decode_tx_body = do
    inputs ← decode_vec (decode_input secp)
    outputs ← decode_vec (decode_output secp)
    kernels ← decode_vec (decode_kernel secp)
    pure (record { inputs = inputs; outputs = outputs; kernels = kernels })

  unfoldable pub encode_transaction : Transaction PublicKey → Write
  unfolding encode_tx_body
  encode_transaction t = emit t.kernel_offset ⊕ emit t.stealth_offset ⊕ encode_tx_body t.body

  -- The test on a body that was read.
  finish_transaction : List ℕ → List ℕ → TxBody PublicKey → Read (Transaction PublicKey)
  finish_transaction kernel_offset stealth_offset body =
      if length body.kernels == 0
      then throw (parse_failed "MWEB transaction must contain at least one kernel")
      else pure
          (record { kernel_offset = kernel_offset; stealth_offset = stealth_offset; body = body })

  unfoldable pub decode_transaction : Read (Transaction PublicKey)
  unfolding decode_tx_body finish_transaction
  decode_transaction = do
    kernel_offset ← read_exact 32
    stealth_offset ← read_exact 32
    body ← decode_tx_body
    finish_transaction kernel_offset stealth_offset body
