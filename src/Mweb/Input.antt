-- ===== src/Mweb/Input.antt =====
-- The codec of `Input` in litecoin/src/blockdata/mimblewimble.rs.
pub mod RoundTrip
use rust_litecoin.Prelude.{Bool}
use rust_litecoin.Wire.Codec.{Read, pure, ◌>>=◌, read_exact, Write, ◌⊕◌, emit}
use rust_litecoin.Wire.Ints.{emit_uint, read_uint}
use rust_litecoin.Wire.Bytes.{encode_with_size, decode_bytes}
use rust_litecoin.Mweb.Types.{PublicKeys, Input}
use rust_litecoin.Mweb.Parts.{
  has_bit, require, encode_when, decode_some_when, decode_list_when, read_key,
}

module _ (secp : PublicKeys) where
  open secp use {PublicKey, serialize}

  unfoldable pub encode_input : Input PublicKey → Write
  encode_input i =
      emit_uint 1 i.features
      ⊕ emit i.output_id
      ⊕ emit i.commitment
      ⊕ emit (serialize i.output_public_key)
      ⊕ encode_when (has_bit i.features 1) (
          require i.input_public_key "Input.input_public_key bit set but None"
            (λ key. emit (serialize key)))
      ⊕ encode_when (has_bit i.features 2) (encode_with_size i.extra_data)
      ⊕ emit i.signature

  unfoldable pub decode_input : Read (Input PublicKey)
  decode_input = do
    features ← read_uint 1
    output_id ← read_exact 32
    commitment ← read_exact 33
    output_public_key ← read_key secp "invalid input output_public_key"
    input_public_key ←
        decode_some_when (has_bit features 1) (read_key secp "invalid input input_public_key")
    extra_data ← decode_list_when (has_bit features 2) decode_bytes
    signature ← read_exact 64
    pure (record {
      features = features;
      output_id = output_id;
      commitment = commitment;
      input_public_key = input_public_key;
      output_public_key = output_public_key;
      extra_data = extra_data;
      signature = signature;
    })
