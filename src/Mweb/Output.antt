-- ===== src/Mweb/Output.antt =====
-- The codecs of `OutputMessage` and `Output` in litecoin/src/blockdata/mimblewimble.rs.
pub mod RoundTrip
use rust_litecoin.Prelude.{Option, none, some}
use rust_litecoin.Wire.Codec.{Read, pure, ◌>>=◌, read_exact, Write, ◌⊕◌, emit}
use rust_litecoin.Wire.Ints.{emit_uint, read_uint}
use rust_litecoin.Wire.Bytes.{encode_with_size, decode_bytes}
use rust_litecoin.Mweb.Types.{
  PublicKeys, OutputMessageStandardFields, OutputMessage, Output, output_bit,
  standard_fields_feature_bit, OutputFeatures,
}
use rust_litecoin.Mweb.Parts.{has_bit, encode_when, decode_some_when, decode_list_when, read_key}
use rust_litecoin.Prelude.{[]}

module _ (secp : PublicKeys) where
  open secp use {PublicKey, serialize}

  unfoldable pub encode_standard_fields : OutputMessageStandardFields PublicKey → Write
  encode_standard_fields f =
      emit (serialize f.key_exchange_pubkey)
      ⊕ emit_uint 1 f.view_tag
      ⊕ emit_uint 8 f.masked_value
      ⊕ emit f.masked_nonce

  -- The standard fields are written when they are there, whatever the feature bit says.
  encode_standard : Option (OutputMessageStandardFields PublicKey) → Write
  unfolding encode_standard_fields
  encode_standard none = emit []
  encode_standard (some f) = encode_standard_fields f

  unfoldable pub encode_output_message : OutputMessage PublicKey → Write
  unfolding encode_standard
  encode_output_message m =
      emit_uint 1 m.features
      ⊕ encode_standard m.standard_fields
      ⊕ encode_when (has_bit m.features (output_bit OutputFeatures.extra_data_feature_bit))
          (encode_with_size m.extra_data)

  unfoldable pub decode_standard_fields : Read (OutputMessageStandardFields PublicKey)
  decode_standard_fields = do
    key_exchange_pubkey ← read_key secp "invalid output key_exchange_pubkey"
    view_tag ← read_uint 1
    masked_value ← read_uint 8
    masked_nonce ← read_exact 16
    pure (record {
      key_exchange_pubkey = key_exchange_pubkey;
      view_tag = view_tag;
      masked_value = masked_value;
      masked_nonce = masked_nonce;
    })

  unfoldable pub decode_output_message : Read (OutputMessage PublicKey)
  unfolding decode_standard_fields
  decode_output_message = do
    features ← read_uint 1
    standard_fields ←
        decode_some_when (has_bit features (output_bit standard_fields_feature_bit))
          decode_standard_fields
    extra_data ←
        decode_list_when (has_bit features (output_bit OutputFeatures.extra_data_feature_bit))
          decode_bytes
    pure
        (record { features = features; standard_fields = standard_fields; extra_data = extra_data })

  unfoldable pub encode_output : Output PublicKey → Write
  unfolding encode_output_message
  encode_output o =
      emit o.commitment
      ⊕ emit (serialize o.sender_public_key)
      ⊕ emit (serialize o.receiver_public_key)
      ⊕ encode_output_message o.message
      ⊕ emit o.range_proof
      ⊕ emit o.signature

  unfoldable pub decode_output : Read (Output PublicKey)
  unfolding decode_output_message
  decode_output = do
    commitment ← read_exact 33
    sender_public_key ← read_key secp "invalid output sender_public_key"
    receiver_public_key ← read_key secp "invalid output receiver_public_key"
    message ← decode_output_message
    range_proof ← read_exact 675
    signature ← read_exact 64
    pure (record {
      commitment = commitment;
      sender_public_key = sender_public_key;
      receiver_public_key = receiver_public_key;
      message = message;
      range_proof = range_proof;
      signature = signature;
    })
