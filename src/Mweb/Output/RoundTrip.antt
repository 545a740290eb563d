-- ===== src/Mweb/Output/RoundTrip.antt =====
-- An output whose message agrees with its feature bits is written, and reads back.
use rust_litecoin.Prelude.{◌^◌, ◌<◌, ◌≡◌, refl, Bool, true, false, Option, none, some, [], length}
use rust_litecoin.Wire.RoundTrip.{
  RoundTrip, RoundTrip->>=, RoundTrip-then, RoundTrip-array, RoundTrip-pure,
}
use rust_litecoin.Wire.Ints.{RoundTrip-uint}
use rust_litecoin.Wire.VarInt.{IsU64}
use rust_litecoin.Wire.Bytes.{RoundTrip-bytes}
use rust_litecoin.Mweb.Types.{
  PublicKeys, OutputMessageStandardFields, OutputMessage, Output, output_bit,
  standard_fields_feature_bit, OutputFeatures,
}
use rust_litecoin.Mweb.Parts.{
  has_bit, Announced, decode_some_when, RoundTrip-list_when, RoundTrip-key,
}
use rust_litecoin.Mweb.Output.{
  encode_standard_fields, encode_standard, encode_output_message, decode_standard_fields,
  decode_output_message, encode_output, decode_output,
}

module _ (secp : PublicKeys) where
  open secp use {PublicKey}

  pub record IsValidFields (f : OutputMessageStandardFields PublicKey) : Type 0 where
    pub view_tag_byte : f.view_tag < 256
    pub masked_value_fits : f.masked_value < 2 ^ 64
    pub masked_nonce_size : length f.masked_nonce ≡ 16

  pub record IsValidMessage (m : OutputMessage PublicKey) : Type 0 where
    pub features_byte : m.features < 256
    pub standard_fields_ok :
        Announced
          (has_bit m.features (output_bit standard_fields_feature_bit))
          m.standard_fields
          IsValidFields
    pub extra_data_fits : IsU64 (length m.extra_data)
    pub no_extra_data :
        has_bit m.features (output_bit OutputFeatures.extra_data_feature_bit) ≡ false
        → m.extra_data ≡ []

  pub record IsValidOutput (o : Output PublicKey) : Type 0 where
    pub commitment_size : length o.commitment ≡ 33
    pub message_ok : IsValidMessage o.message
    pub range_proof_size : length o.range_proof ≡ 675
    pub signature_size : length o.signature ≡ 64

  standard_fields_RoundTrip :
      (f : OutputMessageStandardFields PublicKey)
      → IsValidFields f
      → RoundTrip (encode_standard_fields secp f) (decode_standard_fields secp) f
  unfolding encode_standard_fields decode_standard_fields
  standard_fields_RoundTrip f v =
      RoundTrip->>= _ _ _ _ f.key_exchange_pubkey f (RoundTrip-key secp _ f.key_exchange_pubkey) (
        RoundTrip->>= _ _ _ _ f.view_tag f (RoundTrip-uint 1 f.view_tag v.view_tag_byte) (
          RoundTrip->>= _ _ _ _ f.masked_value f
            (RoundTrip-uint 8 f.masked_value v.masked_value_fits)
            (RoundTrip-then _ _ _ f.masked_nonce f
              (RoundTrip-array 16 f.masked_nonce v.masked_nonce_size) (λ s. refl))))

  standard_RoundTrip :
      (c : Bool) (o : Option (OutputMessageStandardFields PublicKey))
      → Announced c o IsValidFields
      → RoundTrip (encode_standard secp o) (decode_some_when c (decode_standard_fields secp)) o
  unfolding encode_standard
  standard_RoundTrip true (some f) h =
      RoundTrip-then _ (decode_standard_fields secp) _ f (some f) (standard_fields_RoundTrip f h)
        (λ s. refl)
  standard_RoundTrip true none h = absurd h
  standard_RoundTrip false (some f) h = absurd h
  standard_RoundTrip false none h = RoundTrip-pure none

  -- A valid output message is written in full, and reads back with whatever follows it left over.
  pub RoundTrip-output_message :
      (m : OutputMessage PublicKey)
      → IsValidMessage m
      → RoundTrip (encode_output_message secp m) (decode_output_message secp) m
  unfolding encode_output_message decode_output_message
  RoundTrip-output_message m v =
      RoundTrip->>= _ _ _ _ m.features m (RoundTrip-uint 1 m.features v.features_byte) (
        RoundTrip->>= _ _ _ _ m.standard_fields m
          (standard_RoundTrip _ m.standard_fields v.standard_fields_ok)
          (RoundTrip-then _ _ _ m.extra_data m
            (RoundTrip-list_when _ _ _ m.extra_data
              (λ e. RoundTrip-bytes m.extra_data v.extra_data_fits) v.no_extra_data)
            (λ s. refl)))

  -- A valid MWEB output is written in full, and reads back with whatever follows it left over.
  pub RoundTrip-output :
      (o : Output PublicKey)
      → IsValidOutput o
      → RoundTrip (encode_output secp o) (decode_output secp) o
  unfolding encode_output decode_output
  RoundTrip-output o v =
      RoundTrip->>= _ _ _ _ o.commitment o (RoundTrip-array 33 o.commitment v.commitment_size) (
        RoundTrip->>= _ _ _ _ o.sender_public_key o (RoundTrip-key secp _ o.sender_public_key) (
          RoundTrip->>= _ _ _ _ o.receiver_public_key o (RoundTrip-key secp _ o.receiver_public_key)
            (RoundTrip->>= _ _ _ _ o.message o (RoundTrip-output_message o.message v.message_ok) (
              RoundTrip->>= _ _ _ _ o.range_proof o
                (RoundTrip-array 675 o.range_proof v.range_proof_size)
                (RoundTrip-then _ _ _ o.signature o
                  (RoundTrip-array 64 o.signature v.signature_size) (λ s. refl))))))
