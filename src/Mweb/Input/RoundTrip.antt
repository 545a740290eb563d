-- ===== src/Mweb/Input/RoundTrip.antt =====
-- An input whose fields agree with its feature bits is written, and reads back.
use rust_litecoin.Prelude.{◌<◌, ◌≡◌, refl, [], false, length}
use rust_litecoin.Wire.RoundTrip.{RoundTrip, RoundTrip->>=, RoundTrip-then, RoundTrip-array}
use rust_litecoin.Wire.Ints.{RoundTrip-uint}
use rust_litecoin.Wire.VarInt.{IsU64}
use rust_litecoin.Wire.Bytes.{RoundTrip-bytes}
use rust_litecoin.Mweb.Types.{PublicKeys, Input}
use rust_litecoin.Mweb.Parts.{
  has_bit, Announced, RoundTrip-some_when, RoundTrip-list_when, RoundTrip-key,
}
use rust_litecoin.Mweb.Input.{encode_input, decode_input}

module _ (secp : PublicKeys) where
  open secp use {PublicKey}

  pub record IsValidInput (i : Input PublicKey) : Type 0 where
    pub features_byte : i.features < 256
    pub output_id_size : length i.output_id ≡ 32
    pub commitment_size : length i.commitment ≡ 33
    pub input_public_key_ok : Announced (has_bit i.features 1) i.input_public_key (λ _. Unit {0})
    pub extra_data_fits : IsU64 (length i.extra_data)
    pub no_extra_data : has_bit i.features 2 ≡ false → i.extra_data ≡ []
    pub signature_size : length i.signature ≡ 64

  -- A valid MWEB input is written in full, and reads back with whatever follows it left over.
  pub RoundTrip-input :
      (i : Input PublicKey) → IsValidInput i → RoundTrip (encode_input secp i) (decode_input secp) i
  unfolding encode_input decode_input
  RoundTrip-input i v =
      RoundTrip->>= _ _ _ _ i.features i (RoundTrip-uint 1 i.features v.features_byte) (
        RoundTrip->>= _ _ _ _ i.output_id i (RoundTrip-array 32 i.output_id v.output_id_size) (
          RoundTrip->>= _ _ _ _ i.commitment i (RoundTrip-array 33 i.commitment v.commitment_size) (
            RoundTrip->>= _ _ _ _ i.output_public_key i
              (RoundTrip-key secp "invalid input output_public_key" i.output_public_key)
              (RoundTrip->>= _ _ _ _ i.input_public_key i
                (RoundTrip-some_when _ _ _ (λ _. Unit {0})
                  (λ key _. RoundTrip-key secp "invalid input input_public_key" key) _
                  i.input_public_key v.input_public_key_ok)
                (RoundTrip->>= _ _ _ _ i.extra_data i
                  (RoundTrip-list_when _ _ _ i.extra_data
                    (λ e. RoundTrip-bytes i.extra_data v.extra_data_fits) v.no_extra_data)
                  (RoundTrip-then _ _ _ i.signature i
                    (RoundTrip-array 64 i.signature v.signature_size) (λ s. refl)))))))
