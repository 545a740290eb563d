-- ===== src/Mweb/Types.antt =====
-- The data types of litecoin/src/blockdata/mimblewimble.rs, over the type of public keys of the
-- secp256k1 crate. A fixed-size array is a list of bytes whose length an invariant states, a
-- script is the list of its bytes, and an i64 is an integer.
use rust_litecoin.Prelude.{ℕ, ◌≡◌, List, Option, some, length}
use rust_litecoin.Prelude.Int.{ℤ}

-- What the code uses of `secp256k1::PublicKey`: a key is written in 33 bytes, and `from_slice`
-- reads it back from them.
pub record PublicKeys : Type 1 where
  pub PublicKey : Type 0
  pub serialize : PublicKey → List ℕ
  pub from_slice : List ℕ → Option PublicKey
  pub length-serialize : (key : PublicKey) → length (serialize key) ≡ 33
  pub from_slice-serialize : (key : PublicKey) → from_slice (serialize key) ≡ some key

pub data KernelFeatures : Type 0 where
  fee_feature_bit pegin_feature_bit pegout_feature_bit : KernelFeatures
  height_lock_feature_bit stealth_excess_feature_bit extra_data_feature_bit : KernelFeatures

-- `feature as u8`
abbrev pub kernel_bit : KernelFeatures → ℕ
kernel_bit fee_feature_bit = 0x01
kernel_bit pegin_feature_bit = 0x02
kernel_bit pegout_feature_bit = 0x04
kernel_bit height_lock_feature_bit = 0x08
kernel_bit stealth_excess_feature_bit = 0x10
kernel_bit extra_data_feature_bit = 0x20

pub data OutputFeatures : Type 0 where
  standard_fields_feature_bit extra_data_feature_bit : OutputFeatures

abbrev pub output_bit : OutputFeatures → ℕ
output_bit standard_fields_feature_bit = 0x01
output_bit OutputFeatures.extra_data_feature_bit = 0x02

pub record OutputMessageStandardFields (PublicKey : Type 0) : Type 0 where
  pub key_exchange_pubkey : PublicKey
  pub view_tag : ℕ
  pub masked_value : ℕ
  pub masked_nonce : List ℕ

pub record OutputMessage (PublicKey : Type 0) : Type 0 where
  pub features : ℕ
  pub standard_fields : Option (OutputMessageStandardFields PublicKey)
  pub extra_data : List ℕ

pub record Output (PublicKey : Type 0) : Type 0 where
  pub commitment : List ℕ
  pub sender_public_key : PublicKey
  pub receiver_public_key : PublicKey
  pub message : OutputMessage PublicKey
  pub range_proof : List ℕ
  pub signature : List ℕ

pub record Input (PublicKey : Type 0) : Type 0 where
  pub features : ℕ
  pub output_id : List ℕ
  pub commitment : List ℕ
  pub input_public_key : Option PublicKey
  pub output_public_key : PublicKey
  pub extra_data : List ℕ
  pub signature : List ℕ

pub record PegOutCoin : Type 0 where
  pub amount : ℤ
  pub script_pub_key : List ℕ

pub record Kernel (PublicKey : Type 0) : Type 0 where
  pub features : ℕ
  pub fee : Option ℤ
  pub pegin : Option ℤ
  pub pegouts : List PegOutCoin
  pub lock_height : Option ℕ
  pub stealth_excess : Option PublicKey
  pub extra_data : List ℕ
  pub excess : List ℕ
  pub signature : List ℕ

pub record TxBody (PublicKey : Type 0) : Type 0 where
  pub inputs : List (Input PublicKey)
  pub outputs : List (Output PublicKey)
  pub kernels : List (Kernel PublicKey)

pub record Transaction (PublicKey : Type 0) : Type 0 where
  pub kernel_offset : List ℕ
  pub stealth_offset : List ℕ
  pub body : TxBody PublicKey
