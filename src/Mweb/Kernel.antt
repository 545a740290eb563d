-- ===== src/Mweb/Kernel.antt =====
-- The codecs of `PegOutCoin` and `Kernel` in litecoin/src/blockdata/mimblewimble.rs.
pub mod RoundTrip
use rust_litecoin.Prelude.{ℕ, ◌-◌, ◌^◌, ◌<◌, Bool, List, [], ◌==◌, ltb, if◌then◌else◌, length}
use rust_litecoin.Prelude.Int.{ℤ, pos, negsuc}
use rust_litecoin.Wire.Codec.{parse_failed, Read, pure, throw, ◌>>=◌, read_exact, Write, ◌⊕◌, emit}
use rust_litecoin.Wire.Ints.{emit_uint, read_uint}
use rust_litecoin.Wire.Bytes.{encode_with_size, decode_bytes}
use rust_litecoin.Wire.Vectors.{encode_vec, decode_vec}
use rust_litecoin.Mweb.Varint.{write_amount, read_amount}
use rust_litecoin.Mweb.Types.{
  PublicKeys, PegOutCoin, Kernel, KernelFeatures, kernel_bit, fee_feature_bit, pegin_feature_bit,
  pegout_feature_bit, height_lock_feature_bit, stealth_excess_feature_bit, extra_data_feature_bit,
}
use rust_litecoin.Mweb.Parts.{
  has_bit, require, encode_when, decode_some_when, decode_list_when, read_key,
}

unfoldable pub encode_peg_out_coin : PegOutCoin → Write
encode_peg_out_coin coin = write_amount coin.amount ⊕ encode_with_size coin.script_pub_key

-- The test on the script of a coin that was read.
peg_out_coin : ℤ → List ℕ → Read PegOutCoin
peg_out_coin amount script_pub_key =
    if length script_pub_key == 0
    then throw (parse_failed "Pegout scriptPubKey must not be empty")
    else pure (record { amount = amount; script_pub_key = script_pub_key })

unfoldable pub decode_peg_out_coin : Read PegOutCoin
unfolding peg_out_coin
decode_peg_out_coin = do
  amount ← read_amount
  script_pub_key ← decode_bytes
  peg_out_coin amount script_pub_key

-- `raw as u32`, where that loses nothing
lock_height_of : ℤ → Read ℕ
lock_height_of (pos raw) =
    if ltb (2 ^ 32 - 1) raw
    then throw (parse_failed "Kernel lock_height out of range")
    else pure raw
lock_height_of (negsuc _) = throw (parse_failed "Kernel lock_height out of range")

module _ (secp : PublicKeys) where
  open secp use {PublicKey, serialize}

  unfoldable pub encode_kernel : Kernel PublicKey → Write
  encode_kernel k =
      let has = λ (b : KernelFeatures). has_bit k.features (kernel_bit b) in
      emit_uint 1 k.features
      ⊕ encode_when (has fee_feature_bit) (require k.fee "Kernel.fee bit set but None" write_amount)
      ⊕ encode_when (has pegin_feature_bit)
          (require k.pegin "Kernel.pegin bit set but None" write_amount)
      ⊕ encode_when (has pegout_feature_bit) (encode_vec encode_peg_out_coin k.pegouts)
      ⊕ encode_when (has height_lock_feature_bit) (
          require k.lock_height "Kernel.lock_height bit set but None" (λ lh. write_amount (pos lh)))
      ⊕ encode_when (has stealth_excess_feature_bit) (
          require k.stealth_excess "Kernel.stealth_excess bit set but None"
            (λ key. emit (serialize key)))
      ⊕ encode_when (has extra_data_feature_bit) (encode_with_size k.extra_data)
      ⊕ emit k.excess
      ⊕ emit k.signature

  unfoldable pub decode_kernel : Read (Kernel PublicKey)
  unfolding lock_height_of
  decode_kernel = do
    features ← read_uint 1
    fee ← decode_some_when (has_bit features (kernel_bit fee_feature_bit)) read_amount
    pegin ← decode_some_when (has_bit features (kernel_bit pegin_feature_bit)) read_amount
    pegouts ←
        decode_list_when (has_bit features (kernel_bit pegout_feature_bit))
          (decode_vec decode_peg_out_coin)
    lock_height ←
        decode_some_when (has_bit features (kernel_bit height_lock_feature_bit))
          (read_amount >>= lock_height_of)
    stealth_excess ←
        decode_some_when (has_bit features (kernel_bit stealth_excess_feature_bit))
          (read_key secp "invalid kernel stealth excess")
    extra_data ←
        decode_list_when (has_bit features (kernel_bit extra_data_feature_bit)) decode_bytes
    excess ← read_exact 33
    signature ← read_exact 64
    pure (record {
      features = features;
      fee = fee;
      pegin = pegin;
      pegouts = pegouts;
      lock_height = lock_height;
      stealth_excess = stealth_excess;
      extra_data = extra_data;
      excess = excess;
      signature = signature;
    })
