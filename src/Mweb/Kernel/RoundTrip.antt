-- ===== src/Mweb/Kernel/RoundTrip.antt =====
-- A kernel whose fields agree with its feature bits is written, and reads back.
use rust_litecoin.Prelude.{
  ℕ, ◌-◌, ◌^◌, ◌<◌, ◌≡◌, refl, List, [], ◌∷◌, All, false, length, arith, ne→==, ge→ltb,
}
use rust_litecoin.Prelude.Int.{ℤ, pos, negsuc}
use rust_litecoin.Wire.Codec.{◌>>=◌}
use rust_litecoin.Wire.RoundTrip.{RoundTrip, RoundTrip->>=, RoundTrip-then, RoundTrip-array}
use rust_litecoin.Wire.Ints.{RoundTrip-uint}
use rust_litecoin.Wire.VarInt.{IsU64}
use rust_litecoin.Wire.Bytes.{decode_bytes, RoundTrip-bytes}
use rust_litecoin.Wire.Vectors.{RoundTrip-vec}
use rust_litecoin.Mweb.Varint.{write_amount, read_amount}
use rust_litecoin.Mweb.Varint.RoundTrip.{RoundTrip-amount}
use rust_litecoin.Mweb.Types.{
  PublicKeys, PegOutCoin, Kernel, kernel_bit, fee_feature_bit, pegin_feature_bit,
  pegout_feature_bit, height_lock_feature_bit, stealth_excess_feature_bit, extra_data_feature_bit,
}
use rust_litecoin.Mweb.Parts.{
  has_bit, Announced, RoundTrip-some_when, RoundTrip-list_when, RoundTrip-key,
}
use rust_litecoin.Mweb.Kernel.{
  encode_peg_out_coin, peg_out_coin, decode_peg_out_coin, lock_height_of, encode_kernel,
  decode_kernel,
}

-- An i64 that is not negative.
abbrev pub IsAmount : ℤ → Type 0
IsAmount (pos n) = n < 2 ^ 63
IsAmount (negsuc m) = ⊥

amount_RoundTrip : (a : ℤ) → IsAmount a → RoundTrip (write_amount a) read_amount a
amount_RoundTrip (pos n) h = RoundTrip-amount n h
amount_RoundTrip (negsuc m) h = absurd h

-- A coin with an amount that is not negative and a script that is not empty.
pub record IsValidCoin (coin : PegOutCoin) : Type 0 where
  pub amount_ok : IsAmount coin.amount
  pub script_some : 0 < length coin.script_pub_key
  pub script_fits : IsU64 (length coin.script_pub_key)

-- A peg-out coin of a nonnegative i64 amount and a script of at least one byte is written, and
-- reads back with whatever follows it left over.
pub RoundTrip-peg_out_coin :
    (coin : PegOutCoin)
    → IsValidCoin coin
    → RoundTrip (encode_peg_out_coin coin) decode_peg_out_coin coin
unfolding encode_peg_out_coin decode_peg_out_coin
RoundTrip-peg_out_coin coin v =
    RoundTrip->>= _ _ read_amount _ coin.amount coin (amount_RoundTrip coin.amount v.amount_ok) (
      RoundTrip-then _ decode_bytes (peg_out_coin coin.amount) coin.script_pub_key coin
        (RoundTrip-bytes coin.script_pub_key v.script_fits)
        (λ s. rw (ne→== (length coin.script_pub_key) 0 (omega arith), peg_out_coin)))

lock_height_RoundTrip :
    (lh : ℕ) → lh < 2 ^ 32 → RoundTrip (write_amount (pos lh)) (read_amount >>= lock_height_of) lh
unfolding lock_height_of
lock_height_RoundTrip lh h =
    RoundTrip-then _ read_amount lock_height_of (pos lh) lh (RoundTrip-amount lh (omega arith))
      (λ s. rw (ge→ltb (2 ^ 32 - 1) lh (omega arith)))

valid_coins :
    (coins : List PegOutCoin)
    → All IsValidCoin coins
    → All (λ c. RoundTrip (encode_peg_out_coin c) decode_peg_out_coin c) coins
valid_coins [] h = tt
valid_coins (c ∷ cs) (h, t) = (RoundTrip-peg_out_coin c h, valid_coins cs t)

module _ (secp : PublicKeys) where
  open secp use {PublicKey, serialize}

  -- Each optional field is there exactly when its bit is set, the lists without their bit are
  -- empty, and the numbers and arrays have the sizes of their types.
  pub record IsValidKernel (k : Kernel PublicKey) : Type 0 where
    pub features_byte : k.features < 256
    pub fee_ok : Announced (has_bit k.features (kernel_bit fee_feature_bit)) k.fee IsAmount
    pub pegin_ok : Announced (has_bit k.features (kernel_bit pegin_feature_bit)) k.pegin IsAmount
    pub pegouts_ok : All IsValidCoin k.pegouts
    pub pegouts_fit : IsU64 (length k.pegouts)
    pub no_pegouts : has_bit k.features (kernel_bit pegout_feature_bit) ≡ false → k.pegouts ≡ []
    pub lock_height_ok :
        Announced
          (has_bit k.features (kernel_bit height_lock_feature_bit))
          k.lock_height
          (λ lh. lh < 2 ^ 32)
    pub stealth_excess_ok :
        Announced
          (has_bit k.features (kernel_bit stealth_excess_feature_bit))
          k.stealth_excess
          (λ _. Unit {0})
    pub extra_data_fits : IsU64 (length k.extra_data)
    pub no_extra_data :
        has_bit k.features (kernel_bit extra_data_feature_bit) ≡ false → k.extra_data ≡ []
    pub excess_size : length k.excess ≡ 33
    pub signature_size : length k.signature ≡ 64

  -- A valid kernel is written in full, and reads back with whatever follows it left over.
  pub RoundTrip-kernel :
      (k : Kernel PublicKey)
      → IsValidKernel k
      → RoundTrip (encode_kernel secp k) (decode_kernel secp) k
  unfolding encode_kernel decode_kernel
  RoundTrip-kernel k v =
      RoundTrip->>= _ _ _ _ k.features k (RoundTrip-uint 1 k.features v.features_byte) (
        RoundTrip->>= _ _ _ _ k.fee k
          (RoundTrip-some_when _ _ _ IsAmount amount_RoundTrip _ k.fee v.fee_ok)
          (RoundTrip->>= _ _ _ _ k.pegin k
            (RoundTrip-some_when _ _ _ IsAmount amount_RoundTrip _ k.pegin v.pegin_ok)
            (RoundTrip->>= _ _ _ _ k.pegouts k
              (RoundTrip-list_when _ _ _ k.pegouts
                (λ e.
                  RoundTrip-vec _ _ k.pegouts v.pegouts_fit (valid_coins k.pegouts v.pegouts_ok))
                v.no_pegouts)
              (RoundTrip->>= _ _ _ _ k.lock_height k
                (RoundTrip-some_when _ _ _ (λ lh. lh < 2 ^ 32) lock_height_RoundTrip _ k.lock_height
                  v.lock_height_ok)
                (RoundTrip->>= _ _ _ _ k.stealth_excess k
                  (RoundTrip-some_when _ _ _ (λ _. Unit {0})
                    (λ key _. RoundTrip-key secp "invalid kernel stealth excess" key) _
                    k.stealth_excess v.stealth_excess_ok)
                  (RoundTrip->>= _ _ _ _ k.extra_data k
                    (RoundTrip-list_when _ _ _ k.extra_data
                      (λ e. RoundTrip-bytes k.extra_data v.extra_data_fits) v.no_extra_data)
                    (RoundTrip->>= _ _ _ _ k.excess k (RoundTrip-array 33 k.excess v.excess_size) (
                      RoundTrip-then _ _ _ k.signature k
                        (RoundTrip-array 64 k.signature v.signature_size) (λ s. refl)))))))))
