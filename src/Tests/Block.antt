-- ===== src/Tests/Block.antt =====
-- A block with a HogEx transaction and an MWEB extension block, and one without them.
use rust_litecoin.Prelude.{◌≡◌, refl, Bool, true, false, [], ◌∷◌, none, some, replicate, arith}
use rust_litecoin.Wire.RoundTrip.{RoundTrip, Sized}
use rust_litecoin.Witness.{Witness}
use rust_litecoin.Tx.Types.{Transaction}
use rust_litecoin.Tx.Codec.{has_mweb}
use rust_litecoin.Tx.Codec.Pieces.{IsValidTx}
use rust_litecoin.Tx.Witnesses.{witnesses}
use rust_litecoin.Block.{
  Header, MwebBlock, Block, encode_block, decode_block, total_size, early_hog_ex,
  block_carries_mweb, any_hog_ex, last_is_hog_ex, signals_mweb,
}
use rust_litecoin.Block.RoundTrip.{IsValidHeader, IsValidMwebBlock, IsValidBlock, RoundTrip-block}
use rust_litecoin.Block.Size.{block_total_size-Sized}
use rust_litecoin.Tests.Samples.{keys, mweb_transaction, mweb_transaction-IsValid}
use rust_litecoin.Tests.Tx.{plain, plain-IsValid}

abbrev mweb_signal : Header
mweb_signal = record {
  version = 0x20000000;
  prev_blockhash = replicate 32 1;
  merkle_root = replicate 32 2;
  time = 1_700_000_000;
  bits = 0x1a01aa4d;
  nonce = 42;
}

mweb_signal-IsValid : IsValidHeader mweb_signal
mweb_signal-IsValid = record {
  version_fits = omega arith;
  prev_size = refl;
  root_size = refl;
  time_fits = omega arith;
  bits_fit = omega arith;
  nonce_fits = omega arith;
}

abbrev extension : MwebBlock Bool
extension = record {
  mweb_header = record {
    height = 130;
    output_root = replicate 32 3;
    kernel_root = replicate 32 4;
    leafset_root = replicate 32 5;
    kernel_offset = replicate 32 6;
    stealth_offset = replicate 32 7;
    output_mmr_size = 1000;
    kernel_mmr_size = 20;
  };
  tx_body = mweb_transaction.body;
}

extension-IsValid : IsValidMwebBlock keys witnesses extension
extension-IsValid = record {
  header_ok = record {
    height_fits = omega arith;
    output_root_size = refl;
    kernel_root_size = refl;
    leafset_root_size = refl;
    kernel_offset_size = refl;
    stealth_offset_size = refl;
    outputs_fit = omega arith;
    kernels_fit = omega arith;
  };
  body_ok = mweb_transaction-IsValid.body_ok;
}

abbrev hog_ex : Transaction Bool Witness
hog_ex = record plain { is_hog_ex = true }

hog_ex-IsValid : IsValidTx keys witnesses hog_ex
hog_ex-IsValid = record {
  version_fits = plain-IsValid.version_fits;
  lock_time_ok = plain-IsValid.lock_time_ok;
  inputs_ok = plain-IsValid.inputs_ok;
  inputs_fit = plain-IsValid.inputs_fit;
  outputs_ok = plain-IsValid.outputs_ok;
  outputs_fit = plain-IsValid.outputs_fit;
  mweb_ok = omega arith;
}

abbrev extended : Block Bool Witness
extended = record {
  header = mweb_signal;
  txdata = plain ∷ hog_ex ∷ [];
  mweb_block = some extension;
}

extended-IsValid : IsValidBlock keys witnesses extended
unfolding early_hog_ex any_hog_ex block_carries_mweb last_is_hog_ex signals_mweb
extended-IsValid = record {
  header_ok = mweb_signal-IsValid;
  txs_ok = (plain-IsValid, (hog_ex-IsValid, tt));
  txs_fit = omega arith;
  hog_ex_last = refl;
  extension_ok = (extension-IsValid, refl);
}

RoundTrip-block_example :
    RoundTrip (encode_block keys witnesses extended) (decode_block keys witnesses) extended
RoundTrip-block_example = RoundTrip-block keys witnesses extended extended-IsValid

abbrev unextended : Block Bool Witness
unextended = record { header = mweb_signal; txdata = plain ∷ plain ∷ []; mweb_block = none }

carries_none : block_carries_mweb unextended.header.version unextended.txdata ≡ false
unfolding block_carries_mweb last_is_hog_ex signals_mweb
carries_none = refl

plain_none : has_mweb keys witnesses plain ≡ false
unfolding has_mweb
plain_none = refl

block_total_size-Sized_example :
    Sized (encode_block keys witnesses unextended) (total_size keys witnesses unextended)
block_total_size-Sized_example =
    block_total_size-Sized keys witnesses unextended mweb_signal-IsValid
      (plain-IsValid, (plain-IsValid, tt)) (plain_none, (plain_none, tt)) carries_none
