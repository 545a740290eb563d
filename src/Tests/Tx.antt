-- ===== src/Tests/Tx.antt =====
-- A transaction with a witness and an MWEB part.
use rust_litecoin.Prelude.{
  ℕ, List, ◌+◌, ◌≡◌, refl, if◌then◌else◌, ◌==◌, length, none, Bool, false, [], ◌∷◌, some, replicate,
  arith,
}
use rust_litecoin.Wire.RoundTrip.{RoundTrip}
use rust_litecoin.Locktime.Absolute
use rust_litecoin.Tx.Types.{TxIn, Transaction}
use rust_litecoin.Tx.Codec.{encode_transaction, decode_transaction}
use rust_litecoin.Tx.Codec.Pieces.{IsValidTx}
use rust_litecoin.Tx.Codec.RoundTrip.{RoundTrip-tx}
use rust_litecoin.Tx.Codec.{has_mweb}
use rust_litecoin.Wire.RoundTrip.{Sized}
use rust_litecoin.Tx.Size.{base_size, total_size}
use rust_litecoin.Tx.Size.Serialized.{total_size-Sized}
use rust_litecoin.Tx.Size.Weight.{drop_witnesses, total_size-drop_witnesses}
use rust_litecoin.Wire.VarInt
use rust_litecoin.Witness.{Witness}
use rust_litecoin.Witness.Layout.{layout}
use rust_litecoin.Tx.Witnesses.{witnesses}
use rust_litecoin.Tests.Samples.{keys, mweb_transaction, mweb_transaction-IsValid}

abbrev pub signature_and_key : List (List ℕ)
signature_and_key = (0x30 ∷ 0x44 ∷ []) ∷ (0x02 ∷ []) ∷ []

abbrev pub signed : TxIn Witness
signed = record {
  previous_output = record { txid = replicate 32 0xab; vout = 1 };
  script_sig = [];
  sequence = 0xFFFFFFFD;
  witness = layout signature_and_key;
}

abbrev pub tx : Transaction Bool Witness
tx = record {
  version = 2;
  lock_time = Absolute.blocks 2_265_984;
  input = signed ∷ [];
  output = record { value = 150_000; script_pubkey = 0x51 ∷ [] } ∷ [];
  mw_tx = some mweb_transaction;
  is_hog_ex = false;
}

pub tx-IsValid : IsValidTx keys witnesses tx
unfolding VarInt.size
tx-IsValid = record {
  version_fits = omega arith;
  lock_time_ok = omega arith;
  inputs_ok = (
    record {
      tx_in_ok = record {
        txid_size = refl;
        vout_fits = omega arith;
        script_fits = omega arith;
        sequence_fits = omega arith;
      };
      witness_ok = (signature_and_key, refl, omega arith);
    },
    tt,
  );
  inputs_fit = omega arith;
  outputs_ok = (record { value_fits = omega arith; script_fits = omega arith }, tt);
  outputs_fit = omega arith;
  mweb_ok = (mweb_transaction-IsValid, refl);
}

RoundTrip-tx_example :
    RoundTrip (encode_transaction keys witnesses tx) (decode_transaction keys witnesses) tx
RoundTrip-tx_example = RoundTrip-tx keys witnesses tx tx-IsValid

-- The same transaction without its MWEB part.
abbrev pub plain : Transaction Bool Witness
plain = record tx { mw_tx = none }

pub plain-IsValid : IsValidTx keys witnesses plain
unfolding VarInt.size
plain-IsValid = record {
  version_fits = tx-IsValid.version_fits;
  lock_time_ok = tx-IsValid.lock_time_ok;
  inputs_ok = tx-IsValid.inputs_ok;
  inputs_fit = tx-IsValid.inputs_fit;
  outputs_ok = tx-IsValid.outputs_ok;
  outputs_fit = tx-IsValid.outputs_fit;
  mweb_ok = tt;
}

total_size-Sized_example :
    Sized (encode_transaction keys witnesses plain) (total_size keys witnesses plain)
unfolding has_mweb
total_size-Sized_example = total_size-Sized keys witnesses plain plain-IsValid refl

total_size-drop_witnesses_example :
    total_size keys witnesses (drop_witnesses keys witnesses plain)
    ≡ base_size keys witnesses plain + (if length plain.input == 0 then 2 else 0)
total_size-drop_witnesses_example = total_size-drop_witnesses keys witnesses plain
