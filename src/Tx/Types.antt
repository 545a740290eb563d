-- ===== src/Tx/Types.antt =====
-- The data types of litecoin/src/blockdata/transaction.rs. A hash is the list of its bytes, the
-- version is the bit pattern of its i32, an amount is its number of satoshis.
use rust_litecoin.Prelude.{ℕ, ◌≡◌, Bool, true, List, Option}
use rust_litecoin.Wire.Codec.{Write, Read}
use rust_litecoin.Wire.RoundTrip.{RoundTrip, Sized}
use rust_litecoin.Locktime.Absolute.{LockTime}
use rust_litecoin.Mweb.Types.{PublicKeys}
use rust_litecoin.Mweb.Types as Mweb

-- What a transaction uses of litecoin/src/blockdata/witness.rs: a witness is written and read
-- back, its size is the number of bytes that it takes, and only the default one has no element.
pub record WitnessCodec : Type 1 where
  pub Witness : Type 0
  pub default_witness : Witness
  pub is_empty : Witness → Bool
  pub size : Witness → ℕ
  pub encode_witness : Witness → Write
  pub decode_witness : Read Witness
  pub IsValidWitness : Witness → Type 0
  pub default_is_empty : is_empty default_witness ≡ true
  pub empty_is_default : (w : Witness) → IsValidWitness w → is_empty w ≡ true → w ≡ default_witness
  pub witness_sized : (w : Witness) → IsValidWitness w → Sized (encode_witness w) (size w)
  pub witness_round_trip :
      (w : Witness) → IsValidWitness w → RoundTrip (encode_witness w) decode_witness w

pub record OutPoint : Type 0 where
  pub txid : List ℕ
  pub vout : ℕ

pub record TxIn (Witness : Type 0) : Type 0 where
  pub previous_output : OutPoint
  pub script_sig : List ℕ
  pub sequence : ℕ
  pub witness : Witness

pub record TxOut : Type 0 where
  pub value : ℕ
  pub script_pubkey : List ℕ

pub record Transaction (PublicKey Witness : Type 0) : Type 0 where
  pub version : ℕ
  pub lock_time : LockTime
  pub input : List (TxIn Witness)
  pub output : List TxOut
  pub mw_tx : Option (Mweb.Transaction PublicKey)
  pub is_hog_ex : Bool
