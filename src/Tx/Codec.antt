-- ===== src/Tx/Codec.antt =====
-- The codec of `Transaction` in litecoin/src/blockdata/transaction.rs, over the public keys of
-- the MWEB part and the witnesses.
pub mod Pieces
pub mod RoundTrip
use Prim.Native.Nat.{bit_and}
use rust_litecoin.Prelude.{
  ℕ, ◌+◌, Bool, true, false, not, ◌&&◌, ◌||◌, List, [], ◌∷◌, Option, none, some, length, ◌==◌,
  if◌then◌else◌,
}
use rust_litecoin.Wire.Codec.{
  parse_failed, unsupported_segwit_flag, Read, pure, throw, ◌>>=◌, Write, ◌⊕◌, emit,
}
use rust_litecoin.Wire.Ints.{emit_uint, read_uint}
use rust_litecoin.Wire.Vectors.{encode_all, encode_vec, decode_vec}
use rust_litecoin.Locktime.Absolute.{encode_lock_time, decode_lock_time}
use rust_litecoin.Mweb.Types.{PublicKeys}
use rust_litecoin.Mweb.Types as Mweb
use rust_litecoin.Mweb.Transaction.{
  encode_transaction as encode_mweb_transaction, decode_transaction as decode_mweb_transaction,
}
use rust_litecoin.Tx.Types.{WitnessCodec, TxIn, TxOut, Transaction}
use rust_litecoin.Tx.Parts.{encode_tx_in, decode_tx_in, encode_tx_out, decode_tx_out}

-- `SEGWIT_MARKER`, `FLAGS_SEGWIT` and `FLAGS_MWEB_TX`
abbrev pub segwit_marker : ℕ
segwit_marker = 0

abbrev pub flags_segwit : ℕ
flags_segwit = 0x01

abbrev pub flags_mweb_tx : ℕ
flags_mweb_tx = 0x08

-- `flag |= …`: the two bits do not meet.
unfoldable pub flag_of : Bool → Bool → ℕ
flag_of segwit mweb = (if segwit then flags_segwit else 0) + (if mweb then flags_mweb_tx else 0)

-- `segwit_flag & (FLAGS_SEGWIT | FLAGS_MWEB_TX) != segwit_flag || segwit_flag == 0`
bad_flag : ℕ → Bool
bad_flag flag = not (bit_and flag (flags_segwit + flags_mweb_tx) == flag) || (flag == 0)

abbrev is_some : {A : Type 0} → Option A → Bool
is_some none = false
is_some (some a) = true

module _ (secp : PublicKeys) (wc : WitnessCodec) where
  open secp use {PublicKey}
  open wc use {Witness, default_witness, is_empty, encode_witness, decode_witness}

  -- `input.iter().any(|i| !i.witness.is_empty())`
  unfoldable pub any_witness : List (TxIn Witness) → Bool
  any_witness [] = false
  any_witness (i ∷ is) = not (is_empty i.witness) || any_witness is

  -- `input.iter().all(|i| i.witness.is_empty())`
  unfoldable pub all_empty : List (TxIn Witness) → Bool
  all_empty [] = true
  all_empty (i ∷ is) = is_empty i.witness && all_empty is

  unfoldable pub has_mweb : Transaction PublicKey Witness → Bool
  has_mweb t = is_some t.mw_tx || t.is_hog_ex

  unfoldable pub segwit_required : Transaction PublicKey Witness → Bool
  unfolding any_witness has_mweb
  segwit_required t = any_witness t.input || (length t.input == 0) && not (has_mweb t)

  unfoldable pub encode_mweb : Option (Mweb.Transaction PublicKey) → Write
  encode_mweb (some mw) = emit_uint 1 1 ⊕ encode_mweb_transaction secp mw
  encode_mweb none = emit_uint 1 0

  -- The fields between the version and the lock time.
  unfoldable pub encode_fields : Bool → Bool → Transaction PublicKey Witness → Write
  unfolding encode_mweb flag_of
  encode_fields segwit mweb t =
      if not segwit && not mweb
      then encode_vec encode_tx_in t.input ⊕ encode_vec encode_tx_out t.output
      else emit_uint 1 segwit_marker
        ⊕ emit_uint 1 (flag_of segwit mweb)
        ⊕ encode_vec encode_tx_in t.input
        ⊕ encode_vec encode_tx_out t.output
        ⊕ (if segwit
            then encode_all (λ (i : TxIn Witness). encode_witness i.witness) t.input
            else emit [])
        ⊕ (if mweb then encode_mweb t.mw_tx else emit [])

  unfoldable pub encode_transaction : Transaction PublicKey Witness → Write
  unfolding encode_fields segwit_required has_mweb
  encode_transaction t =
      emit_uint 4 t.version
      ⊕ encode_fields (segwit_required t) (has_mweb t) t
      ⊕ encode_lock_time t.lock_time

  unfoldable pub decode_witnesses : List (TxIn Witness) → Read (List (TxIn Witness))
  decode_witnesses [] = pure []
  decode_witnesses (i ∷ is) =
      decode_witness >>= λ w. decode_witnesses is >>= λ rest. pure (record i { witness = w } ∷ rest)

  unfoldable pub some_witness : List (TxIn Witness) → Read (List (TxIn Witness))
  unfolding all_empty
  some_witness input =
      if not (length input == 0) && all_empty input
      then throw (parse_failed "witness flag set but no witnesses present")
      else pure input

  -- `is_mw_tx_present`, and what follows it: `mw_tx` and `is_hog_ex`
  unfoldable pub decode_mweb : List TxOut → ℕ → Read (Option (Mweb.Transaction PublicKey) × Bool)
  decode_mweb output present =
      if not (present == 0)
      then (decode_mweb_transaction secp >>= λ mw. pure (some mw, false))
      else if length output == 0
      then throw (parse_failed "HogEx transaction must have at least one output")
      else pure (none, true)

  -- What follows the flag byte.
  decode_extended : ℕ → Bool → Bool → Read (Transaction PublicKey Witness)
  unfolding decode_witnesses some_witness decode_mweb
  decode_extended version segwit mweb = do
    stripped ← decode_vec (decode_tx_in default_witness)
    output ← decode_vec decode_tx_out
    input ← if segwit then (decode_witnesses stripped >>= some_witness) else pure stripped
    mw ← if mweb then (read_uint 1 >>= decode_mweb output) else pure (none, false)
    lock_time ← decode_lock_time
    pure (record {
      version = version;
      lock_time = lock_time;
      input = input;
      output = output;
      mw_tx = mw.0;
      is_hog_ex = mw.1;
    })

  decode_flag : ℕ → ℕ → Read (Transaction PublicKey Witness)
  unfolding decode_extended bad_flag
  decode_flag version flag =
      if bad_flag flag
      then throw (unsupported_segwit_flag flag)
      else decode_extended version (not (bit_and flag flags_segwit == 0))
          (not (bit_and flag flags_mweb_tx == 0))

  decode_legacy : ℕ → List (TxIn Witness) → Read (Transaction PublicKey Witness)
  decode_legacy version input = do
    output ← decode_vec decode_tx_out
    lock_time ← decode_lock_time
    pure (record {
      version = version;
      lock_time = lock_time;
      input = input;
      output = output;
      mw_tx = none;
      is_hog_ex = false;
    })

  decode_rest : ℕ → List (TxIn Witness) → Read (Transaction PublicKey Witness)
  unfolding decode_flag decode_legacy
  decode_rest version input =
      if length input == 0
      then (read_uint 1 >>= decode_flag version)
      else decode_legacy version input

  unfoldable pub decode_transaction : Read (Transaction PublicKey Witness)
  unfolding decode_rest
  decode_transaction = do
    version ← read_uint 4
    input ← decode_vec (decode_tx_in default_witness)
    decode_rest version input
