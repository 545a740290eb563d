-- ===== src/Tx/Size.antt =====
-- Sizes, weights and lock-time tests of litecoin/src/blockdata/transaction.rs, with the two
-- conversions of units/src/weight.rs that they use. The sizes are usize values of data in memory.
pub mod Serialized
pub mod Weight
use rust_litecoin.Prelude.{
  ℕ, ◌+◌, ◌-◌, ◌*◌, ◌/◌, Bool, true, false, not, ◌&&◌, ◌||◌, List, [], ◌∷◌, length, ◌==◌,
  if◌then◌else◌,
}
use rust_litecoin.Wire.VarInt
use rust_litecoin.Wire.Vectors.{sum_sizes}
use rust_litecoin.Locktime.Absolute
use rust_litecoin.Locktime.Sequence
use rust_litecoin.Mweb.Types.{PublicKeys}
use rust_litecoin.Tx.Types.{WitnessCodec, OutPoint, TxIn, TxOut, Transaction}

-- `OutPoint::SIZE`, `Sequence::SIZE`, `Amount::SIZE`, `LockTime::SIZE`
abbrev pub out_point_size : ℕ
out_point_size = 32 + 4

abbrev pub sequence_size : ℕ
sequence_size = 4

abbrev pub amount_size : ℕ
amount_size = 8

abbrev pub lock_time_size : ℕ
lock_time_size = 4

-- `size_from_script_pubkey`, and `TxOut::size`
unfoldable pub size_from_script_pubkey : List ℕ → ℕ
size_from_script_pubkey script = amount_size + VarInt.size (length script) + length script

unfoldable pub tx_out_size : TxOut → ℕ
unfolding size_from_script_pubkey
tx_out_size o = size_from_script_pubkey o.script_pubkey

all_zeros : List ℕ → Bool
all_zeros [] = true
all_zeros (b ∷ bs) = (b == 0) && all_zeros bs

-- `OutPoint::is_null`
unfoldable pub is_null : OutPoint → Bool
unfolding all_zeros
is_null o = all_zeros o.txid && (o.vout == 0xFFFFFFFF)

module _ (secp : PublicKeys) (wc : WitnessCodec) where
  open secp use {PublicKey}
  open wc use {Witness, is_empty, size}

  -- `TxIn::base_size` and `TxIn::total_size`
  unfoldable pub tx_in_base_size : TxIn Witness → ℕ
  tx_in_base_size i =
      out_point_size + VarInt.size (length i.script_sig) + length i.script_sig + sequence_size

  unfoldable pub tx_in_total_size : TxIn Witness → ℕ
  unfolding tx_in_base_size
  tx_in_total_size i = tx_in_base_size i + size i.witness

  witness_somewhere : List (TxIn Witness) → Bool
  witness_somewhere [] = false
  witness_somewhere (i ∷ is) = not (is_empty i.witness) || witness_somewhere is

  -- `uses_segwit_serialization`
  unfoldable pub uses_segwit_serialization : Transaction PublicKey Witness → Bool
  unfolding witness_somewhere
  uses_segwit_serialization t = if witness_somewhere t.input then true else length t.input == 0

  unfoldable pub base_size : Transaction PublicKey Witness → ℕ
  unfolding tx_in_base_size tx_out_size
  base_size t =
      4
      + VarInt.size (length t.input)
      + sum_sizes tx_in_base_size t.input
      + VarInt.size (length t.output)
      + sum_sizes tx_out_size t.output
      + lock_time_size

  unfoldable pub total_size : Transaction PublicKey Witness → ℕ
  unfolding tx_in_base_size tx_in_total_size tx_out_size uses_segwit_serialization
  total_size t =
      let uses_segwit = uses_segwit_serialization t in
      4
      + (if uses_segwit then 2 else 0)
      + VarInt.size (length t.input)
      + sum_sizes (λ i. if uses_segwit then tx_in_total_size i else tx_in_base_size i) t.input
      + VarInt.size (length t.output)
      + sum_sizes tx_out_size t.output
      + lock_time_size

  unfoldable pub weight : Transaction PublicKey Witness → ℕ
  unfolding base_size total_size
  weight t = base_size t * 3 + total_size t

  -- `to_vbytes_ceil`
  unfoldable pub vsize : Transaction PublicKey Witness → ℕ
  unfolding weight
  vsize t = (weight t + 4 - 1) / 4

  unfoldable pub is_coinbase : Transaction PublicKey Witness → Bool
  is_coinbase t = elim t.input [
    | i ∷ is ↦ (length (i ∷ is) == 1) && is_null i.previous_output
    | [] ↦ false
  ]

  -- `is_explicitly_rbf` and `is_lock_time_enabled`, on the inputs
  any_rbf : List (TxIn Witness) → Bool
  any_rbf [] = false
  any_rbf (i ∷ is) = Sequence.is_rbf i.sequence || any_rbf is

  any_lock_time : List (TxIn Witness) → Bool
  any_lock_time [] = false
  any_lock_time (i ∷ is) = not (i.sequence == Sequence.max) || any_lock_time is

  unfoldable pub is_explicitly_rbf : Transaction PublicKey Witness → Bool
  unfolding any_rbf
  is_explicitly_rbf t = any_rbf t.input

  unfoldable pub is_lock_time_enabled : Transaction PublicKey Witness → Bool
  unfolding any_lock_time
  is_lock_time_enabled t = any_lock_time t.input

  unfoldable pub is_absolute_timelock_satisfied : Transaction PublicKey Witness → ℕ → ℕ → Bool
  unfolding is_lock_time_enabled
  is_absolute_timelock_satisfied t height time =
      if not (is_lock_time_enabled t)
      then true
      else Absolute.is_satisfied_by t.lock_time height time
