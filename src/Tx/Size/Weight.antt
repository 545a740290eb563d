-- ===== src/Tx/Size/Weight.antt =====
-- Weights and virtual sizes against the two sizes, and the base size against a transaction
-- whose witnesses are dropped.
use mathlib.Core.List.{map}
use rust_litecoin.Prelude.{
  ℕ, suc, ◌+◌, ◌*◌, ◌≤◌, ◌<◌, ◌≡◌, refl, ap, true, false, not, List, [], ◌∷◌, length, ◌==◌,
  if◌then◌else◌, arith, Bool-cases, inl, inr, ne→==,
}
use rust_litecoin.Wire.Vectors.{sum_sizes, sum_sizes_add}
use rust_litecoin.Mweb.Types.{PublicKeys}
use rust_litecoin.Locktime.Absolute.{is_satisfied_by_later}
use rust_litecoin.Tx.Types.{WitnessCodec, TxIn, Transaction}
use rust_litecoin.Tx.Size.{
  tx_in_base_size, tx_in_total_size, witness_somewhere, uses_segwit_serialization, base_size,
  total_size, weight, vsize, is_absolute_timelock_satisfied, is_lock_time_enabled,
}

module _ (secp : PublicKeys) (wc : WitnessCodec) where
  open secp use {PublicKey}
  open wc use {Witness, size, default_witness, default_is_empty}

  -- The bytes that the witnesses add, with the two bytes of the marker and the flag.
  extra_size : Transaction PublicKey Witness → ℕ
  unfolding uses_segwit_serialization
  extra_size t =
      if uses_segwit_serialization secp wc t
      then 2 + sum_sizes (λ (i : TxIn Witness). size i.witness) t.input
      else 0

  total_size_lem :
      (t : Transaction PublicKey Witness)
      → total_size secp wc t ≡ base_size secp wc t + extra_size t
  unfolding total_size base_size extra_size tx_in_total_size
  total_size_lem t = elim (Bool-cases (uses_segwit_serialization secp wc t)) [
    | inl segwit ↦ rw segwit (
        omega (
          arith,
          sum_sizes_add (tx_in_base_size secp wc) (λ (i : TxIn Witness). size i.witness) t.input,
        ))
    | inr legacy ↦ rw legacy (omega arith)
  ]

  -- The virtual size is the weight divided by four and rounded up, and it lies between the base
  -- size and the total size.
  pub vsize-bounds :
      (t : Transaction PublicKey Witness)
      → (weight secp wc t ≤ 4 * vsize secp wc t)
        × (4 * vsize secp wc t < weight secp wc t + 4)
        × (base_size secp wc t ≤ vsize secp wc t)
        × (vsize secp wc t ≤ total_size secp wc t)
  unfolding vsize weight
  vsize-bounds t =
      (omega arith, omega arith, omega (arith, total_size_lem t), omega (arith, total_size_lem t))

  cleared : TxIn Witness → TxIn Witness
  cleared i = record i { witness = default_witness }

  -- The transaction without its witnesses.
  unfoldable pub drop_witnesses : Transaction PublicKey Witness → Transaction PublicKey Witness
  unfolding cleared
  drop_witnesses t = record t { input = map cleared t.input }

  cleared-length : (is : List (TxIn Witness)) → length (map cleared is) ≡ length is
  cleared-length [] = refl
  cleared-length (i ∷ is) = ap suc (cleared-length is)

  cleared-witness_somewhere :
      (is : List (TxIn Witness)) → witness_somewhere secp wc (map cleared is) ≡ false
  unfolding witness_somewhere cleared
  cleared-witness_somewhere [] = refl
  cleared-witness_somewhere (i ∷ is) = rw (default_is_empty, cleared-witness_somewhere is)

  cleared-base_size :
      (is : List (TxIn Witness))
      → sum_sizes (tx_in_base_size secp wc) (map cleared is)
        ≡ sum_sizes (tx_in_base_size secp wc) is
  unfolding cleared tx_in_base_size
  cleared-base_size [] = refl
  cleared-base_size (i ∷ is) = rw (cleared-base_size is)

  dropped_form :
      (t : Transaction PublicKey Witness)
      → uses_segwit_serialization secp wc (drop_witnesses t) ≡ (length t.input == 0)
  unfolding uses_segwit_serialization drop_witnesses
  dropped_form t = rw (cleared-witness_somewhere t.input, cleared-length t.input)

  dropped_base :
      (t : Transaction PublicKey Witness)
      → base_size secp wc (drop_witnesses t) ≡ base_size secp wc t
  unfolding base_size drop_witnesses
  dropped_base t = rw (cleared-length t.input, cleared-base_size t.input)

  no_inputs-sizes :
      (is : List (TxIn Witness))
      → (if length is == 0
          then 2 + sum_sizes (λ (i : TxIn Witness). size i.witness) (map cleared is)
          else 0)
        ≡ (if length is == 0 then 2 else 0)
  no_inputs-sizes [] = refl
  no_inputs-sizes (i ∷ is) = rw (ne→== (length (i ∷ is)) 0 (omega arith))

  no_inputs-extra_size :
      (t : Transaction PublicKey Witness)
      → extra_size (drop_witnesses t) ≡ (if length t.input == 0 then 2 else 0)
  unfolding extra_size drop_witnesses
  no_inputs-extra_size t = rw (dropped_form t) (no_inputs-sizes t.input)

  -- The base size is the total size of the transaction without its witnesses, except that one
  -- without inputs has two bytes more.
  pub total_size-drop_witnesses :
      (t : Transaction PublicKey Witness)
      → total_size secp wc (drop_witnesses t)
        ≡ base_size secp wc t + (if length t.input == 0 then 2 else 0)
  total_size-drop_witnesses t =
      rw (total_size_lem (drop_witnesses t), dropped_base t, no_inputs-extra_size t)

  -- A transaction whose lock time is satisfied stays so at a later height and time.
  pub timelock_later :
      (t : Transaction PublicKey Witness) (height time height' time' : ℕ)
      → height ≤ height'
      → time ≤ time'
      → is_absolute_timelock_satisfied secp wc t height time ≡ true
      → is_absolute_timelock_satisfied secp wc t height' time' ≡ true
  unfolding is_absolute_timelock_satisfied
  timelock_later t height time height' time' h k e =
      elim (Bool-cases (not (is_lock_time_enabled secp wc t))) [
        | inl free ↦ rw free
        | inr bound ↦
            rw bound
              (is_satisfied_by_later t.lock_time height time height' time' h k (rw bound at e))
      ]
