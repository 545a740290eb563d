-- ===== src/Mweb/Transaction/RoundTrip.antt =====
-- The writer and the reader of an MWEB transaction, together.
use rust_litecoin.Prelude.{◌<◌, ◌≡◌, refl, List, [], ◌∷◌, All, length, arith, ne→==}
use rust_litecoin.Wire.Codec.{Write, Read}
use rust_litecoin.Wire.RoundTrip.{RoundTrip, RoundTrip->>=, RoundTrip-then, RoundTrip-array}
use rust_litecoin.Wire.VarInt.{IsU64}
use rust_litecoin.Wire.Vectors.{RoundTrip-vec}
use rust_litecoin.Mweb.Types.{PublicKeys, TxBody, Transaction}
use rust_litecoin.Mweb.Kernel.RoundTrip.{IsValidKernel, RoundTrip-kernel}
use rust_litecoin.Mweb.Input.RoundTrip.{IsValidInput, RoundTrip-input}
use rust_litecoin.Mweb.Output.RoundTrip.{IsValidOutput, RoundTrip-output}
use rust_litecoin.Mweb.Transaction.{
  encode_tx_body, decode_tx_body, encode_transaction, finish_transaction, decode_transaction,
}

-- A property of each element, carried over.
each-RoundTrip :
    {A : Type 0} (P : A → Type 0) (item : A → Write) (p : Read A)
    → ((a : A) → P a → RoundTrip (item a) p a)
    → (xs : List A) → All P xs
    → All (λ x. RoundTrip (item x) p x) xs
each-RoundTrip P item p h [] good = tt
each-RoundTrip P item p h (x ∷ xs) (good, rest) = (h x good, each-RoundTrip P item p h xs rest)

module _ (secp : PublicKeys) where
  open secp use {PublicKey}

  pub record IsValidBody (b : TxBody PublicKey) : Type 0 where
    pub inputs_ok : All (IsValidInput secp) b.inputs
    pub outputs_ok : All (IsValidOutput secp) b.outputs
    pub kernels_ok : All (IsValidKernel secp) b.kernels
    pub inputs_fit : IsU64 (length b.inputs)
    pub outputs_fit : IsU64 (length b.outputs)
    pub kernels_fit : IsU64 (length b.kernels)

  pub record IsValidTransaction (t : Transaction PublicKey) : Type 0 where
    pub kernel_offset_size : length t.kernel_offset ≡ 32
    pub stealth_offset_size : length t.stealth_offset ≡ 32
    pub body_ok : IsValidBody t.body
    pub some_kernel : 0 < length t.body.kernels

  -- A body of valid inputs, outputs and kernels is written in full, and reads back.
  pub RoundTrip-tx_body :
      (b : TxBody PublicKey)
      → IsValidBody b
      → RoundTrip (encode_tx_body secp b) (decode_tx_body secp) b
  unfolding encode_tx_body decode_tx_body
  RoundTrip-tx_body b v =
      RoundTrip->>= _ _ _ _ b.inputs b
        (RoundTrip-vec _ _ b.inputs v.inputs_fit
          (each-RoundTrip _ _ _ (RoundTrip-input secp) b.inputs v.inputs_ok))
        (RoundTrip->>= _ _ _ _ b.outputs b
          (RoundTrip-vec _ _ b.outputs v.outputs_fit
            (each-RoundTrip _ _ _ (RoundTrip-output secp) b.outputs v.outputs_ok))
          (RoundTrip-then _ _ _ b.kernels b
            (RoundTrip-vec _ _ b.kernels v.kernels_fit
              (each-RoundTrip _ _ _ (RoundTrip-kernel secp) b.kernels v.kernels_ok))
            (λ s. refl)))

  -- An MWEB transaction with at least one kernel and valid parts is written in full, and reads back
  -- with whatever follows it left over.
  pub RoundTrip-transaction :
      (t : Transaction PublicKey)
      → IsValidTransaction t
      → RoundTrip (encode_transaction secp t) (decode_transaction secp) t
  unfolding encode_transaction decode_transaction
  RoundTrip-transaction t v =
      RoundTrip->>= _ _ _ _ t.kernel_offset t
        (RoundTrip-array 32 t.kernel_offset v.kernel_offset_size)
        (RoundTrip->>= _ _ _ _ t.stealth_offset t
          (RoundTrip-array 32 t.stealth_offset v.stealth_offset_size)
          (RoundTrip-then _ _ (finish_transaction secp t.kernel_offset t.stealth_offset) t.body t
            (RoundTrip-tx_body t.body v.body_ok)
            (λ s. rw (ne→== (length t.body.kernels) 0 (omega arith), finish_transaction))))
