-- ===== src/Block/Size.antt =====
-- The sizes of a block count the bytes that it is written in.
use rust_litecoin.Prelude.{ℕ, ◌+◌, ◌≡◌, refl, ap, false, List, [], ◌∷◌, All, length, arith}
use mathlib.Core.Path.{subst}
use rust_litecoin.Wire.Codec.{ok, emit}
use rust_litecoin.Wire.RoundTrip.{Sized, Sized-⊕}
use rust_litecoin.Wire.Ints.{Sized-uint}
use rust_litecoin.Wire.VarInt
use rust_litecoin.Wire.Vectors.{sum_sizes, Sized-vec}
use rust_litecoin.Mweb.Types.{PublicKeys}
use rust_litecoin.Tx.Types.{WitnessCodec, Transaction}
use rust_litecoin.Tx.Codec.{encode_transaction, has_mweb}
use rust_litecoin.Tx.Codec.Pieces.{IsValidTx}
use rust_litecoin.Tx.Size as Tx
use rust_litecoin.Tx.Size.Serialized.{total_size-Sized}
use rust_litecoin.Block.{Header, Block, encode_header, block_carries_mweb, encode_block, total_size}
use rust_litecoin.Block.RoundTrip.{IsValidHeader}

pub header-Sized : (h : Header) → IsValidHeader h → Sized (encode_header h) 80
unfolding encode_header
header-Sized h v = Sized-⊕ _ _ 4 76 (Sized-uint 4 h.version) (
    Sized-⊕ _ _ 32 44 (array-Sized h.prev_blockhash v.prev_size) (
      Sized-⊕ _ _ 32 12 (array-Sized h.merkle_root v.root_size) (
        Sized-⊕ _ _ 4 8 (Sized-uint 4 h.time)
          (Sized-⊕ _ _ 4 4 (Sized-uint 4 h.bits) (Sized-uint 4 h.nonce)))))
  where
    array-Sized : (bs : List ℕ) → length bs ≡ 32 → Sized (emit bs) 32
    array-Sized bs e = (bs, ap (λ n. ok (bs, n)) e, e)

module _ (secp : PublicKeys) (wc : WitnessCodec) where
  open secp use {PublicKey}
  open wc use {Witness}

  -- Neither an MWEB part nor a HogEx mark in any transaction
  abbrev pub NoMweb : List (Transaction PublicKey Witness) → Type 0
  NoMweb = All (λ t. has_mweb secp wc t ≡ false)

  txs-Sized :
      (txs : List (Transaction PublicKey Witness))
      → All (IsValidTx secp wc) txs
      → NoMweb txs
      → All (λ t. Sized (encode_transaction secp wc t) (Tx.total_size secp wc t)) txs
  txs-Sized [] h k = tt
  txs-Sized (t ∷ txs) (h, hs) (k, ks) = (total_size-Sized secp wc t h k, txs-Sized txs hs ks)

  -- A block of valid transactions none of which has an MWEB part or a HogEx mark is written in
  -- exactly `total_size` bytes if it has no extension block, and the encoder returns that number.
  pub block_total_size-Sized :
      (b : Block PublicKey Witness)
      → IsValidHeader b.header
      → All (IsValidTx secp wc) b.txdata
      → NoMweb b.txdata
      → block_carries_mweb b.header.version b.txdata ≡ false
      → Sized (encode_block secp wc b) (total_size secp wc b)
  unfolding encode_block total_size
  block_total_size-Sized b v txs none_mweb plain =
      let txs_size = VarInt.size (length b.txdata) + sum_sizes (Tx.total_size secp wc) b.txdata in
      subst (Sized _) (omega arith) (
        Sized-⊕ _ _ 80 (txs_size + 0) (header-Sized b.header v) (
          Sized-⊕ _ _ txs_size 0
            (Sized-vec _ (Tx.total_size secp wc) b.txdata (txs-Sized b.txdata txs none_mweb))
            (rw plain ([], refl, refl))))
