-- ===== src/Block/RoundTrip.antt =====
-- The writer and the reader of a block, together.
use rust_litecoin.Prelude.{
  ℕ, ◌^◌, ◌<◌, ◌≡◌, refl, Bool, true, false, List, [], ◌∷◌, All, Option, none, some, length, arith,
  if◌then◌else◌, lt→ltb,
}
use rust_litecoin.Wire.Codec.{pure, ◌>>=◌, emit}
use rust_litecoin.Wire.RoundTrip.{
  RoundTrip, RoundTrip->>=, RoundTrip-then, RoundTrip-array, RoundTrip-pure,
}
use rust_litecoin.Wire.Ints.{read_uint, RoundTrip-uint}
use rust_litecoin.Wire.VarInt.{IsU64}
use rust_litecoin.Wire.Vectors.{RoundTrip-vec}
use rust_litecoin.Mweb.Types.{PublicKeys}
use rust_litecoin.Mweb.Varint.{write_compact_varint}
use rust_litecoin.Mweb.Varint.RoundTrip.{RoundTrip-compact_varint}
use rust_litecoin.Mweb.Transaction.RoundTrip.{IsValidBody, RoundTrip-tx_body}
use rust_litecoin.Tx.Types.{WitnessCodec, Transaction}
use rust_litecoin.Tx.Codec.{encode_transaction, decode_transaction}
use rust_litecoin.Tx.Codec.Pieces.{IsValidTx}
use rust_litecoin.Tx.Codec.RoundTrip.{RoundTrip-tx}
use rust_litecoin.Block.{
  Header, MwebBlockHeader, MwebBlock, Block, encode_header, decode_header, encode_mweb_header,
  height_of, read_height, decode_mweb_header, block_carries_mweb, early_hog_ex, encode_mweb_block,
  decode_mweb_block, encode_extension, decode_present, encode_block, decode_rest, decode_block,
}

pub record IsValidHeader (h : Header) : Type 0 where
  pub version_fits : h.version < 2 ^ 32
  pub prev_size : length h.prev_blockhash ≡ 32
  pub root_size : length h.merkle_root ≡ 32
  pub time_fits : h.time < 2 ^ 32
  pub bits_fit : h.bits < 2 ^ 32
  pub nonce_fits : h.nonce < 2 ^ 32

pub record IsValidMwebHeader (h : MwebBlockHeader) : Type 0 where
  pub height_fits : h.height < 2 ^ 32
  pub output_root_size : length h.output_root ≡ 32
  pub kernel_root_size : length h.kernel_root ≡ 32
  pub leafset_root_size : length h.leafset_root ≡ 32
  pub kernel_offset_size : length h.kernel_offset ≡ 32
  pub stealth_offset_size : length h.stealth_offset ≡ 32
  pub outputs_fit : IsU64 h.output_mmr_size
  pub kernels_fit : IsU64 h.kernel_mmr_size

-- A header is written in 80 bytes, and reads back.
pub RoundTrip-header : (h : Header) → IsValidHeader h → RoundTrip (encode_header h) decode_header h
unfolding encode_header decode_header
RoundTrip-header h v =
    RoundTrip->>= _ _ _ _ h.version h (RoundTrip-uint 4 h.version (omega (arith, v.version_fits))) (
      RoundTrip->>= _ _ _ _ h.prev_blockhash h (RoundTrip-array 32 h.prev_blockhash v.prev_size) (
        RoundTrip->>= _ _ _ _ h.merkle_root h (RoundTrip-array 32 h.merkle_root v.root_size) (
          RoundTrip->>= _ _ _ _ h.time h (RoundTrip-uint 4 h.time (omega (arith, v.time_fits))) (
            RoundTrip->>= _ _ _ _ h.bits h (RoundTrip-uint 4 h.bits (omega (arith, v.bits_fit))) (
              RoundTrip-then _ _ _ h.nonce h
                (RoundTrip-uint 4 h.nonce (omega (arith, v.nonce_fits))) (λ s. refl))))))

RoundTrip-height : (n : ℕ) → n < 2 ^ 32 → RoundTrip (write_compact_varint n) read_height n
unfolding read_height height_of
RoundTrip-height n h =
    RoundTrip-then _ _ height_of n n (RoundTrip-compact_varint n (omega (arith, h)))
      (λ s. rw (lt→ltb n (2 ^ 32) h) refl)

pub RoundTrip-mweb_header :
    (h : MwebBlockHeader)
    → IsValidMwebHeader h
    → RoundTrip (encode_mweb_header h) decode_mweb_header h
unfolding encode_mweb_header decode_mweb_header
RoundTrip-mweb_header h v =
    RoundTrip->>= _ _ _ _ h.height h (RoundTrip-height h.height v.height_fits) (
      RoundTrip->>= _ _ _ _ h.output_root h (RoundTrip-array 32 h.output_root v.output_root_size) (
        RoundTrip->>= _ _ _ _ h.kernel_root h (RoundTrip-array 32 h.kernel_root v.kernel_root_size)
          (RoundTrip->>= _ _ _ _ h.leafset_root h
            (RoundTrip-array 32 h.leafset_root v.leafset_root_size)
            (RoundTrip->>= _ _ _ _ h.kernel_offset h
              (RoundTrip-array 32 h.kernel_offset v.kernel_offset_size)
              (RoundTrip->>= _ _ _ _ h.stealth_offset h
                (RoundTrip-array 32 h.stealth_offset v.stealth_offset_size)
                (RoundTrip->>= _ _ _ _ h.output_mmr_size h
                  (RoundTrip-compact_varint h.output_mmr_size v.outputs_fit)
                  (RoundTrip-then _ _ _ h.kernel_mmr_size h
                    (RoundTrip-compact_varint h.kernel_mmr_size v.kernels_fit) (λ s. refl))))))))

module _ (secp : PublicKeys) (wc : WitnessCodec) where
  open secp use {PublicKey}
  open wc use {Witness}

  pub record IsValidMwebBlock (b : MwebBlock PublicKey) : Type 0 where
    pub header_ok : IsValidMwebHeader b.mweb_header
    pub body_ok : IsValidBody secp b.tx_body

  RoundTrip-mweb_block :
      (b : MwebBlock PublicKey)
      → IsValidMwebBlock b
      → RoundTrip (encode_mweb_block secp wc b) (decode_mweb_block secp wc) b
  unfolding encode_mweb_block decode_mweb_block
  RoundTrip-mweb_block b v =
      RoundTrip->>= _ _ _ _ b.mweb_header b (RoundTrip-mweb_header b.mweb_header v.header_ok)
        (RoundTrip-then _ _ _ b.tx_body b (RoundTrip-tx_body secp b.tx_body v.body_ok) (λ s. refl))

  -- A block carries an extension block only where its version and its last transaction say so.
  abbrev pub IsValidExtension : Bool → Option (MwebBlock PublicKey) → Type 0
  IsValidExtension carries none = Unit
  IsValidExtension carries (some mw) = IsValidMwebBlock mw × (carries ≡ true)

  pub record IsValidBlock (b : Block PublicKey Witness) : Type 0 where
    pub header_ok : IsValidHeader b.header
    pub txs_ok : All (IsValidTx secp wc) b.txdata
    pub txs_fit : IsU64 (length b.txdata)
    pub hog_ex_last : early_hog_ex b.txdata ≡ false
    pub extension_ok : IsValidExtension (block_carries_mweb b.header.version b.txdata) b.mweb_block

  txs_RoundTrip :
      (txs : List (Transaction PublicKey Witness))
      → All (IsValidTx secp wc) txs
      → All (λ t. RoundTrip (encode_transaction secp wc t) (decode_transaction secp wc) t) txs
  txs_RoundTrip [] h = tt
  txs_RoundTrip (t ∷ txs) (h, rest) = (RoundTrip-tx secp wc t h, txs_RoundTrip txs rest)

  extension_RoundTrip :
      (carries : Bool) (mweb_block : Option (MwebBlock PublicKey))
      → IsValidExtension carries mweb_block
      → RoundTrip
          (if carries then encode_extension secp wc mweb_block else emit [])
          (if carries then (read_uint 1 >>= decode_present secp wc) else pure none)
          mweb_block
  unfolding encode_extension decode_present
  extension_RoundTrip true none h =
      RoundTrip-then _ (read_uint 1) _ 0 none (RoundTrip-uint 1 0 (omega arith)) (λ s. refl)
  extension_RoundTrip false none h = RoundTrip-pure none
  extension_RoundTrip true (some mw) (h, e) =
      RoundTrip->>= _ _ (read_uint 1) _ 1 (some mw) (RoundTrip-uint 1 1 (omega arith))
        (RoundTrip-then _ _ _ mw (some mw) (RoundTrip-mweb_block mw h) (λ s. refl))
  extension_RoundTrip false (some mw) (h, e) = absurd cc

  -- A block with valid parts, whose only HogEx transaction is the last one if there is one, and which
  -- has an extension block only where its header and that transaction announce it, is written in
  -- full, and reads back with whatever follows it left over.
  pub RoundTrip-block :
      (b : Block PublicKey Witness)
      → IsValidBlock b
      → RoundTrip (encode_block secp wc b) (decode_block secp wc) b
  unfolding encode_block decode_block decode_rest
  RoundTrip-block b v = RoundTrip->>= _ _ _ _ b.header b (RoundTrip-header b.header v.header_ok) (
      RoundTrip->>= _ _ _ _ b.txdata b
        (RoundTrip-vec _ _ b.txdata v.txs_fit (txs_RoundTrip b.txdata v.txs_ok))
        (rw v.hog_ex_last (
          RoundTrip-then _ _ _ b.mweb_block b
            (extension_RoundTrip (block_carries_mweb b.header.version b.txdata) b.mweb_block
              v.extension_ok)
            (λ s. refl))))
