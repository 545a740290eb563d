-- ===== src/Block.antt =====
-- Blocks of litecoin/src/blockdata/block.rs: the header, the MWEB extension block, and the codec and
-- the sizes of a whole block. A hash is the list of its bytes, the version is the bit pattern of its
-- i32.
pub mod RoundTrip
pub mod Size
use rust_litecoin.Prelude.{
  ℕ, ◌+◌, ◌-◌, ◌*◌, ◌/◌, ◌%◌, ◌^◌, Bool, true, false, ◌&&◌, ◌||◌, List, [], ◌∷◌, Option, none, some,
  length, take, ltb, leb, ◌==◌, if◌then◌else◌,
}
use rust_litecoin.Wire.Codec.{parse_failed, Read, pure, throw, ◌>>=◌, read_exact, Write, ◌⊕◌, emit}
use rust_litecoin.Wire.Ints.{emit_uint, read_uint}
use rust_litecoin.Wire.VarInt
use rust_litecoin.Wire.Vectors.{encode_vec, decode_vec, sum_sizes}
use rust_litecoin.Mweb.Types.{PublicKeys}
use rust_litecoin.Mweb.Types as Mweb
use rust_litecoin.Mweb.Varint.{write_compact_varint, read_compact_varint}
use rust_litecoin.Mweb.Transaction.{encode_tx_body, decode_tx_body}
use rust_litecoin.Tx.Types.{WitnessCodec, Transaction}
use rust_litecoin.Tx.Codec.{encode_transaction, decode_transaction}
use rust_litecoin.Tx.Size as Tx

pub record Header : Type 0 where
  pub version : ℕ
  pub prev_blockhash : List ℕ
  pub merkle_root : List ℕ
  pub time : ℕ
  pub bits : ℕ
  pub nonce : ℕ

pub record MwebBlockHeader : Type 0 where
  pub height : ℕ
  pub output_root : List ℕ
  pub kernel_root : List ℕ
  pub leafset_root : List ℕ
  pub kernel_offset : List ℕ
  pub stealth_offset : List ℕ
  pub output_mmr_size : ℕ
  pub kernel_mmr_size : ℕ

pub record MwebBlock (PublicKey : Type 0) : Type 0 where
  pub mweb_header : MwebBlockHeader
  pub tx_body : Mweb.TxBody PublicKey

pub record Block (PublicKey Witness : Type 0) : Type 0 where
  pub header : Header
  pub txdata : List (Transaction PublicKey Witness)
  pub mweb_block : Option (MwebBlock PublicKey)

unfoldable pub encode_header : Header → Write
encode_header h =
    emit_uint 4 h.version
    ⊕ emit h.prev_blockhash
    ⊕ emit h.merkle_root
    ⊕ emit_uint 4 h.time
    ⊕ emit_uint 4 h.bits
    ⊕ emit_uint 4 h.nonce

unfoldable pub decode_header : Read Header
decode_header = do
  version ← read_uint 4
  prev_blockhash ← read_exact 32
  merkle_root ← read_exact 32
  time ← read_uint 4
  bits ← read_uint 4
  nonce ← read_uint 4
  pure (record {
    version = version;
    prev_blockhash = prev_blockhash;
    merkle_root = merkle_root;
    time = time;
    bits = bits;
    nonce = nonce;
  })

unfoldable pub encode_mweb_header : MwebBlockHeader → Write
encode_mweb_header h =
    write_compact_varint h.height
    ⊕ emit h.output_root
    ⊕ emit h.kernel_root
    ⊕ emit h.leafset_root
    ⊕ emit h.kernel_offset
    ⊕ emit h.stealth_offset
    ⊕ write_compact_varint h.output_mmr_size
    ⊕ write_compact_varint h.kernel_mmr_size

-- `u32::try_from`
unfoldable pub height_of : ℕ → Read ℕ
height_of raw_height =
    if ltb raw_height (2 ^ 32)
    then pure raw_height
    else throw (parse_failed "MwebBlockHeader height out of range")

unfoldable pub read_height : Read ℕ
read_height = read_compact_varint >>= height_of

unfoldable pub decode_mweb_header : Read MwebBlockHeader
decode_mweb_header = do
  height ← read_height
  output_root ← read_exact 32
  kernel_root ← read_exact 32
  leafset_root ← read_exact 32
  kernel_offset ← read_exact 32
  stealth_offset ← read_exact 32
  output_mmr_size ← read_compact_varint
  kernel_mmr_size ← read_compact_varint
  pure (record {
    height = height;
    output_root = output_root;
    kernel_root = kernel_root;
    leafset_root = leafset_root;
    kernel_offset = kernel_offset;
    stealth_offset = stealth_offset;
    output_mmr_size = output_mmr_size;
    kernel_mmr_size = kernel_mmr_size;
  })

-- `version & MWEB_VERSION_BIT`
unfoldable pub signals_mweb : ℕ → Bool
signals_mweb version = version / 2 ^ 29 % 2 == 1

module _ {PublicKey Witness : Type 0} where
  unfoldable pub last_is_hog_ex : List (Transaction PublicKey Witness) → Bool
  last_is_hog_ex [] = false
  last_is_hog_ex (t ∷ []) = t.is_hog_ex
  last_is_hog_ex (t ∷ u ∷ txs) = last_is_hog_ex (u ∷ txs)

  unfoldable pub any_hog_ex : List (Transaction PublicKey Witness) → Bool
  any_hog_ex [] = false
  any_hog_ex (t ∷ txs) = t.is_hog_ex || any_hog_ex txs

  unfoldable pub block_carries_mweb : ℕ → List (Transaction PublicKey Witness) → Bool
  block_carries_mweb version txdata =
      leb 2 (length txdata) && (signals_mweb version && last_is_hog_ex txdata)

  -- HogEx before the last transaction
  unfoldable pub early_hog_ex : List (Transaction PublicKey Witness) → Bool
  early_hog_ex txdata = any_hog_ex (take (length txdata - 1) txdata)

module _ (secp : PublicKeys) (wc : WitnessCodec) where
  open secp use {PublicKey}
  open wc use {Witness}

  unfoldable pub encode_mweb_block : MwebBlock PublicKey → Write
  encode_mweb_block b = encode_mweb_header b.mweb_header ⊕ encode_tx_body secp b.tx_body

  unfoldable pub decode_mweb_block : Read (MwebBlock PublicKey)
  decode_mweb_block = do
    header ← decode_mweb_header
    tx_body ← decode_tx_body secp
    pure (record { mweb_header = header; tx_body = tx_body })

  -- The presence byte and the extension block
  unfoldable pub encode_extension : Option (MwebBlock PublicKey) → Write
  encode_extension none = emit_uint 1 0
  encode_extension (some mw) = emit_uint 1 1 ⊕ encode_mweb_block mw

  unfoldable pub decode_present : ℕ → Read (Option (MwebBlock PublicKey))
  decode_present present =
      if present == 0 then pure none else (decode_mweb_block >>= λ mw. pure (some mw))

  unfoldable pub encode_block : Block PublicKey Witness → Write
  encode_block b =
      encode_header b.header
      ⊕ encode_vec (encode_transaction secp wc) b.txdata
      ⊕ (if block_carries_mweb b.header.version b.txdata
          then encode_extension b.mweb_block
          else emit [])

  unfoldable pub decode_rest :
      Header → List (Transaction PublicKey Witness) → Read (Block PublicKey Witness)
  decode_rest header txdata =
      if early_hog_ex txdata
      then throw (parse_failed "HogEx must be the last transaction")
      else ((if block_carries_mweb header.version txdata
            then (read_uint 1 >>= decode_present)
            else pure none)
          >>= λ mweb_block.
              pure (record { header = header; txdata = txdata; mweb_block = mweb_block }))

  unfoldable pub decode_block : Read (Block PublicKey Witness)
  decode_block = decode_header >>= λ header.
      decode_vec (decode_transaction secp wc) >>= λ txdata. decode_rest header txdata

  -- `Header::SIZE`
  abbrev pub header_size : ℕ
  header_size = 4 + 32 + 32 + 4 + 4 + 4

  unfoldable pub base_size : Block PublicKey Witness → ℕ
  base_size b =
      header_size + VarInt.size (length b.txdata) + sum_sizes (Tx.base_size secp wc) b.txdata

  unfoldable pub total_size : Block PublicKey Witness → ℕ
  total_size b =
      header_size + VarInt.size (length b.txdata) + sum_sizes (Tx.total_size secp wc) b.txdata

  unfoldable pub weight : Block PublicKey Witness → ℕ
  weight b = base_size b * 3 + total_size b
