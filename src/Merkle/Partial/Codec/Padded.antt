-- ===== src/Merkle/Partial/Codec/Padded.antt =====
-- A partial tree of litecoin/src/merkle_tree/block.rs is read back with its bits filled up to whole
-- bytes.
use rust_litecoin.Prelude.{
  ℕ, ◌+◌, ◌-◌, ◌*◌, ◌^◌, ◌≤◌, ◌<◌, ◌≡◌, refl, sym, ap, ◌∙◌, Bool, List, [], ◌∷◌, ◌++◌, length,
  arith, All, ge→ltb, length-append,
}
use mathlib.Core.Path.{subst}
use rust_litecoin.Wire.Codec.{read_exact, emit, max_vec_size}
use rust_litecoin.Wire.RoundTrip.{
  RoundTrip, RoundTrip->>=, RoundTrip-then, RoundTrip-array, Sized, Sized-⊕,
}
use rust_litecoin.Wire.Ints.{emit_uint, read_uint, RoundTrip-uint, Sized-uint}
use rust_litecoin.Wire.VarInt
use rust_litecoin.Wire.Vectors.{
  encode_all, decode_all, encode_vec, decode_vec, RoundTrip-vec, RoundTrip-each, map_self,
  sum_sizes, sum_sizes_const, Sized-each, Sized-vec,
}
use rust_litecoin.Wire.Whole.{consensus_decode, RoundTrip-consensus_decode}
use rust_litecoin.Merkle.Partial.{PartialMerkleTree}
use rust_litecoin.Merkle.Partial.Codec.{
  pack, bytes_for_bits, encode_tree, unpack, decode_bits, decode_tree, padding, length-falses,
  pack-padded, unpack-pack, pack-IsByte, length-pack,
}

-- A tree whose numbers fit: hashes of 32 bytes, and few enough hashes and bits for the limit of a reader
pub record IsValidTree (t : PartialMerkleTree) : Type 0 where
  pub num_fits : t.num_transactions < 2 ^ 32
  pub hashes_fit : VarInt.IsU64 (length t.hashes)
  pub hash_sizes : All (λ h. length h ≡ 32) t.hashes
  pub size_fits : 22 + 32 * length t.hashes + bytes_for_bits t.bits ≤ max_vec_size

-- What is read back
abbrev pub padded : PartialMerkleTree → PartialMerkleTree
padded t = record t { bits = t.bits ++ padding t.bits }

RoundTrip-bytes :
    (bytes : List ℕ)
    → All (λ b. b < 256) bytes
    → RoundTrip (encode_all (emit_uint 1) bytes) (decode_all (read_uint 1) (length bytes)) bytes
RoundTrip-bytes bytes h =
    subst (RoundTrip (encode_all (emit_uint 1) bytes) (decode_all (read_uint 1) (length bytes)))
      (map_self bytes) (RoundTrip-each (λ b. b) (emit_uint 1) (read_uint 1) bytes (each bytes h))
  where
    each :
        (bytes : List ℕ)
        → All (λ b. b < 256) bytes
        → All (λ b. RoundTrip (emit_uint 1 b) (read_uint 1) b) bytes
    each [] h = tt
    each (b ∷ bytes) (hb, h) = (RoundTrip-uint 1 b hb, each bytes h)

hashes-RoundTrip :
    (hashes : List (List ℕ))
    → All (λ h. length h ≡ 32) hashes
    → All (λ h. RoundTrip (emit h) (read_exact 32) h) hashes
hashes-RoundTrip [] h = tt
hashes-RoundTrip (x ∷ xs) (hx, h) = (RoundTrip-array 32 x hx, hashes-RoundTrip xs h)

RoundTrip-bits :
    (bits : List Bool)
    → bytes_for_bits bits ≤ max_vec_size
    → RoundTrip
        (encode_all (emit_uint 1) (pack (bytes_for_bits bits) bits))
        (decode_bits (bytes_for_bits bits))
        (bits ++ padding bits)
unfolding decode_bits
RoundTrip-bits bits h =
    let n = bytes_for_bits bits in
    let k = 8 * n - length bits in
    let full : length (bits ++ padding bits) ≡ 8 * n =
      omega (arith, length-append bits (padding bits), length-falses k) in
    let same : pack n (bits ++ padding bits) ≡ pack n bits = pack-padded n k bits (omega arith) in
    let bytes = subst (All (λ b. b < 256)) same (pack-IsByte n (bits ++ padding bits) full) in
    let back : unpack (pack n bits) ≡ bits ++ padding bits =
      ap unpack (sym same) ∙ unpack-pack n (bits ++ padding bits) full in
    let read =
      subst
        (λ m.
          RoundTrip (encode_all (emit_uint 1) (pack n bits)) (decode_all (read_uint 1) m)
            (pack n bits))
        (length-pack n bits) (RoundTrip-bytes (pack n bits) bytes) in
    rw (ge→ltb max_vec_size n h) (
      RoundTrip-then _ (decode_all (read_uint 1) n) _ (pack n bits) (bits ++ padding bits) read
        (λ s. rw back refl))

tree_size : PartialMerkleTree → ℕ
tree_size t =
    4
    + ((VarInt.size (length t.hashes) + 32 * length t.hashes)
        + (VarInt.size (bytes_for_bits t.bits) + bytes_for_bits t.bits))

Sized-hashes :
    (hashes : List (List ℕ))
    → All (λ h. length h ≡ 32) hashes
    → Sized (encode_vec emit hashes) (VarInt.size (length hashes) + 32 * length hashes)
Sized-hashes hashes h =
    subst (λ n. Sized (encode_vec emit hashes) (VarInt.size (length hashes) + n))
      (sum_sizes_const 32 hashes) (Sized-vec emit (λ x. 32) hashes (each hashes h))
  where
    each : (hs : List (List ℕ)) → All (λ x. length x ≡ 32) hs → All (λ x. Sized (emit x) 32) hs
    each [] h = tt
    each (x ∷ xs) (hx, h) = ((x, rw hx refl, hx), each xs h)

Sized-bytes : (bytes : List ℕ) → Sized (encode_all (emit_uint 1) bytes) (length bytes)
Sized-bytes bytes =
    let total : sum_sizes (λ b. 1) bytes ≡ length bytes = omega (arith, sum_sizes_const 1 bytes) in
    subst (Sized (encode_all (emit_uint 1) bytes)) total
      (Sized-each (emit_uint 1) (λ b. 1) bytes (each bytes))
  where
    each : (bs : List ℕ) → All (λ b. Sized (emit_uint 1 b) 1) bs
    each [] = tt
    each (b ∷ bs) = (Sized-uint 1 b, each bs)

-- A tree is written in as many bytes as its parts.
Sized-tree :
    (t : PartialMerkleTree)
    → All (λ h. length h ≡ 32) t.hashes
    → Sized (encode_tree t) (tree_size t)
unfolding encode_tree tree_size
Sized-tree t h =
    let n = bytes_for_bits t.bits in
    Sized-⊕ _ _ 4 _ (Sized-uint 4 t.num_transactions) (
      Sized-⊕ _ _ (VarInt.size (length t.hashes) + 32 * length t.hashes) _ (Sized-hashes t.hashes h)
        (Sized-⊕ _ _ (VarInt.size n) n (VarInt.encode-size n) (
          subst (Sized (encode_all (emit_uint 1) (pack n t.bits))) (length-pack n t.bits)
            (Sized-bytes (pack n t.bits)))))

tree_size-bound : (t : PartialMerkleTree) → IsValidTree t → tree_size t ≤ max_vec_size
unfolding tree_size
tree_size-bound t v = omega (
  arith,
  v.size_fits,
  VarInt.size-bound (length t.hashes),
  VarInt.size-bound (bytes_for_bits t.bits),
)

hashes-consensus_decode :
    (t : PartialMerkleTree)
    → IsValidTree t
    → RoundTrip (encode_vec emit t.hashes) (consensus_decode (decode_vec (read_exact 32))) t.hashes
hashes-consensus_decode t v =
    RoundTrip-consensus_decode _ _ t.hashes _
      (RoundTrip-vec emit (read_exact 32) t.hashes v.hashes_fit
        (hashes-RoundTrip t.hashes v.hash_sizes))
      (Sized-hashes t.hashes v.hash_sizes)
      (omega (arith, v.size_fits, VarInt.size-bound (length t.hashes)))

-- A tree of valid numbers is written, and reads back with clear bits behind its own up to a whole
-- byte.
RoundTrip-parts :
    (t : PartialMerkleTree) → IsValidTree t → RoundTrip (encode_tree t) decode_tree (padded t)
unfolding encode_tree decode_tree
RoundTrip-parts t v =
    let few : bytes_for_bits t.bits ≤ max_vec_size = omega (arith, v.size_fits) in
    RoundTrip->>= _ _ _ _ t.num_transactions _
      (RoundTrip-uint 4 t.num_transactions (omega (arith, v.num_fits)))
      (RoundTrip->>= _ _ _ _ t.hashes _ (hashes-consensus_decode t v) (
        RoundTrip->>= _ _ _ _ (bytes_for_bits t.bits) _
          (VarInt.RoundTrip-var_int (bytes_for_bits t.bits) (omega (arith, few)))
          (RoundTrip-then _ _ _ (t.bits ++ padding t.bits) _ (RoundTrip-bits t.bits few)
            (λ s. refl))))

-- So it does behind the limit.
pub RoundTrip-tree :
    (t : PartialMerkleTree)
    → IsValidTree t
    → RoundTrip (encode_tree t) (consensus_decode decode_tree) (padded t)
RoundTrip-tree t v =
    RoundTrip-consensus_decode _ _ _ _ (RoundTrip-parts t v) (Sized-tree t v.hash_sizes)
      (tree_size-bound t v)
