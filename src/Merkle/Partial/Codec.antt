-- ===== src/Merkle/Partial/Codec.antt =====
-- The codec of `PartialMerkleTree` of litecoin/src/merkle_tree/block.rs: its bits are packed in bytes,
-- the least significant one first. `|=` of bits that are clear is a sum.
pub mod Padded
use rust_litecoin.Prelude.{
  ℕ, zero, suc, ◌+◌, ◌-◌, ◌*◌, ◌/◌, ◌%◌, ◌^◌, ◌≤◌, ◌<◌, ◌≡◌, refl, sym, ap, ◌∙◌, Bool, true, false,
  List, [], ◌∷◌, ◌++◌, length, take, drop, replicate, ltb, ◌==◌, if◌then◌else◌, arith, All, ge→ltb,
  length-append, append_assoc, append-nil, length-take, length-drop, take-append-drop, take_front,
  drop_front, Bool-cases, leb, tests, inl, inr,
}
use mathlib.Core.List.{map}
use rust_litecoin.Wire.Codec.{
  oversized_vector_allocation, Read, pure, throw, ◌>>=◌, read_exact, Write, ◌⊕◌, emit, max_vec_size,
}
use rust_litecoin.Wire.RoundTrip.{RoundTrip, RoundTrip->>=, RoundTrip-then, RoundTrip-array}
use rust_litecoin.Wire.Ints.{emit_uint, read_uint, RoundTrip-uint}
use rust_litecoin.Wire.VarInt
use rust_litecoin.Wire.Vectors.{
  encode_all, decode_all, encode_vec, decode_vec, RoundTrip-vec, RoundTrip-each,
}
use rust_litecoin.Wire.Whole.{consensus_decode}
use rust_litecoin.Merkle.Partial.{PartialMerkleTree}

abbrev pub bit : Bool → ℕ
bit true = 1
bit false = 0

-- The bits of a chunk, from bit `i` on
unfoldable pub pack_chunk : ℕ → List Bool → ℕ
pack_chunk i [] = 0
pack_chunk i (b ∷ bs) = bit b * 2 ^ i + pack_chunk (suc i) bs

-- `self.bits.chunks(8)`, for `n` chunks
unfoldable pub pack : ℕ → List Bool → List ℕ
pack zero bits = []
pack (suc n) bits = pack_chunk 0 (take 8 bits) ∷ pack n (drop 8 bits)

abbrev pub bytes_for_bits : List Bool → ℕ
bytes_for_bits bits = (length bits + 7) / 8

-- `PartialMerkleTree::consensus_encode`
unfoldable pub encode_tree : PartialMerkleTree → Write
unfolding VarInt.encode
encode_tree t =
    emit_uint 4 t.num_transactions
    ⊕ encode_vec emit t.hashes
    ⊕ VarInt.encode (bytes_for_bits t.bits)
    ⊕ encode_all (emit_uint 1) (pack (bytes_for_bits t.bits) t.bits)

-- The bits of a byte, for `count` of them from bit `i` on
unfoldable pub unpack_byte : ℕ → ℕ → ℕ → List Bool
unpack_byte zero i byte = []
unpack_byte (suc count) i byte = (byte / 2 ^ i % 2 == 1) ∷ unpack_byte count (suc i) byte

unfoldable pub unpack : List ℕ → List Bool
unpack [] = []
unpack (byte ∷ bytes) = unpack_byte 8 0 byte ++ unpack bytes

-- The bits behind their number of bytes
unfoldable pub decode_bits : ℕ → Read (List Bool)
decode_bits n =
    if ltb max_vec_size n
    then throw (oversized_vector_allocation n max_vec_size)
    else (decode_all (read_uint 1) n >>= λ bytes. pure (unpack bytes))

-- `PartialMerkleTree::consensus_decode_from_finite_reader`. The vector is read by the default
-- `consensus_decode`, which limits it; the numbers have a `consensus_decode` of their own.
unfoldable pub decode_tree : Read PartialMerkleTree
unfolding VarInt.decode consensus_decode
decode_tree = read_uint 4 >>= λ n. consensus_decode (decode_vec (read_exact 32)) >>= λ hashes.
    VarInt.decode >>= λ nb.
    decode_bits nb >>= λ bits. pure (record { num_transactions = n; bits = bits; hashes = hashes })

-- Bits that fill up the last byte
abbrev pub padding : List Bool → List Bool
padding bits = replicate (8 * bytes_for_bits bits - length bits) false

pack_chunk-padded :
    (i k : ℕ) (bs : List Bool) → pack_chunk i (bs ++ replicate k false) ≡ pack_chunk i bs
unfolding pack_chunk
pack_chunk-padded i zero [] = refl
pack_chunk-padded i (suc k) [] = omega (arith, pack_chunk-padded (suc i) k [])
pack_chunk-padded i k (b ∷ bs) = ap (λ n. bit b * 2 ^ i + n) (pack_chunk-padded (suc i) k bs)

bit_small : (b : Bool) → bit b ≤ 1
bit_small true = omega arith
bit_small false = omega arith

bits_small :
    (a b c d e f g h : Bool)
    → (bit a ≤ 1)
      × (bit b ≤ 1)
      × (bit c ≤ 1)
      × (bit d ≤ 1)
      × (bit e ≤ 1)
      × (bit f ≤ 1)
      × (bit g ≤ 1)
      × (bit h ≤ 1)
bits_small a b c d e f g h = (
  bit_small a,
  bit_small b,
  bit_small c,
  bit_small d,
  bit_small e,
  bit_small f,
  bit_small g,
  bit_small h,
)

bit_back : (n : ℕ) (b : Bool) → n ≡ bit b → (n == 1) ≡ b
bit_back n true e = rw e refl
bit_back n false e = rw e refl

eight :
    {A : Type 0} {a b c d e f g h a' b' c' d' e' f' g' h' : A}
    → a ≡ a'
    → b ≡ b'
    → c ≡ c'
    → d ≡ d'
    → e ≡ e'
    → f ≡ f'
    → g ≡ g'
    → h ≡ h'
    → a ∷ b ∷ c ∷ d ∷ e ∷ f ∷ g ∷ h ∷ [] ≡ a' ∷ b' ∷ c' ∷ d' ∷ e' ∷ f' ∷ g' ∷ h' ∷ []
eight p q r s t u v w = rw (p, q, r, s, t, u, v, w) refl

-- A whole byte
unpack_byte-eight :
    (a b c d e f g h : Bool)
    → unpack_byte 8 0 (pack_chunk 0 (a ∷ b ∷ c ∷ d ∷ e ∷ f ∷ g ∷ h ∷ []))
      ≡ a ∷ b ∷ c ∷ d ∷ e ∷ f ∷ g ∷ h ∷ []
unfolding unpack_byte pack_chunk
unpack_byte-eight a b c d e f g h =
    let s = bits_small a b c d e f g h in
    let byte =
      bit a * 1
      + (bit b * 2
          + (bit c * 4
              + (bit d * 8 + (bit e * 16 + (bit f * 32 + (bit g * 64 + (bit h * 128 + 0))))))) in
    eight (bit_back (byte / 1 % 2) a (omega (arith, s.0, s.1, s.2, s.3, s.4, s.5, s.6, s.7)))
      (bit_back (byte / 2 % 2) b (omega (arith, s.0, s.1, s.2, s.3, s.4, s.5, s.6, s.7)))
      (bit_back (byte / 4 % 2) c (omega (arith, s.0, s.1, s.2, s.3, s.4, s.5, s.6, s.7)))
      (bit_back (byte / 8 % 2) d (omega (arith, s.0, s.1, s.2, s.3, s.4, s.5, s.6, s.7)))
      (bit_back (byte / 16 % 2) e (omega (arith, s.0, s.1, s.2, s.3, s.4, s.5, s.6, s.7)))
      (bit_back (byte / 32 % 2) f (omega (arith, s.0, s.1, s.2, s.3, s.4, s.5, s.6, s.7)))
      (bit_back (byte / 64 % 2) g (omega (arith, s.0, s.1, s.2, s.3, s.4, s.5, s.6, s.7)))
      (bit_back (byte / 128 % 2) h (omega (arith, s.0, s.1, s.2, s.3, s.4, s.5, s.6, s.7)))

pack_chunk-IsByte :
    (a b c d e f g h : Bool) → pack_chunk 0 (a ∷ b ∷ c ∷ d ∷ e ∷ f ∷ g ∷ h ∷ []) < 256
unfolding pack_chunk
pack_chunk-IsByte a b c d e f g h =
    let s = bits_small a b c d e f g h in omega (arith, s.0, s.1, s.2, s.3, s.4, s.5, s.6, s.7)

-- A list of eight bits
of_eight :
    (P : List Bool → Type 0)
    → ((a b c d e f g h : Bool) → P (a ∷ b ∷ c ∷ d ∷ e ∷ f ∷ g ∷ h ∷ []))
    → (bs : List Bool) → length bs ≡ 8
    → P bs
of_eight P k [] z = absurd (omega (arith, z))
of_eight P k (a ∷ []) z = absurd (omega (arith, z))
of_eight P k (a ∷ b ∷ []) z = absurd (omega (arith, z))
of_eight P k (a ∷ b ∷ c ∷ []) z = absurd (omega (arith, z))
of_eight P k (a ∷ b ∷ c ∷ d ∷ []) z = absurd (omega (arith, z))
of_eight P k (a ∷ b ∷ c ∷ d ∷ e ∷ []) z = absurd (omega (arith, z))
of_eight P k (a ∷ b ∷ c ∷ d ∷ e ∷ f ∷ []) z = absurd (omega (arith, z))
of_eight P k (a ∷ b ∷ c ∷ d ∷ e ∷ f ∷ g ∷ []) z = absurd (omega (arith, z))
of_eight P k (a ∷ b ∷ c ∷ d ∷ e ∷ f ∷ g ∷ h ∷ []) z = k a b c d e f g h
of_eight P k (a ∷ b ∷ c ∷ d ∷ e ∷ f ∷ g ∷ h ∷ i ∷ bs) z = absurd (omega (arith, z))

take_eight : (xs ys : List Bool) → length xs ≡ 8 → take 8 (xs ++ ys) ≡ xs
take_eight xs ys e = ap (λ n. take n (xs ++ ys)) (sym e) ∙ take_front xs ys

drop_eight : (xs ys : List Bool) → length xs ≡ 8 → drop 8 (xs ++ ys) ≡ ys
drop_eight xs ys e = ap (λ n. drop n (xs ++ ys)) (sym e) ∙ drop_front xs ys

pub length-falses : (n : ℕ) → length (replicate n false) ≡ n
length-falses zero = refl
length-falses (suc n) = ap suc (length-falses n)

falses_add : (m n : ℕ) → replicate (m + n) false ≡ replicate m false ++ replicate n false
falses_add zero n = ap (λ k. replicate k false) (omega arith)
falses_add (suc m) n =
    let e : suc m + n ≡ suc (m + n) = omega arith in
    ap (λ k. replicate k false) e ∙ ap (λ xs. false ∷ xs) (falses_add m n)

-- Eight bits in front
pack-front :
    (n : ℕ) (xs ys : List Bool)
    → length xs ≡ 8
    → pack (suc n) (xs ++ ys) ≡ pack_chunk 0 xs ∷ pack n ys
unfolding pack
pack-front n xs ys e = rw (take_eight xs ys e, drop_eight xs ys e) refl

-- Whole bytes are unpacked.
pub unpack-pack : (n : ℕ) (bits : List Bool) → length bits ≡ 8 * n → unpack (pack n bits) ≡ bits
unfolding pack unpack
unpack-pack zero [] e = refl
unpack-pack zero (b ∷ bits) e = absurd (omega (arith, e))
unpack-pack (suc n) bits e =
    let eight_long : length (take 8 bits) ≡ 8 = omega (arith, e, length-take 8 bits) in
    ap (λ xs. xs ++ unpack (pack n (drop 8 bits)))
      (of_eight (λ xs. unpack_byte 8 0 (pack_chunk 0 xs) ≡ xs) unpack_byte-eight (take 8 bits)
        eight_long)
    ∙ ap (λ xs. take 8 bits ++ xs)
        (unpack-pack n (drop 8 bits) (omega (arith, e, length-drop 8 bits)))
    ∙ take-append-drop 8 bits

pub pack-IsByte :
    (n : ℕ) (bits : List Bool) → length bits ≡ 8 * n → All (λ b. b < 256) (pack n bits)
unfolding pack
pack-IsByte zero bits e = tt
pack-IsByte (suc n) bits e = (
  of_eight (λ xs. pack_chunk 0 xs < 256) pack_chunk-IsByte (take 8 bits)
      (omega (arith, e, length-take 8 bits)),
  pack-IsByte n (drop 8 bits) (omega (arith, e, length-drop 8 bits)),
)

pub length-pack : (n : ℕ) (bits : List Bool) → length (pack n bits) ≡ n
unfolding pack
length-pack zero bits = refl
length-pack (suc n) bits = ap suc (length-pack n (drop 8 bits))

take_short : (n : ℕ) (xs : List Bool) → length xs ≤ n → (take n xs ≡ xs) × (drop n xs ≡ [])
take_short zero [] h = (refl, refl)
take_short zero (x ∷ xs) h = absurd (omega arith)
take_short (suc n) [] h = (refl, refl)
take_short (suc n) (x ∷ xs) h =
    let (t, d) = take_short n xs (omega arith) in (ap (λ ys. x ∷ ys) t, d)

-- Padding packs as nothing.
pub pack-padded :
    (n k : ℕ) (bits : List Bool)
    → length bits + k ≡ 8 * n
    → pack n (bits ++ replicate k false) ≡ pack n bits
unfolding pack
pack-padded zero k bits e = refl
pack-padded (suc n) k bits e = elim (Bool-cases (leb 8 (length bits))) [
  | inl long ↦
      let eight_long : length (take 8 bits) ≡ 8 = omega (tests, length-take 8 bits) in
      let split : bits ++ replicate k false ≡ take 8 bits ++ (drop 8 bits ++ replicate k false) =
        ap (λ xs. xs ++ replicate k false) (sym (take-append-drop 8 bits))
        ∙ append_assoc (take 8 bits) (drop 8 bits) (replicate k false) in
      ap (pack (suc n)) split
      ∙ pack-front n (take 8 bits) (drop 8 bits ++ replicate k false) eight_long
      ∙ ap (λ xs. pack_chunk 0 (take 8 bits) ∷ xs)
          (pack-padded n k (drop 8 bits) (omega (tests, e, length-drop 8 bits)))
  | inr short ↦
      let m = 8 - length bits in
      let room : k ≡ m + 8 * n = omega (tests, e) in
      let whole : length (bits ++ replicate m false) ≡ 8 =
        omega (tests, length-append bits (replicate m false), length-falses m) in
      let split : bits ++ replicate k false
          ≡ (bits ++ replicate m false) ++ replicate (8 * n) false =
        ap (λ j. bits ++ replicate j false) room
        ∙ ap (λ xs. bits ++ xs) (falses_add m (8 * n))
        ∙ sym (append_assoc bits (replicate m false) (replicate (8 * n) false)) in
      let few = take_short 8 bits (omega tests) in
      ap (pack (suc n)) split
      ∙ pack-front n (bits ++ replicate m false) (replicate (8 * n) false) whole
      ∙ ap (λ b. b ∷ pack n (replicate (8 * n) false)) (pack_chunk-padded 0 m bits)
      ∙ ap (λ xs. pack_chunk 0 bits ∷ xs) (pack-padded n (8 * n) [] (omega arith))
      ∙ rw (few.0, few.1) refl
]
