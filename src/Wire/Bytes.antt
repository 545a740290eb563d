-- ===== src/Wire/Bytes.antt =====
-- Byte vectors of litecoin/src/consensus/encode.rs: `Vec<u8>` and the chunked reading behind it.
use rust_litecoin.Prelude.{
  ℕ, zero, suc, ◌+◌, ◌-◌, ◌*◌, ◌≤◌, ◌<◌, ◌≡◌, ◌≢◌, refl, List, [], ◌++◌, length, ltb, ◌==◌,
  if◌then◌else◌, arith, tests, drop, length-drop, take_add, drop_add, inl, inr, Bool-cases, ne→==,
  append-nil, append_assoc, ap, sym, ◌∙◌,
}
use Prim.Native.Nat.{min}
use rust_litecoin.Wire.Codec.{panic, Read, pure, throw, ◌>>=◌, read_exact, Write, ◌⊕◌, emit}
use rust_litecoin.Wire.RoundTrip.{
  RoundTrip, RoundTrip->>=, Sized, Sized-⊕, read_exact_front, read_exact_short, read_exact_enough,
}
use rust_litecoin.Wire.Monad.{>>=-cong, >>=-assoc, >>=-pure}
use rust_litecoin.Wire.VarInt

-- The loop of `read_bytes_from_finite_reader`, from its `len` and the bytes `ret` so far. A round
-- takes one byte at least, so `len` rounds are enough (`read_bytes-read_exact`).
read_chunks : ℕ → ℕ → ℕ → List ℕ → Read (List ℕ)
read_chunks fuel chunk zero ret = pure ret
read_chunks zero chunk (suc len) ret = throw panic
read_chunks (suc fuel) chunk (suc len) ret =
    let size = min (suc len) chunk in
    read_exact size >>= λ more. read_chunks fuel chunk (suc len - size) (ret ++ more)

-- `read_bytes_from_finite_reader` with `opts.len` and `opts.chunk_size`
unfoldable pub read_bytes_from_finite_reader : ℕ → ℕ → Read (List ℕ)
unfolding read_chunks
read_bytes_from_finite_reader len chunk =
    if chunk == 0 then throw panic else read_chunks len chunk len []

-- `consensus_encode_with_size`, which is the encoder of `Vec<u8>`
unfoldable pub encode_with_size : List ℕ → Write
unfolding VarInt.encode
encode_with_size bytes = VarInt.encode (length bytes) ⊕ emit bytes

-- `Vec<u8>::consensus_decode_from_finite_reader`
unfoldable pub decode_bytes : Read (List ℕ)
unfolding VarInt.decode read_bytes_from_finite_reader
decode_bytes = VarInt.decode >>= λ len. read_bytes_from_finite_reader len (128 * 1024)

-- Reading `m` bytes and then `k` more is reading `m + k` bytes, the failure included.
read_exact_add :
    (m k : ℕ) (s : List ℕ)
    → read_exact (m + k) s ≡ (read_exact m >>= λ a. read_exact k >>= λ b. pure (a ++ b)) s
read_exact_add m k s = elim (Bool-cases (ltb (length s) m)) [
  | inl short ↦
      rw (read_exact_short m s (omega tests), read_exact_short (m + k) s (omega tests), ◌>>=◌)
  | inr enough ↦
      rw (read_exact_enough m s (omega tests), ◌>>=◌)
        (elim (Bool-cases (ltb (length s) (m + k))) [
          | inl short ↦ rw (
            read_exact_short (m + k) s (omega tests),
            read_exact_short k (drop m s) (omega (tests, length-drop m s)),
            ◌>>=◌,
          )
          | inr more ↦ rw (
            read_exact_enough (m + k) s (omega tests),
            read_exact_enough k (drop m s) (omega (tests, length-drop m s)),
            take_add m k s,
            drop_add m k s,
            ◌>>=◌,
          )
        ])
]

-- One round and the rest of the rounds.
chunks-split :
    (size left fuel chunk : ℕ) (ret s : List ℕ)
    → ((a r : List ℕ)
        → read_chunks fuel chunk left (ret ++ a) r
          ≡ (read_exact left >>= λ bs. pure ((ret ++ a) ++ bs)) r)
    → (read_exact size >>= λ more. read_chunks fuel chunk left (ret ++ more)) s
      ≡ (read_exact (size + left) >>= λ bs. pure (ret ++ bs)) s
chunks-split size left fuel chunk ret s ih =
    >>=-cong (read_exact size) _ _ s (λ a r.
      ih a r
      ∙ >>=-cong (read_exact left) _ _ r (λ b t. rw (append_assoc ret a b))
      ∙ sym (>>=-assoc (read_exact left) (λ b. pure (a ++ b)) (λ bs. pure (ret ++ bs)) r))
    ∙ sym (>>=-assoc (read_exact size) _ (λ bs. pure (ret ++ bs)) s)
    ∙ rw (read_exact_add size left s, ◌>>=◌)

read_chunks-read_exact :
    (fuel chunk len : ℕ) (ret s : List ℕ)
    → 0 < chunk
    → len ≤ fuel
    → read_chunks fuel chunk len ret s ≡ (read_exact len >>= λ bs. pure (ret ++ bs)) s
unfolding read_chunks
read_chunks-read_exact fuel chunk zero ret s pos enough =
    rw (read_exact_enough 0 s (omega arith), append-nil ret, ◌>>=◌)
read_chunks-read_exact zero chunk (suc len) ret s pos enough = absurd (omega arith)
read_chunks-read_exact (suc fuel) chunk (suc len) ret s pos enough =
    let size = min (suc len) chunk in
    let left = suc len - size in
    let e : suc len ≡ size + left = omega arith in
    chunks-split size left fuel chunk ret s
      (λ a r. read_chunks-read_exact fuel chunk left (ret ++ a) r pos (omega arith))
    ∙ ap (λ n. (read_exact n >>= λ bs. pure (ret ++ bs)) s) (sym e)

-- Reading in chunks of any positive size is one `read_exact`, on every input: it never runs out
-- of rounds, and it fails exactly when fewer than `len` bytes are left.
pub read_bytes-read_exact :
    (len chunk : ℕ) (s : List ℕ)
    → chunk ≢ 0
    → read_bytes_from_finite_reader len chunk s ≡ read_exact len s
unfolding read_bytes_from_finite_reader
read_bytes-read_exact len chunk s pos = rw (ne→== chunk 0 pos) (
    read_chunks-read_exact len chunk len [] s (omega arith) (omega arith)
    ∙ >>=-pure (read_exact len) s)

-- A byte vector whose length is a u64 is written, and reads back with whatever follows it left
-- over, though it is read in chunks.
pub RoundTrip-bytes :
    (bytes : List ℕ)
    → VarInt.IsU64 (length bytes)
    → RoundTrip (encode_with_size bytes) decode_bytes bytes
unfolding encode_with_size decode_bytes
RoundTrip-bytes bytes h =
    RoundTrip->>= (VarInt.encode (length bytes)) (emit bytes) VarInt.decode
      (λ len. read_bytes_from_finite_reader len (128 * 1024)) (length bytes) bytes
      (VarInt.RoundTrip-var_int (length bytes) h)
      (
        bytes,
        refl,
        λ rest.
            read_bytes-read_exact (length bytes) (128 * 1024) (bytes ++ rest) (omega arith)
            ∙ read_exact_front bytes rest,
      )

-- A byte vector takes the bytes of its count and its own.
pub Sized-bytes :
    (bytes : List ℕ) → Sized (encode_with_size bytes) (VarInt.size (length bytes) + length bytes)
unfolding encode_with_size
Sized-bytes bytes =
    Sized-⊕ _ (emit bytes) _ (length bytes) (VarInt.encode-size (length bytes)) (bytes, refl, refl)
