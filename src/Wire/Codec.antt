-- ===== src/Wire/Codec.antt =====
-- Readers and writers of io/src/lib.rs as pure functions, and the errors of
-- litecoin/src/consensus/encode.rs. A reader is the list of the bytes that it has left; a byte is
-- a number below 256. A writer that does not fail by itself (`Vec<u8>`) is the list of the bytes
-- that were written, and an encoder returns them together with the length that the code counts.
use rust_litecoin.Prelude.{ℕ, ◌+◌, ◌<◌, List, ◌++◌, String, length, take, drop, ltb, if◌then◌else◌}

-- `encode::Error`. `unexpected_eof` and `io_other` are the two `Io` errors that can occur;
-- `panic` is no value of the source: it stands for an `expect` or an index that panics.
pub data Error : Type 0 where
  unexpected_eof : Error
  io_other : String → Error
  oversized_vector_allocation : ℕ → ℕ → Error
  invalid_checksum : List ℕ → List ℕ → Error
  non_minimal_var_int : Error
  parse_failed : String → Error
  unsupported_segwit_flag : ℕ → Error
  panic : Error

pub data Result {ℓ} (A : Type ℓ) : Type ℓ where
  ok : A → Result A
  err : Error → Result A

-- `?` on a result that is not a decoder's
infixl 5 ◌and_then◌
abbrev pub ◌and_then◌ : {A B : Type 0} → Result A → (A → Result B) → Result B
ok a and_then f = f a
err e and_then f = err e

-- A decoder takes the bytes that are left and hands on those that it did not use.
abbrev pub Read : Type 0 → Type 0
Read A = List ℕ → Result (A × List ℕ)

abbrev pub pure : {A : Type 0} → A → Read A
pure a s = ok (a, s)

abbrev pub throw : {A : Type 0} → Error → Read A
throw e s = err e

infixl 5 ◌>>=◌
abbrev pub ◌>>=◌ : {A B : Type 0} → Read A → (A → Read B) → Read B
◌>>=◌ m f s = elim (m s) [ ok (a, s') ↦ f a s' | err e ↦ err e ]

-- `Read::read_exact` into a buffer of `n` bytes.
unfoldable pub read_exact : ℕ → Read (List ℕ)
read_exact n s = if ltb (length s) n then err unexpected_eof else ok (take n s, drop n s)

-- `Read::take(limit)`: the reader sees at most `limit` bytes, and what it leaves stays.
unfoldable pub limited : {A : Type 0} → ℕ → Read A → Read A
limited n p s = elim (p (take n s)) [ ok (a, rest) ↦ ok (a, rest ++ drop n s) | err e ↦ err e ]

-- The bytes written and the length returned.
abbrev pub Write : Type 0
Write = Result (List ℕ × ℕ)

-- `len += a.consensus_encode(w)?; len += b.consensus_encode(w)?`
infixr 40 ◌⊕◌
abbrev pub ◌⊕◌ : Write → Write → Write
ok (bs, n) ⊕ ok (cs, m) = ok (bs ++ cs, n + m)
ok (bs, n) ⊕ err e = err e
err e ⊕ w = err e

-- `write_all` of a slice whose length is returned.
abbrev pub emit : List ℕ → Write
emit bs = ok (bs, length bs)

abbrev pub IsByte : ℕ → Type 0
IsByte b = b < 256

-- `max_vec_size` is `MAX_VEC_SIZE`.
abbrev pub max_vec_size : ℕ
max_vec_size = 4_000_000
