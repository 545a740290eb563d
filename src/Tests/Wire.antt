-- ===== src/Tests/Wire.antt =====
-- The consensus encoding at concrete values.
use rust_litecoin.Prelude.{ℕ, ◌≡◌, ◌↔◌, List, [], ◌∷◌, ◌++◌, length, arith}
use rust_litecoin.Wire.Codec.{ok, read_exact}
use rust_litecoin.Wire.RoundTrip.{RoundTrip, read_exact_front}
use rust_litecoin.Wire.VarInt
use rust_litecoin.Wire.Bytes.{read_bytes_from_finite_reader, read_bytes-read_exact}
use rust_litecoin.Wire.Whole.{serialize, deserialize, deserialize-serialize}

RoundTrip-var_int_example : RoundTrip (VarInt.encode 0x10000) VarInt.decode 0x10000
RoundTrip-var_int_example = VarInt.RoundTrip-var_int 0x10000 (omega arith)

read_bytes-read_exact_example :
    read_bytes_from_finite_reader 5 2 (1 ∷ 2 ∷ 3 ∷ []) ≡ read_exact 5 (1 ∷ 2 ∷ 3 ∷ [])
read_bytes-read_exact_example = read_bytes-read_exact 5 2 (1 ∷ 2 ∷ 3 ∷ []) (omega arith)

abbrev three_bytes : List ℕ
three_bytes = 1 ∷ 2 ∷ 3 ∷ []

abbrev trailing : List ℕ
trailing = 7 ∷ []

deserialize-serialize_example :
    ((serialize (ok (three_bytes, 3)) ≡ ok three_bytes) ↔ (3 ≡ length three_bytes))
    × ((deserialize (read_exact 3) (three_bytes ++ trailing) ≡ ok three_bytes) ↔ (trailing ≡ []))
deserialize-serialize_example =
    deserialize-serialize three_bytes 3 (read_exact 3) three_bytes trailing
      (read_exact_front three_bytes)
