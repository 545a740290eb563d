-- ===== src/Wire/Vectors.antt =====
-- `impl_vec!` of litecoin/src/consensus/encode.rs: a count and that many values. `with_capacity`
-- only reserves memory, and is left out.
use rust_litecoin.Prelude.{ℕ, zero, suc, ◌+◌, ◌*◌, ◌≡◌, refl, List, [], ◌∷◌, length, All, ap, arith}
use mathlib.Core.Path.{subst}
use mathlib.Core.List.{map}
use rust_litecoin.Wire.Codec.{Read, pure, ◌>>=◌, Write, ◌⊕◌, emit}
use rust_litecoin.Wire.RoundTrip.{
  RoundTrip, RoundTrip->>=, RoundTrip-then, RoundTrip-pure, Sized, Sized-⊕,
}
use rust_litecoin.Wire.VarInt

module _ {A : Type 0} where
  -- `for c in self.iter() { len += c.consensus_encode(w)?; }`
  unfoldable pub encode_all : (A → Write) → List A → Write
  encode_all item [] = emit []
  encode_all item (x ∷ xs) = item x ⊕ encode_all item xs

  -- `for _ in 0..len { ret.push(decode(r)?); }`
  unfoldable pub decode_all : Read A → ℕ → Read (List A)
  decode_all item zero = pure []
  decode_all item (suc n) = item >>= λ x. decode_all item n >>= λ xs. pure (x ∷ xs)

  unfoldable pub encode_vec : (A → Write) → List A → Write
  unfolding encode_all VarInt.encode
  encode_vec item xs = VarInt.encode (length xs) ⊕ encode_all item xs

  unfoldable pub decode_vec : Read A → Read (List A)
  unfolding decode_all VarInt.decode
  decode_vec item = VarInt.decode >>= λ len. decode_all item len

module _ {A B : Type 0} (g : A → B) (item : A → Write) (read : Read B) where
  pub RoundTrip-each :
      (xs : List A)
      → All (λ x. RoundTrip (item x) read (g x)) xs
      → RoundTrip (encode_all item xs) (decode_all read (length xs)) (map g xs)
  unfolding encode_all decode_all
  RoundTrip-each [] h = RoundTrip-pure []
  RoundTrip-each (x ∷ xs) (h, t) =
      RoundTrip->>= (item x) (encode_all item xs) read
        (λ y. decode_all read (length xs) >>= λ ys. pure (y ∷ ys)) (g x) (g x ∷ map g xs) h
        (RoundTrip-then _ (decode_all read (length xs)) _ (map g xs) (g x ∷ map g xs)
          (RoundTrip-each xs t) (λ s. refl))

  -- A vector reads back as what its values read back as.
  pub RoundTrip-vec_map :
      (xs : List A)
      → VarInt.IsU64 (length xs)
      → All (λ x. RoundTrip (item x) read (g x)) xs
      → RoundTrip (encode_vec item xs) (decode_vec read) (map g xs)
  unfolding encode_vec decode_vec
  RoundTrip-vec_map xs h all =
      RoundTrip->>= (VarInt.encode (length xs)) (encode_all item xs) VarInt.decode
        (λ len. decode_all read len) (length xs) (map g xs) (VarInt.RoundTrip-var_int (length xs) h)
        (RoundTrip-each xs all)

pub map_self : {A : Type 0} (xs : List A) → map (λ x. x) xs ≡ xs
map_self [] = refl
map_self (x ∷ xs) = ap (λ ys. x ∷ ys) (map_self xs)

-- A vector reads back when each of its values does.
pub RoundTrip-vec :
    {A : Type 0} (item : A → Write) (read : Read A) (xs : List A)
    → VarInt.IsU64 (length xs)
    → All (λ x. RoundTrip (item x) read x) xs
    → RoundTrip (encode_vec item xs) (decode_vec read) xs
RoundTrip-vec item read xs h all =
    subst (RoundTrip (encode_vec item xs) (decode_vec read)) (map_self xs)
      (RoundTrip-vec_map (λ x. x) item read xs h all)

abbrev pub sum_sizes : {A : Type 0} → (A → ℕ) → List A → ℕ
sum_sizes size [] = 0
sum_sizes size (x ∷ xs) = size x + sum_sizes size xs

pub sum_sizes_add :
    {A : Type 0} (f g : A → ℕ) (xs : List A)
    → sum_sizes (λ x. f x + g x) xs ≡ sum_sizes f xs + sum_sizes g xs
sum_sizes_add f g [] = refl
sum_sizes_add f g (x ∷ xs) = omega (arith, sum_sizes_add f g xs)

pub sum_sizes_const : {A : Type 0} (c : ℕ) (xs : List A) → sum_sizes (λ x. c) xs ≡ c * length xs
sum_sizes_const c [] = omega arith
sum_sizes_const c (x ∷ xs) = omega (arith, sum_sizes_const c xs)

module _ {A : Type 0} (item : A → Write) (size : A → ℕ) where
  pub Sized-each :
      (xs : List A)
      → All (λ x. Sized (item x) (size x)) xs
      → Sized (encode_all item xs) (sum_sizes size xs)
  unfolding encode_all
  Sized-each [] h = ([], refl, refl)
  Sized-each (x ∷ xs) (h, t) = Sized-⊕ (item x) _ (size x) _ h (Sized-each xs t)

  -- A vector takes the bytes of its count and those of its values.
  pub Sized-vec :
      (xs : List A)
      → All (λ x. Sized (item x) (size x)) xs
      → Sized (encode_vec item xs) (VarInt.size (length xs) + sum_sizes size xs)
  unfolding encode_vec
  Sized-vec xs h = Sized-⊕ _ _ _ _ (VarInt.encode-size (length xs)) (Sized-each xs h)
