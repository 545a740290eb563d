-- ===== src/Mweb/Parts.antt =====
-- The pieces that the codecs of litecoin/src/blockdata/mimblewimble.rs share: feature bits,
-- optional fields and public keys.
use rust_litecoin.Prelude.{
  ℕ, ◌≡◌, refl, bit_and, Bool, true, false, not, ◌==◌, if◌then◌else◌, Option, none, some, List, [],
  String,
}
use rust_litecoin.Wire.Codec.{
  err, parse_failed, io_other, Read, pure, throw, ◌>>=◌, read_exact, Write, emit,
}
use rust_litecoin.Wire.RoundTrip.{RoundTrip, RoundTrip-then, RoundTrip-pure, RoundTrip-array}
use rust_litecoin.Mweb.Types.{PublicKeys}

-- `features & bit != 0`
unfoldable pub has_bit : ℕ → ℕ → Bool
has_bit features bit = not (bit_and features bit == 0)

-- A field that its bit announces: `self.field.ok_or_else(|| missing(what))?`, then its encoder.
abbrev pub require : {A : Type 0} → Option A → String → (A → Write) → Write
require none what item = err (io_other what)
require (some a) what item = item a

abbrev pub encode_when : Bool → Write → Write
encode_when c w = if c then w else emit []

abbrev pub decode_some_when : {A : Type 0} → Bool → Read A → Read (Option A)
decode_some_when c p = if c then (p >>= λ x. pure (some x)) else pure none

abbrev pub decode_list_when : {A : Type 0} → Bool → Read (List A) → Read (List A)
decode_list_when c p = if c then p else pure []

-- The field is there exactly when its bit is set, and then it has the property.
abbrev pub Announced : {A : Type 0} → Bool → Option A → (A → Type 0) → Type 0
Announced true (some a) P = P a
Announced true none P = ⊥
Announced false (some a) P = ⊥
Announced false none P = Unit

module _ {A : Type 0} (what : String) (item : A → Write) (p : Read A) (P : A → Type 0) where
  pub RoundTrip-some_when :
      ((a : A) → P a → RoundTrip (item a) p a)
      → (c : Bool) (o : Option A) → Announced c o P
      → RoundTrip (encode_when c (require o what item)) (decode_some_when c p) o
  RoundTrip-some_when h true (some a) good =
      RoundTrip-then (item a) p (λ x. pure (some x)) a (some a) (h a good) (λ s. refl)
  RoundTrip-some_when h true none good = absurd good
  RoundTrip-some_when h false (some a) good = absurd good
  RoundTrip-some_when h false none good = RoundTrip-pure none

pub RoundTrip-list_when :
    {A : Type 0} (w : Write) (p : Read (List A)) (c : Bool) (xs : List A)
    → (c ≡ true → RoundTrip w p xs)
    → (c ≡ false → xs ≡ [])
    → RoundTrip (encode_when c w) (decode_list_when c p) xs
RoundTrip-list_when w p true xs h k = h refl
RoundTrip-list_when w p false xs h k = rw (k refl) (RoundTrip-pure [])

module _ (secp : PublicKeys) where
  open secp use {PublicKey, serialize, from_slice, length-serialize, from_slice-serialize}

  -- `PublicKey::from_slice(&bytes).map_err(…)?`
  abbrev pub key_of : String → List ℕ → Read PublicKey
  key_of what bytes = elim (from_slice bytes) [
    | some key ↦ pure key
    | none ↦ throw (parse_failed what)
  ]

  unfoldable pub read_key : String → Read PublicKey
  read_key what = read_exact 33 >>= key_of what

  pub RoundTrip-key :
      (what : String) (key : PublicKey) → RoundTrip (emit (serialize key)) (read_key what) key
  unfolding read_key
  RoundTrip-key what key =
      RoundTrip-then _ (read_exact 33) (key_of what) (serialize key) key
        (RoundTrip-array 33 (serialize key) (length-serialize key))
        (λ s. rw (from_slice-serialize key, key_of))
