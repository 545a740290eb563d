-- ===== src/Wire/RoundTrip.antt =====
-- When an encoder and a decoder belong together, and how that carries over to what is built
-- from them.
use rust_litecoin.Prelude.{
  ℕ, ◌+◌, ◌-◌, ◌≤◌, ◌≡◌, refl, List, [], ◌++◌, append_assoc, Bool, true, false, arith, length, take,
  drop, length-append, take_front, drop_front, take_past, drop_past, take-append-drop,
  if◌then◌else◌, ge→ltb, lt→ltb, ◌<◌,
}
use native.Mathlib.Nat.{add_assoc}
use rust_litecoin.Wire.Codec.{
  ok, err, unexpected_eof, Read, pure, ◌>>=◌, read_exact, limited, Write, ◌⊕◌, emit,
}

-- The encoder succeeds, the length that it returns is the number of bytes that it writes, and the
-- decoder reads the value back from these bytes and leaves whatever follows them.
pub record RoundTrip {A : Type 0} (w : Write) (p : Read A) (a : A) : Type 0 where
  pub 0 as bytes : List ℕ
  pub 1 : w ≡ ok (bytes, length bytes)
  pub 2 : (rest : List ℕ) → p (bytes ++ rest) ≡ ok (a, rest)

-- An encoder that fails, or returns the number of bytes that it wrote.
abbrev pub Counts : Write → Type 0
Counts (ok (bs, n)) = n ≡ length bs
Counts (err e) = Unit

pub Counts-⊕ : (v w : Write) → Counts v → Counts w → Counts (v ⊕ w)
Counts-⊕ (ok (bs, n)) (ok (cs, m)) h k = rw (length-append, h, k)
Counts-⊕ (ok (bs, n)) (err e) h k = tt
Counts-⊕ (err e) w h k = tt

-- The encoder writes `n` bytes and returns `n`.
abbrev pub Sized : Write → ℕ → Type 0
Sized w n = (bs : List ℕ) × (w ≡ ok (bs, n)) × (length bs ≡ n)

pub Sized-⊕ : (v w : Write) (n m : ℕ) → Sized v n → Sized w m → Sized (v ⊕ w) (n + m)
Sized-⊕ v w n m (bs, e, h) (cs, f, k) = (bs ++ cs, rw (e, f), omega (arith, length-append bs cs))

pub Sized-if :
    (c : Bool) (v w : Write) (n m : ℕ)
    → Sized v n
    → Sized w m
    → Sized (if c then v else w) (if c then n else m)
Sized-if true v w n m h k = h
Sized-if false v w n m h k = k

pub ⊕-assoc : (u v w : Write) → (u ⊕ v) ⊕ w ≡ u ⊕ (v ⊕ w)
⊕-assoc (ok (xs, n)) (ok (bs, m)) (ok (cs, k)) = rw (append_assoc xs bs cs, add_assoc n m k)
⊕-assoc (ok u) (ok v) (err e) = refl
⊕-assoc (ok u) (err e) w = refl
⊕-assoc (err e) v w = refl

module _ {A B : Type 0} where
  pub RoundTrip->>= :
      (v w : Write) (p : Read A) (f : A → Read B) (a : A) (b : B)
      → RoundTrip v p a
      → RoundTrip w (f a) b
      → RoundTrip (v ⊕ w) (p >>= f) b
  RoundTrip->>= v w p f a b t u = (
    t.0 ++ u.0,
    rw (t.1, u.1, length-append),
    λ rest. rw (append_assoc, t.2 (u.0 ++ rest), ◌>>=◌) (u.2 rest),
  )

  -- What follows the last part reads no more bytes: it puts the value into place or tests it.
  pub RoundTrip-then :
      (w : Write) (p : Read A) (f : A → Read B) (a : A) (b : B)
      → RoundTrip w p a
      → ((s : List ℕ) → f a s ≡ ok (b, s))
      → RoundTrip w (p >>= f) b
  RoundTrip-then w p f a b t k = (t.0, t.1, λ rest. rw (t.2 rest, ◌>>=◌) (k rest))

-- A part that both sides leave out unless a test holds.
pub RoundTrip-if :
    {A : Type 0} (c : Bool) (v w : Write) (p q : Read A) (a : A)
    → (c ≡ true → RoundTrip v p a)
    → (c ≡ false → RoundTrip w q a)
    → RoundTrip (if c then v else w) (if c then p else q) a
RoundTrip-if true v w p q a h k = h refl
RoundTrip-if false v w p q a h k = k refl

-- Two forms that one decoder reads.
pub RoundTrip-either :
    {A : Type 0} (c : Bool) (v w : Write) (p : Read A) (a : A)
    → (c ≡ true → RoundTrip v p a)
    → (c ≡ false → RoundTrip w p a)
    → RoundTrip (if c then v else w) p a
RoundTrip-either true v w p a h k = h refl
RoundTrip-either false v w p a h k = k refl

pub RoundTrip-pure : {A : Type 0} (a : A) → RoundTrip (emit []) (pure a) a
RoundTrip-pure a = ([], refl, λ rest. refl)

pub read_exact_short : (n : ℕ) (s : List ℕ) → length s < n → read_exact n s ≡ err unexpected_eof
unfolding read_exact
read_exact_short n s h = rw (lt→ltb (length s) n h)

pub read_exact_enough :
    (n : ℕ) (s : List ℕ) → n ≤ length s → read_exact n s ≡ ok (take n s, drop n s)
unfolding read_exact
read_exact_enough n s h = rw (ge→ltb (length s) n h)

pub read_exact_front : (bs rest : List ℕ) → read_exact (length bs) (bs ++ rest) ≡ ok (bs, rest)
read_exact_front bs rest = rw (
  read_exact_enough (length bs) (bs ++ rest) (omega (arith, length-append bs rest)),
  take_front bs rest,
  drop_front bs rest,
)

-- A fixed number of bytes.
pub RoundTrip-array : (n : ℕ) (bs : List ℕ) → length bs ≡ n → RoundTrip (emit bs) (read_exact n) bs
RoundTrip-array n bs e = (bs, refl, λ rest. rw (← e) (read_exact_front bs rest))

-- A limit that the bytes meet is not felt.
limited_past :
    {A : Type 0} (k : ℕ) (p : Read A) (a : A) (bs rest : List ℕ)
    → ((more : List ℕ) → p (bs ++ more) ≡ ok (a, more))
    → limited (length bs + k) p (bs ++ rest) ≡ ok (a, rest)
unfolding limited
limited_past k p a bs rest h =
    rw (take_past bs rest k, h (take k rest), drop_past bs rest k, take-append-drop k rest, limited)

pub limited_fits :
    {A : Type 0} (n : ℕ) (p : Read A) (a : A) (bs rest : List ℕ)
    → length bs ≤ n
    → ((more : List ℕ) → p (bs ++ more) ≡ ok (a, more))
    → limited n p (bs ++ rest) ≡ ok (a, rest)
limited_fits n p a bs rest le h =
    let e : n ≡ length bs + (n - length bs) = omega arith in
    rw e (limited_past (n - length bs) p a bs rest h)

pub RoundTrip-limited :
    {A : Type 0} (n : ℕ) (w : Write) (p : Read A) (a : A) (t : RoundTrip w p a)
    → length t.0 ≤ n
    → RoundTrip w (limited n p) a
RoundTrip-limited n w p a t le = (t.0, t.1, λ rest. limited_fits n p a t.0 rest le t.2)
