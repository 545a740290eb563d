-- ===== src/Witness/Buffer.antt =====
-- Byte vectors that are written in place. A range that does not lie in the vector panics.
use rust_litecoin.Prelude.{
  ℕ, zero, suc, ◌+◌, ◌-◌, ◌≡◌, refl, sym, ap, ◌∙◌, List, [], ◌∷◌, ◌++◌, length, take, drop,
  replicate, leb, if◌then◌else◌, arith, length-append, take_front, drop_front, take_past, drop_past,
  take_nil, append-nil, le→leb,
}
use rust_litecoin.Wire.Codec.{Result, ok, err, panic}
pub use rust_litecoin.Wire.Codec.{◌and_then◌}

-- `buf[pos..pos + bytes.len()].copy_from_slice(bytes)`
unfoldable pub write_at : ℕ → List ℕ → List ℕ → Result (List ℕ)
write_at pos bytes buf =
    if leb (pos + length bytes) (length buf)
    then ok (take pos buf ++ (bytes ++ drop (pos + length bytes) buf))
    else err panic

-- `buf[from..].rotate_right(k)`
unfoldable pub rotate_right_from : ℕ → ℕ → List ℕ → Result (List ℕ)
rotate_right_from from k buf =
    if leb (from + k) (length buf)
    then ok (
        take from buf
        ++ (drop (length buf - k) buf ++ take (length buf - k - from) (drop from buf)))
    else err panic

-- `buf.rotate_left(k)`
unfoldable pub rotate_left : ℕ → List ℕ → Result (List ℕ)
rotate_left k buf = if leb k (length buf) then ok (drop k buf ++ take k buf) else err panic

-- `buf.resize(n, 0)`
unfoldable pub resize : ℕ → List ℕ → List ℕ
resize n buf = take n buf ++ replicate (n - length buf) 0

pub length-replicate : (n a : ℕ) → length (replicate n a) ≡ n
length-replicate zero a = refl
length-replicate (suc n) a = ap suc (length-replicate n a)

pub replicate_add : (m n a : ℕ) → replicate (m + n) a ≡ replicate m a ++ replicate n a
replicate_add zero n a = ap (λ k. replicate k a) (omega arith)
replicate_add (suc m) n a =
    let e : suc m + n ≡ suc (m + n) = omega arith in
    ap (λ k. replicate k a) e ∙ ap (λ xs. a ∷ xs) (replicate_add m n a)

-- Cutting at the end of the front part, for a number that equals its length.
pub take_at : (n : ℕ) (xs ys : List ℕ) → n ≡ length xs → take n (xs ++ ys) ≡ xs
take_at n xs ys e = rw e (take_front xs ys)

pub drop_at : (n : ℕ) (xs ys : List ℕ) → n ≡ length xs → drop n (xs ++ ys) ≡ ys
drop_at n xs ys e = rw e (drop_front xs ys)

-- Bytes replace as many bytes between two parts.
pub write_at-middle :
    (pos : ℕ) (front old new back : List ℕ)
    → pos ≡ length front
    → length new ≡ length old
    → write_at pos new (front ++ (old ++ back)) ≡ ok (front ++ (new ++ back))
unfolding write_at
write_at-middle pos front old new back e f =
    let fits =
      le→leb (pos + length new) (length (front ++ (old ++ back)))
        (omega (arith, length-append front (old ++ back), length-append old back)) in
    let behind : drop (pos + length new) (front ++ (old ++ back)) ≡ back =
      ap (λ n. drop (n + length new) (front ++ (old ++ back))) e
      ∙ drop_past front (old ++ back) (length new)
      ∙ drop_at (length new) old back f in
    rw (fits, take_at pos front (old ++ back) e, behind)

-- The last part moves before the middle one.
pub rotate_right_from-middle :
    (from k : ℕ) (front mid back : List ℕ)
    → from ≡ length front
    → k ≡ length back
    → rotate_right_from from k (front ++ (mid ++ back)) ≡ ok (front ++ (back ++ mid))
unfolding rotate_right_from
rotate_right_from-middle from k front mid back e f =
    let buf = front ++ (mid ++ back) in
    let total : length buf ≡ length front + (length mid + length back) =
      omega (arith, length-append front (mid ++ back), length-append mid back) in
    let fits = le→leb (from + k) (length buf) (omega (arith, total, e, f)) in
    let tail : drop (length buf - k) buf ≡ back =
      ap (λ n. drop n buf) (omega (arith, total, f))
      ∙ drop_past front (mid ++ back) (length mid)
      ∙ drop_front mid back in
    let middle : take (length buf - k - from) (drop from buf) ≡ mid =
      ap (λ xs. take (length buf - k - from) xs) (drop_at from front (mid ++ back) e)
      ∙ take_at (length buf - k - from) mid back (omega (arith, total, e, f)) in
    rw (fits, take_at from front (mid ++ back) e, tail, middle) refl

pub resize_grow : (k : ℕ) (buf : List ℕ) → resize (length buf + k) buf ≡ buf ++ replicate k 0
unfolding resize
resize_grow k buf =
    let whole : take (length buf + k) buf ≡ buf =
      ap (λ xs. take (length buf + k) xs) (sym (append-nil buf))
      ∙ take_past buf [] k
      ∙ ap (λ xs. buf ++ xs) (take_nil k)
      ∙ append-nil buf in
    let more : length buf + k - length buf ≡ k = omega arith in rw (whole, more) refl
