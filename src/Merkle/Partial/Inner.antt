-- ===== src/Merkle/Partial/Inner.antt =====
-- A node whose children are visited: both, or the only one.
use rust_litecoin.Prelude.{
  ℕ, suc, ◌+◌, ◌-◌, ◌*◌, ◌^◌, ◌≤◌, ◌≡◌, refl, sym, ap, ◌∙◌, Bool, true, false, List, [], ◌∷◌, ◌++◌,
  length, drop, arith, append_assoc, append-nil, length-append, length-take, length-drop, ltb,
  ltb→lt, ltb→ge, ge→ltb, Bool-cases, inl, inr,
}
use Prim.Native.Nat.{min}
use native.Mathlib.Nat.{pow-suc}
use rust_litecoin.Wire.Codec.{ok}
use rust_litecoin.Merkle.{index, parent_hash}
use rust_litecoin.Merkle.Root.{level_at}
use rust_litecoin.Merkle.Partial.Heights.{
  level_at-suc, in_level, index-copy_level, index-copy_level-last,
}
use rust_litecoin.Merkle.Partial.{
  extracted, calc_tree_width, calc_hash, traverse_and_build, same_hash, join, traverse_and_extract,
}
use rust_litecoin.Merkle.Partial.Width.{power_positive, first_left, first_right}
use rust_litecoin.Merkle.Partial.Leaves.{
  any_true, matched_txids, matched_indexes, leaves, leaves_add, leaves_past, any_match_lem,
  matched_txids-append, matched_indexes-append,
}
use rust_litecoin.Merkle.Partial.Node.{Node, below, txids_below, state_at, use_bit-middle}

-- The leaves below a node are those below its children.
pub split_leaves :
    {A : Type 0} (xs : List A) (h pos : ℕ)
    → leaves (pos * 2 ^ suc h) (2 ^ suc h) xs
      ≡ leaves (pos * 2 * 2 ^ h) (2 ^ h) xs ++ leaves ((pos * 2 + 1) * 2 ^ h) (2 ^ h) xs
split_leaves xs h pos =
    let size : 2 ^ suc h ≡ 2 ^ h + 2 ^ h = omega (arith, pow-suc 2 h) in
    let left = first_left pos h in
    let right = first_right pos h in
    ap (λ k. leaves (pos * 2 ^ suc h) k xs) size
    ∙ leaves_add xs (pos * 2 ^ suc h) (2 ^ h) (2 ^ h)
    ∙ ap (λ p. leaves p (2 ^ h) xs ++ leaves (pos * 2 ^ suc h + 2 ^ h) (2 ^ h) xs) (sym left)
    ∙ ap (λ p. leaves (pos * 2 * 2 ^ h) (2 ^ h) xs ++ leaves p (2 ^ h) xs) (sym right)

length-leaves :
    {A : Type 0} (p k : ℕ) (xs : List A) → length (leaves p k xs) ≡ min k (length xs - p)
length-leaves p k xs = length-take k (drop p xs) ∙ ap (min k) (length-drop p xs)

module _ (sha256d : List ℕ → List ℕ) (txids : List (List ℕ)) (matches : List Bool) where
  split_matched_txids :
      (h pos : ℕ)
      → length txids ≡ length matches
      → matched_txids
          (txids_below sha256d txids matches (suc h) pos)
          (below sha256d txids matches (suc h) pos)
        ≡ matched_txids
            (txids_below sha256d txids matches h (pos * 2))
            (below sha256d txids matches h (pos * 2))
          ++ matched_txids
              (txids_below sha256d txids matches h (pos * 2 + 1))
              (below sha256d txids matches h (pos * 2 + 1))
  split_matched_txids h pos e =
      let same : length (leaves (pos * 2 * 2 ^ h) (2 ^ h) txids)
          ≡ length (leaves (pos * 2 * 2 ^ h) (2 ^ h) matches) =
        length-leaves (pos * 2 * 2 ^ h) (2 ^ h) txids
        ∙ ap (λ n. min (2 ^ h) (n - pos * 2 * 2 ^ h)) e
        ∙ sym (length-leaves (pos * 2 * 2 ^ h) (2 ^ h) matches) in
      rw (split_leaves txids h pos, split_leaves matches h pos)
        (matched_txids-append (leaves (pos * 2 * 2 ^ h) (2 ^ h) txids)
          (leaves ((pos * 2 + 1) * 2 ^ h) (2 ^ h) txids) (leaves (pos * 2 * 2 ^ h) (2 ^ h) matches)
          (leaves ((pos * 2 + 1) * 2 ^ h) (2 ^ h) matches) same)

  right_indexes :
      (h pos : ℕ)
      → matched_indexes
          (pos * 2 ^ suc h + length (below sha256d txids matches h (pos * 2)))
          (below sha256d txids matches h (pos * 2 + 1))
        ≡ matched_indexes ((pos * 2 + 1) * 2 ^ h) (below sha256d txids matches h (pos * 2 + 1))
  right_indexes h pos =
      let start = (pos * 2 + 1) * 2 ^ h in
      elim (Bool-cases (ltb start (length matches))) [
        | inl there ↦
            let full : length (below sha256d txids matches h (pos * 2)) ≡ 2 ^ h = omega (
              arith,
              length-leaves (pos * 2 * 2 ^ h) (2 ^ h) matches,
              first_left pos h,
              first_right pos h,
              ltb→lt start (length matches) there,
            ) in
            ap (λ p. matched_indexes p (below sha256d txids matches h (pos * 2 + 1)))
              (omega (arith, full, first_right pos h))
        | inr past ↦
            rw (leaves_past matches start (2 ^ h) (ltb→ge start (length matches) past)) refl
      ]

  split_matched_indexes :
      (h pos : ℕ)
      → matched_indexes (pos * 2 ^ suc h) (below sha256d txids matches (suc h) pos)
        ≡ matched_indexes (pos * 2 * 2 ^ h) (below sha256d txids matches h (pos * 2))
          ++ matched_indexes ((pos * 2 + 1) * 2 ^ h) (below sha256d txids matches h (pos * 2 + 1))
  split_matched_indexes h pos =
      let left = below sha256d txids matches h (pos * 2) in
      let right = below sha256d txids matches h (pos * 2 + 1) in
      rw (split_leaves matches h pos) (
        matched_indexes-append (pos * 2 ^ suc h) left right
        ∙ ap (λ p. matched_indexes p left ++ matched_indexes (pos * 2 ^ suc h + length left) right)
            (sym (first_left pos h))
        ∙ ap (λ xs. matched_indexes (pos * 2 * 2 ^ h) left ++ xs) (right_indexes h pos))

  state_eq :
      (u u' v v' : ℕ) (ms ms' : List (List ℕ)) (is is' : List ℕ)
      → u ≡ u'
      → v ≡ v'
      → ms ≡ ms'
      → is ≡ is'
      → state_at u v ms is ≡ state_at u' v' ms' is'
  state_eq u u' v v' ms ms' is is' a b c d = rw (a, b, c, d) refl

  abbrev pub left_txids : ℕ → ℕ → List (List ℕ)
  left_txids h pos =
      matched_txids (txids_below sha256d txids matches h (pos * 2))
        (below sha256d txids matches h (pos * 2))

  abbrev pub right_txids : ℕ → ℕ → List (List ℕ)
  right_txids h pos =
      matched_txids (txids_below sha256d txids matches h (pos * 2 + 1))
        (below sha256d txids matches h (pos * 2 + 1))

  abbrev pub left_indexes : ℕ → ℕ → List ℕ
  left_indexes h pos = matched_indexes (pos * 2 * 2 ^ h) (below sha256d txids matches h (pos * 2))

  abbrev pub right_indexes_of : ℕ → ℕ → List ℕ
  right_indexes_of h pos =
      matched_indexes ((pos * 2 + 1) * 2 ^ h) (below sha256d txids matches h (pos * 2 + 1))

  -- The hash of a node with both children
  pub calc_two :
      (h pos : ℕ) (l r : List ℕ)
      → calc_hash sha256d (length txids) txids h (pos * 2) ≡ ok l
      → calc_hash sha256d (length txids) txids h (pos * 2 + 1) ≡ ok r
      → ltb (pos * 2 + 1) (calc_tree_width (length txids) h) ≡ true
      → calc_hash sha256d (length txids) txids (suc h) pos ≡ ok (parent_hash sha256d l r)
  unfolding calc_hash
  calc_two h pos l r left right both = rw (left, both, right) refl

  pub calc_one :
      (h pos : ℕ) (l : List ℕ)
      → calc_hash sha256d (length txids) txids h (pos * 2) ≡ ok l
      → ltb (pos * 2 + 1) (calc_tree_width (length txids) h) ≡ false
      → calc_hash sha256d (length txids) txids (suc h) pos ≡ ok (parent_hash sha256d l l)
  unfolding calc_hash
  calc_one h pos l left one = rw (left, one) refl

  pub level_two :
      (h pos : ℕ) (l r : List ℕ)
      → index (level_at sha256d h txids) (pos * 2) ≡ ok l
      → index (level_at sha256d h txids) (pos * 2 + 1) ≡ ok r
      → index (level_at sha256d (suc h) txids) pos ≡ ok (parent_hash sha256d l r)
  level_two h pos l r left right =
      ap (λ xs. index xs pos) (level_at-suc sha256d h txids)
      ∙ index-copy_level sha256d (level_at sha256d h txids) pos l r left right

  pub level_one :
      (h pos : ℕ) (l : List ℕ)
      → index (level_at sha256d h txids) (pos * 2) ≡ ok l
      → length txids ≤ (pos * 2 + 1) * 2 ^ h
      → index (level_at sha256d (suc h) txids) pos ≡ ok (parent_hash sha256d l l)
  level_one h pos l left past =
      let last =
        in_level sha256d h (pos * 2 + 1) txids
        ∙ ge→ltb ((pos * 2 + 1) * 2 ^ h) (length txids) past in
      ap (λ xs. index xs pos) (level_at-suc sha256d h txids)
      ∙ index-copy_level-last sha256d (level_at sha256d h txids) pos l left
          (ltb→ge (pos * 2 + 1) (length (level_at sha256d h txids)) last)

  -- A node with a match below it and both children
  pub two_children :
      (h pos : ℕ) (l : Node sha256d txids matches h (pos * 2))
      (r : Node sha256d txids matches h (pos * 2 + 1))
      → length txids ≡ length matches
      → ltb (pos * 2 + 1) (calc_tree_width (length txids) h) ≡ true
      → same_hash (r.hash) (l.hash) ≡ false
      → any_true (below sha256d txids matches (suc h) pos) ≡ true
      → Node sha256d txids matches (suc h) pos
  unfolding traverse_and_build traverse_and_extract join
  two_children h pos l r e both differ found = record {
    hash = parent_hash sha256d (l.hash) (r.hash);
    bits = true ∷ (l.bits ++ r.bits);
    hashes = l.hashes ++ r.hashes;
    calc = calc_two h pos (l.hash) (r.hash) (l.calc) (r.calc) both;
    level = level_two h pos (l.hash) (r.hash) (l.level) (r.level);
    bits_size =
        omega (arith, l.bits_size, r.bits_size, length-append (l.bits) (r.bits), pow-suc 2 h);
    hashes_fit = omega (
      arith,
      l.hashes_fit,
      r.hashes_fit,
      length-append (l.bits) (r.bits),
      length-append (l.hashes) (r.hashes),
    );
    hashes_size =
        omega
          (arith, l.hashes_size, r.hashes_size, length-append (l.hashes) (r.hashes), pow-suc 2 h);
    hashes_rest = omega (
      arith,
      l.hashes_size,
      r.hashes_rest,
      length-append (l.hashes) (r.hashes),
      first_right pos h,
    );
    build = λ bs hs.
        rw
          (
            any_match_lem (length txids) matches (2 ^ suc h) (pos * 2 ^ suc h) e,
            found,
            l.build (bs ++ true ∷ []) hs,
            both,
            r.build ((bs ++ true ∷ []) ++ l.bits) (hs ++ l.hashes),
          )
          (simp append_assoc);
    extract = λ all before after all_hashes front back u v ms is all_e hashes_e u_e v_e.
        let left =
          l.extract all (before ++ true ∷ []) (r.bits ++ after) all_hashes front (r.hashes ++ back)
            (u + 1) v ms is (all_e ∙ simp append_assoc) (hashes_e ∙ simp append_assoc)
            (omega (arith, u_e, length-append before (true ∷ []))) v_e in
        let right =
          r.extract all ((before ++ true ∷ []) ++ l.bits) after all_hashes (front ++ l.hashes) back
            (u + 1 + length (l.bits)) (v + length (l.hashes)) (ms ++ left_txids h pos)
            (is ++ left_indexes h pos) (all_e ∙ simp append_assoc) (hashes_e ∙ simp append_assoc)
            (omega (
              arith,
              u_e,
              length-append before (true ∷ []),
              length-append (before ++ true ∷ []) (l.bits),
            ))
            (omega (arith, v_e, length-append front (l.hashes))) in
        rw
          (
            use_bit-middle all before ((l.bits ++ r.bits) ++ after) true u v ms is all_e u_e,
            left,
            both,
            right,
            differ,
          )
          (ap (λ state. extracted (parent_hash sha256d (l.hash) (r.hash), state))
            (state_eq (u + 1 + length (l.bits) + length (r.bits))
              (u + length (true ∷ (l.bits ++ r.bits))) (v + length (l.hashes) + length (r.hashes))
              (v + length (l.hashes ++ r.hashes)) ((ms ++ left_txids h pos) ++ right_txids h pos)
              (ms
                ++ matched_txids (txids_below sha256d txids matches (suc h) pos)
                    (below sha256d txids matches (suc h) pos))
              ((is ++ left_indexes h pos) ++ right_indexes_of h pos)
              (is ++ matched_indexes (pos * 2 ^ suc h) (below sha256d txids matches (suc h) pos))
              (omega (arith, length-append (l.bits) (r.bits)))
              (omega (arith, length-append (l.hashes) (r.hashes)))
              (append_assoc ms (left_txids h pos) (right_txids h pos)
                ∙ ap (λ xs. ms ++ xs) (sym (split_matched_txids h pos e)))
              (append_assoc is (left_indexes h pos) (right_indexes_of h pos)
                ∙ ap (λ xs. is ++ xs) (sym (split_matched_indexes h pos)))));
  }

  -- A node with a match below it and one child
  pub one_child :
      (h pos : ℕ) (l : Node sha256d txids matches h (pos * 2))
      → length txids ≡ length matches
      → ltb (pos * 2 + 1) (calc_tree_width (length txids) h) ≡ false
      → length txids ≤ (pos * 2 + 1) * 2 ^ h
      → any_true (below sha256d txids matches (suc h) pos) ≡ true
      → Node sha256d txids matches (suc h) pos
  unfolding traverse_and_build traverse_and_extract
  one_child h pos l e one past found = record {
    hash = parent_hash sha256d (l.hash) (l.hash);
    bits = true ∷ l.bits;
    hashes = l.hashes;
    calc = calc_one h pos (l.hash) (l.calc) one;
    level = level_one h pos (l.hash) (l.level) past;
    bits_size = omega (arith, l.bits_size, pow-suc 2 h, power_positive h);
    hashes_fit = omega (arith, l.hashes_fit);
    hashes_size = omega (arith, l.hashes_size, pow-suc 2 h);
    hashes_rest = omega (arith, l.hashes_rest, first_left pos h);
    build = λ bs hs.
        rw
          (
            any_match_lem (length txids) matches (2 ^ suc h) (pos * 2 ^ suc h) e,
            found,
            l.build (bs ++ true ∷ []) hs,
            one,
          )
          (simp append_assoc);
    extract = λ all before after all_hashes front back u v ms is all_e hashes_e u_e v_e.
        let left =
          l.extract all (before ++ true ∷ []) after all_hashes front back (u + 1) v ms is
            (all_e ∙ simp append_assoc) hashes_e
            (omega (arith, u_e, length-append before (true ∷ []))) v_e in
        let no_txids : right_txids h pos ≡ [] =
          ap (λ ts. matched_txids ts (below sha256d txids matches h (pos * 2 + 1)))
            (leaves_past txids ((pos * 2 + 1) * 2 ^ h) (2 ^ h) past) in
        let no_indexes : right_indexes_of h pos ≡ [] =
          ap (matched_indexes ((pos * 2 + 1) * 2 ^ h))
            (leaves_past matches ((pos * 2 + 1) * 2 ^ h) (2 ^ h) (omega (arith, past, e))) in
        rw (use_bit-middle all before (l.bits ++ after) true u v ms is all_e u_e, left, one)
          (ap (λ state. extracted (parent_hash sha256d (l.hash) (l.hash), state))
            (state_eq (u + 1 + length (l.bits)) (u + length (true ∷ l.bits)) (v + length (l.hashes))
              (v + length (l.hashes)) (ms ++ left_txids h pos)
              (ms
                ++ matched_txids (txids_below sha256d txids matches (suc h) pos)
                    (below sha256d txids matches (suc h) pos))
              (is ++ left_indexes h pos)
              (is ++ matched_indexes (pos * 2 ^ suc h) (below sha256d txids matches (suc h) pos))
              (omega arith) refl
              (ap (λ xs. ms ++ xs)
                (sym (append-nil (left_txids h pos))
                  ∙ ap (λ xs. left_txids h pos ++ xs) (sym no_txids)
                  ∙ sym (split_matched_txids h pos e)))
              (ap (λ xs. is ++ xs)
                (sym (append-nil (left_indexes h pos))
                  ∙ ap (λ xs. left_indexes h pos ++ xs) (sym no_indexes)
                  ∙ sym (split_matched_indexes h pos)))));
  }
