-- ===== src/Merkle/Partial/Node.antt =====
-- What building and extracting do at one node of the tree, and the nodes without children to visit.
use rust_litecoin.Prelude.{
  ℕ, suc, ◌+◌, ◌*◌, ◌^◌, ◌≤◌, ◌<◌, ◌≡◌, refl, ap, ◌∙◌, Bool, true, false, ◌||◌, List, [], ◌∷◌, ◌++◌,
  some, length, get_elem?, get_elem?-middle, arith, append-nil,
}
use rust_litecoin.Wire.Codec.{ok}
use rust_litecoin.Merkle.{index}
use rust_litecoin.Merkle.Root.{level_at}
use rust_litecoin.Merkle.Partial.{
  Extraction, extracted, calc_hash, store, traverse_and_build, use_bit, use_hash, push_match,
  traverse_and_extract,
}
use rust_litecoin.Merkle.Partial.Width.{power_positive}
use rust_litecoin.Merkle.Partial.Leaves.{
  any_true, matched_txids, matched_indexes, leaves, leaves_one, any_match_lem, matched_txids-none,
  matched_indexes-none,
}

abbrev pub state_at : ℕ → ℕ → List (List ℕ) → List ℕ → Extraction
state_at u v ms is = record { bits_used = u; hash_used = v; matches = ms; indexes = is }

pub use_bit-middle :
    (all before after : List Bool) (b : Bool) (u v : ℕ) (ms : List (List ℕ)) (is : List ℕ)
    → all ≡ before ++ b ∷ after
    → u ≡ length before
    → use_bit all (state_at u v ms is) ≡ extracted (b, state_at (u + 1) v ms is)
unfolding use_bit
use_bit-middle all before after b u v ms is e f =
    let there : get_elem? all u ≡ some b =
      ap (λ i. get_elem? all i) f
      ∙ ap (λ xs. get_elem? xs (length before)) e
      ∙ get_elem?-middle before b after in
    rw (use_bit, there) refl

pub use_hash-middle :
    (all front back : List (List ℕ)) (hash : List ℕ) (u v : ℕ) (ms : List (List ℕ)) (is : List ℕ)
    → all ≡ front ++ hash ∷ back
    → v ≡ length front
    → use_hash all (state_at u v ms is) ≡ extracted (hash, state_at u (v + 1) ms is)
unfolding use_hash
use_hash-middle all front back hash u v ms is e f =
    let there : get_elem? all v ≡ some hash =
      ap (λ i. get_elem? all i) f
      ∙ ap (λ xs. get_elem? xs (length front)) e
      ∙ get_elem?-middle front hash back in
    rw (use_hash, there) refl

module _ (sha256d : List ℕ → List ℕ) (txids : List (List ℕ)) (matches : List Bool) where
  abbrev pub below : ℕ → ℕ → List Bool
  below h pos = leaves (pos * 2 ^ h) (2 ^ h) matches

  abbrev pub txids_below : ℕ → ℕ → List (List ℕ)
  txids_below h pos = leaves (pos * 2 ^ h) (2 ^ h) txids

  -- The hash of a node, the bits and the hashes that building adds for it, and that extraction uses
  -- them up, finds the matched leaves below it and computes the hash.
  pub record Node (h pos : ℕ) : Type 0 where
    pub hash : List ℕ
    pub bits : List Bool
    pub hashes : List (List ℕ)
    pub calc : calc_hash sha256d (length txids) txids h pos ≡ ok hash
    pub level : index (level_at sha256d h txids) pos ≡ ok hash
    pub bits_size : length bits < 2 * 2 ^ h
    pub hashes_fit : length hashes ≤ length bits
    pub hashes_size : length hashes ≤ 2 ^ h
    pub hashes_rest : pos * 2 ^ h + length hashes ≤ length txids
    pub build :
        (bs : List Bool) (hs : List (List ℕ))
        → traverse_and_build sha256d (length txids) txids matches h pos (bs, hs)
          ≡ ok (bs ++ bits, hs ++ hashes)
    pub extract :
        (all before after : List Bool) (all_hashes front back : List (List ℕ)) (u v : ℕ)
        (ms : List (List ℕ)) (is : List ℕ)
        → all ≡ before ++ (bits ++ after)
        → all_hashes ≡ front ++ (hashes ++ back)
        → u ≡ length before
        → v ≡ length front
        → traverse_and_extract sha256d (length txids) all all_hashes h pos (state_at u v ms is)
          ≡ extracted (
            hash,
            state_at
                (u + length bits)
                (v + length hashes)
                (ms ++ matched_txids (txids_below h pos) (below h pos))
                (is ++ matched_indexes (pos * 2 ^ h) (below h pos)),
          )

  or_false : (m : Bool) → (m || false) ≡ m
  or_false true = refl
  or_false false = refl

  leaf_push :
      (pos u v : ℕ) (m : Bool) (t : List ℕ) (ms : List (List ℕ)) (is : List ℕ)
      → push_match pos m (t, state_at u v ms is) ≡ (
        t,
        state_at u v (ms ++ matched_txids (t ∷ []) (m ∷ [])) (is ++ matched_indexes pos (m ∷ [])),
      )
  unfolding push_match
  leaf_push pos u v true t ms is = refl
  leaf_push pos u v false t ms is = rw (append-nil ms, append-nil is) refl

  -- A leaf, with its flag
  pub leaf : (pos : ℕ) → length txids ≡ length matches → pos < length txids → Node 0 pos
  unfolding traverse_and_build traverse_and_extract store calc_hash level_at
  leaf pos e there =
      let (t, t_at, ts) = leaves_one txids pos there in
      let (m, m_at, ms) = leaves_one matches pos (omega (arith, e, there)) in
      let first : pos * 2 ^ 0 ≡ pos = omega arith in
      record {
        hash = t;
        bits = m ∷ [];
        hashes = t ∷ [];
        calc = t_at;
        level = t_at;
        bits_size = omega arith;
        hashes_fit = omega arith;
        hashes_size = omega arith;
        hashes_rest = omega (arith, there);
        build =
            λ bs hs. rw (any_match_lem (length txids) matches 1 pos e, ms, or_false m, t_at) refl;
        extract = λ all before after all_hashes front back u v found is all_e hashes_e u_e v_e.
            rw
              (
                use_bit-middle all before after m u v found is all_e u_e,
                use_hash-middle all_hashes front back t (u + 1) v found is hashes_e v_e,
                leaf_push pos (u + 1) (v + 1) m t found is,
                first,
                ts,
                ms,
              )
              refl;
      }

  -- A node below which nothing is matched
  pub stored :
      (h pos : ℕ) (hash : List ℕ)
      → length txids ≡ length matches
      → pos * 2 ^ suc h < length txids
      → calc_hash sha256d (length txids) txids (suc h) pos ≡ ok hash
      → index (level_at sha256d (suc h) txids) pos ≡ ok hash
      → any_true (below (suc h) pos) ≡ false
      → Node (suc h) pos
  unfolding traverse_and_build traverse_and_extract store
  stored h pos hash e there hash_at hash_level none_there = record {
    hash = hash;
    bits = false ∷ [];
    hashes = hash ∷ [];
    calc = hash_at;
    level = hash_level;
    bits_size = omega (arith, power_positive (suc h));
    hashes_fit = omega arith;
    hashes_size = omega (arith, power_positive (suc h));
    hashes_rest = omega (arith, there);
    build = λ bs hs.
        rw
          (
            any_match_lem (length txids) matches (2 ^ suc h) (pos * 2 ^ suc h) e,
            none_there,
            hash_at,
          )
          refl;
    extract = λ all before after all_hashes front back u v found is all_e hashes_e u_e v_e.
        rw
          (
            use_bit-middle all before after false u v found is all_e u_e,
            use_hash-middle all_hashes front back hash (u + 1) v found is hashes_e v_e,
            matched_txids-none (txids_below (suc h) pos) (below (suc h) pos) none_there,
            matched_indexes-none (pos * 2 ^ suc h) (below (suc h) pos) none_there,
            append-nil found,
            append-nil is,
          )
          refl;
  }
