-- ===== src/Merkle/Partial/Whole.antt =====
-- A partial tree that `from_txids` builds gives its matches back, with the merkle root.
use rust_litecoin.Prelude.{
  ℕ, zero, suc, ◌+◌, ◌*◌, ◌/◌, ◌%◌, ◌^◌, ◌≤◌, ◌<◌, ◌≡◌, refl, sym, ap, ◌∙◌, Bool, true, List, [],
  ◌∷◌, some, length, take, drop, ◌==◌, arith, ltb→lt, ltb→ge, lt→ltb, ge→ltb, ne→==, ==_refl,
  append-nil, length-append, ◌++◌,
}
use rust_litecoin.Wire.Codec.{ok}
use rust_litecoin.Merkle.{index, calculate_root}
use rust_litecoin.Merkle.Root.{level_at, IsRoot, calculate_root_lem}
use rust_litecoin.Merkle.Partial.{
  PartialMerkleTree, extracted, calc_tree_height, from_txids, traverse_and_extract,
  max_transactions, all_consumed, extract_from_height, extract_matches,
}
use rust_litecoin.Merkle.Partial.Heights.{IsHeight, calc_tree_height_lem, in_level, IsRoot-same}
use rust_litecoin.Merkle.Partial.Leaves.{matched_txids, matched_indexes, leaves}
use rust_litecoin.Merkle.Partial.Node.{Node, state_at}
use rust_litecoin.Merkle.Partial.Tree.{SiblingsDiffer, Node-at}

module _ (sha256d : List ℕ → List ℕ) (txids : List (List ℕ)) (matches : List Bool) where
  take_all : {A : Type 0} (k : ℕ) (xs : List A) → length xs ≤ k → take k xs ≡ xs
  take_all zero [] h = refl
  take_all zero (x ∷ xs) h = absurd (omega (arith, h))
  take_all (suc k) [] h = refl
  take_all (suc k) (x ∷ xs) h = ap (λ ys. x ∷ ys) (take_all k xs (omega (arith, h)))

  leaves_all :
      {A : Type 0} (xs : List A) (h : ℕ) → length xs ≤ 2 ^ h → leaves (0 * 2 ^ h) (2 ^ h) xs ≡ xs
  leaves_all xs h all =
      let first : 0 * 2 ^ h ≡ 0 = omega arith in
      ap (λ p. take (2 ^ h) (drop p xs)) first ∙ take_all (2 ^ h) xs all

  -- The top node extracts everything, whatever bits follow its own.
  extract_top :
      (h : ℕ) (node : Node sha256d txids matches h 0) (more : List Bool)
      → length txids ≡ length matches
      → length txids ≤ 2 ^ h
      → traverse_and_extract sha256d
          (length txids)
          (node.bits ++ more)
          (node.hashes)
          h
          0
          (state_at 0 0 [] [])
        ≡ extracted (
          node.hash,
          state_at
              (length (node.bits))
              (length (node.hashes))
              (matched_txids txids matches)
              (matched_indexes 0 matches),
        )
  extract_top h node more e all =
      let flags = leaves_all matches h (omega (arith, e, all)) in
      let hashes = leaves_all txids h all in
      let first : 0 * 2 ^ h ≡ 0 = omega arith in
      let zero_bits : 0 + length (node.bits) ≡ length (node.bits) = omega arith in
      let zero_hashes : 0 + length (node.hashes) ≡ length (node.hashes) = omega arith in
      node.extract (node.bits ++ more) [] more (node.hashes) [] [] 0 0 [] [] refl
        (sym (append-nil (node.hashes))) refl refl
      ∙ rw (flags, hashes, first, zero_bits, zero_hashes) refl

  -- The level of the root has one hash.
  pub top-IsRoot :
      (h : ℕ) (root : List ℕ)
      → IsHeight (length txids) h
      → index (level_at sha256d h txids) 0 ≡ ok root
      → IsRoot sha256d txids h root
  top-IsRoot h root height first = record {
    below = λ k less.
        let one : 1 * 2 ^ k ≡ 2 ^ k = omega arith in
        ltb→lt 1 (length (level_at sha256d k txids)) (
          in_level sha256d k 1 txids
          ∙ lt→ltb (1 * 2 ^ k) (length txids) (omega (arith, one, height.below k less)));
    at =
        let one : 1 * 2 ^ h ≡ 2 ^ h = omega arith in
        let narrow = ltb→ge 1 (length (level_at sha256d h txids)) (
          in_level sha256d h 1 txids
          ∙ ge→ltb (1 * 2 ^ h) (length txids) (omega (arith, one, height.covers))) in
        single (level_at sha256d h txids) root first narrow;
  }
    where
      single : (xs : List (List ℕ)) (x : List ℕ) → index xs 0 ≡ ok x → length xs ≤ 1 → xs ≡ x ∷ []
      single [] x e h = absurd cc
      single (y ∷ []) x e h = let same : y ≡ x = cc in ap (λ z. z ∷ []) same
      single (y ∷ z ∷ xs) x e h = absurd (omega (arith, h))

  pub top_root :
      (h : ℕ) (root : List ℕ)
      → 0 < length txids
      → IsRoot sha256d txids h root
      → calculate_root sha256d txids ≡ ok (some root)
  top_root h root some_there top =
      let (height, r, is, root_of, inline) = calculate_root_lem sha256d txids some_there in
      let same = IsRoot-same sha256d txids height h r root is top in rw (root_of, same) refl

  pub extract_whole :
      (h : ℕ) (node : Node sha256d txids matches h 0) (more : List Bool)
      → 0 < length txids
      → length txids ≤ max_transactions
      → length txids ≡ length matches
      → calc_tree_height (length txids) ≡ ok h
      → IsHeight (length txids) h
      → length more < 8
      → (length node.bits + length more + 7) / 8 ≡ (length node.bits + 7) / 8
      → extract_matches sha256d (record {
        num_transactions = length txids;
        bits = node.bits ++ more;
        hashes = node.hashes;
      })
        ≡ extracted (node.hash, (matched_txids txids matches, matched_indexes 0 matches))
  unfolding extract_matches extract_from_height all_consumed
  extract_whole h node more some_there few e height_of height short same_bytes =
      let n = length txids in
      let total = length-append (node.bits) more in
      let bits_low : length (node.bits ++ more) % 2 ^ 32 ≡ length (node.bits) + length more =
        omega (arith, node.bits_size, height.low, few, total) in
      let hashes_low : length (node.hashes) % 2 ^ 32 ≡ length (node.hashes) =
        omega (arith, node.hashes_rest, few) in
      rw
        (
          ne→== n 0 (omega (arith, some_there)),
          ge→ltb max_transactions n few,
          hashes_low,
          ge→ltb n (length (node.hashes)) (omega (arith, node.hashes_rest)),
          ge→ltb (length (node.bits ++ more)) (length (node.hashes))
              (omega (arith, node.hashes_fit, total)),
          height_of,
          extract_top h node more e (height.covers),
          bits_low,
          same_bytes,
          ==_refl ((length (node.bits) + 7) / 8),
          hashes_low,
          ==_refl (length (node.hashes)),
        )
        refl

  -- A tree that is built, with bits behind its own up to a whole byte, and how large it is
  pub extract_matches-padded :
      0 < length txids
      → length txids ≤ max_transactions
      → length txids ≡ length matches
      → SiblingsDiffer sha256d txids
      → (t : PartialMerkleTree) × (root : List ℕ) × (from_txids sha256d txids matches ≡ ok t)
        × ((more : List Bool)
            → length more < 8
            → (length t.bits + length more + 7) / 8 ≡ (length t.bits + 7) / 8
            → extract_matches sha256d (record t { bits = t.bits ++ more })
              ≡ extracted (root, (matched_txids txids matches, matched_indexes 0 matches)))
        × (calculate_root sha256d txids ≡ ok (some root))
        × (t.num_transactions ≡ length txids)
        × (length t.hashes ≤ length txids)
        × (length t.bits < 2 ^ 20)
  unfolding from_txids
  extract_matches-padded some_there few e differ =
      let n = length txids in
      let (h, height_of, height) = calc_tree_height_lem n some_there (omega (arith, few)) in
      let node =
        Node-at sha256d txids matches h 0 e (omega (arith, few)) (omega (arith, height.low, few))
          differ (omega (arith, some_there)) in
      let u32 : n % 2 ^ 32 ≡ n = omega (arith, few) in
      let same : (n == length matches) ≡ true = rw e (==_refl (length matches)) in
      (
        record { num_transactions = n; bits = node.bits; hashes = node.hashes },
        node.hash,
        rw (ne→== n 0 (omega (arith, some_there)), same, u32, height_of, node.build [] []) refl,
        λ more short bytes. extract_whole h node more some_there few e height_of height short bytes,
        top_root h (node.hash) some_there (top-IsRoot h (node.hash) height (node.level)),
        refl,
        omega (arith, node.hashes_rest),
        omega (arith, node.bits_size, height.low, few),
      )

  -- What `from_txids` builds, `extract_matches` accepts: it gives the matched txids with their
  -- indexes and the root that `calculate_root` computes, for at least one txid and at most as many
  -- as `extract_matches` allows, with a flag for each, if no two siblings have the same hash.
  pub extract_matches-from_txids :
      0 < length txids
      → length txids ≤ max_transactions
      → length txids ≡ length matches
      → SiblingsDiffer sha256d txids
      → (t : PartialMerkleTree) × (root : List ℕ) × (from_txids sha256d txids matches ≡ ok t)
        × (extract_matches sha256d t
            ≡ extracted (root, (matched_txids txids matches, matched_indexes 0 matches)))
        × (calculate_root sha256d txids ≡ ok (some root))
  extract_matches-from_txids some_there few e differ =
      let (t, root, built, extract, top, num, hashes, bits) =
        extract_matches-padded some_there few e differ in
      (
        t,
        root,
        built,
        ap (λ bits. extract_matches sha256d (record t { bits = bits })) (sym (append-nil (t.bits)))
            ∙ extract [] (omega arith) (omega arith),
        top,
      )
