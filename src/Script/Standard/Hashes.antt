-- ===== src/Script/Standard/Hashes.antt =====
-- The tests of litecoin/src/blockdata/script/borrowed.rs for the standard scripts and the constructors
-- of script/owned.rs.
use rust_litecoin.Prelude.{
  ℕ, zero, suc, ◌≤◌, ◌<◌, ◌≡◌, ◌↔◌, refl, sym, ap, ◌∙◌, Bool, true, false, ◌&&◌, List, [], ◌∷◌,
  ◌++◌, Option, none, some, length, get_elem?, ◌==◌, arith, ==_refl, ==_iff, length-append,
  get_elem?-middle,
}
use rust_litecoin.Script.{Result, ok}
use rust_litecoin.Script.Opcode.Cases.{and_left, and_right}
use rust_litecoin.Script.Buf.{push_opcode, push_header, push_slice}
use rust_litecoin.Script.Builder
use rust_litecoin.Script.Standard.{
  new_p2pkh, new_p2sh, new_witness_program_unchecked, byte_at, witness_version, is_version,
  is_p2pkh, is_p2sh, is_p2wpkh, is_p2wsh, is_p2tr, version_opcode,
}
use rust_litecoin.Script.Standard.Program.{
  new_witness_program_unchecked-bytes, witness_version-program, witness_version-Holds,
}

-- A script is what a constructor writes for some bytes of a length.
abbrev pub Writes : (List ℕ → Result (List ℕ)) → ℕ → List ℕ → Type 0
Writes construct n script = (hash : List ℕ) × (length hash ≡ n) × (construct hash ≡ ok script)

byte_at→ : (script : List ℕ) (i b : ℕ) → byte_at script i b ≡ true → get_elem? script i ≡ some b
unfolding byte_at
byte_at→ script i b h = go (get_elem? script i) h
  where
    go : (o : Option ℕ) → elim o [ none ↦ false | some c ↦ c == b ] ≡ true → o ≡ some b
    go none h = absurd (cc)
    go (some c) h = ap (λ n. some n) ((==_iff c b).0 h)

→byte_at : (script : List ℕ) (i b : ℕ) → get_elem? script i ≡ some b → byte_at script i b ≡ true
unfolding byte_at
→byte_at script i b h = rw (byte_at, h, ==_refl b) refl

-- A list ends with the element at its last index.
cut :
    (n : ℕ) (xs : List ℕ) (x : ℕ)
    → length xs ≡ suc n
    → get_elem? xs n ≡ some x
    → (ys : List ℕ) × (length ys ≡ n) × (xs ≡ ys ++ x ∷ [])
cut n [] x h e = absurd (omega (arith, h))
cut zero (y ∷ []) x h e = ([], refl, ap (λ z. z ∷ []) (some-inj y x e))
  where
    some-inj : (y x : ℕ) → some y ≡ some x → y ≡ x
    some-inj y x e = cc
cut zero (y ∷ z ∷ xs) x h e = absurd (omega (arith, h))
cut (suc n) (y ∷ xs) x h e =
    let (ys, len, split) = cut n xs x (omega (arith, h)) e in
    (y ∷ ys, ap suc len, ap (λ zs. y ∷ zs) split)

get_elem?-front : (i : ℕ) (xs ys : List ℕ) → i < length xs → get_elem? (xs ++ ys) i ≡ get_elem? xs i
get_elem?-front i [] ys h = absurd (omega arith)
get_elem?-front zero (x ∷ xs) ys h = refl
get_elem?-front (suc i) (x ∷ xs) ys h = get_elem?-front i xs ys (omega arith)

new_p2sh-bytes :
    (hash : List ℕ) → length hash ≡ 20 → new_p2sh hash ≡ ok (0xa9 ∷ 20 ∷ (hash ++ 0x87 ∷ []))
unfolding new_p2sh Builder.push_bytes Builder.push_op push_slice push_opcode push_header
new_p2sh-bytes hash h = rw h refl

new_p2pkh-bytes :
    (hash : List ℕ)
    → length hash ≡ 20
    → new_p2pkh hash ≡ ok (0x76 ∷ 0xa9 ∷ 20 ∷ ((hash ++ 0x88 ∷ []) ++ 0xac ∷ []))
unfolding new_p2pkh Builder.push_bytes Builder.push_op push_slice push_opcode push_header
new_p2pkh-bytes hash h = rw h refl

some-inj : (m n : ℕ) → some m ≡ some n → m ≡ n
some-inj m n h = cc

ok-inj : (a b : List ℕ) → ok a ≡ ok b → a ≡ b
ok-inj a b h = cc

is_p2sh→ : (script : List ℕ) → is_p2sh script ≡ true → Writes new_p2sh 20 script
unfolding is_p2sh
is_p2sh→ [] h = absurd (cc)
is_p2sh→ (a ∷ []) h = absurd (cc)
is_p2sh→ (a ∷ b ∷ rest) h =
    let script = a ∷ b ∷ rest in
    let len = (==_iff (length script) 23).0 (and_left (length script == 23) _ h) in
    let h1 = and_right (length script == 23) _ h in
    let first = some-inj a 0xa9 (byte_at→ script 0 0xa9 (and_left (byte_at script 0 0xa9) _ h1)) in
    let h2 = and_right (byte_at script 0 0xa9) _ h1 in
    let second = some-inj b 0x14 (byte_at→ script 1 0x14 (and_left (byte_at script 1 0x14) _ h2)) in
    let last = byte_at→ script 22 0x87 (and_right (byte_at script 1 0x14) _ h2) in
    let (hash, size, split) = cut 20 rest 0x87 (omega (arith, len)) last in
    (
      hash,
      size,
      new_p2sh-bytes hash size
          ∙ ap (λ s. ok s)
              (sym (
                ap (λ x. x ∷ b ∷ rest) first
                ∙ ap (λ x. 0xa9 ∷ x ∷ rest) second
                ∙ ap (λ xs. 0xa9 ∷ 20 ∷ xs) split)),
    )

→is_p2sh : (script : List ℕ) → Writes new_p2sh 20 script → is_p2sh script ≡ true
unfolding is_p2sh
→is_p2sh script (hash, size, e) =
    rw (sym (ok-inj _ script (sym (new_p2sh-bytes hash size) ∙ e))) (tested hash size)
  where
    tested : (hash : List ℕ) → length hash ≡ 20 → is_p2sh (0xa9 ∷ 20 ∷ (hash ++ 0x87 ∷ [])) ≡ true
    tested hash size =
        let len : length (hash ++ 0x87 ∷ []) ≡ 21 =
          omega (arith, length-append hash (0x87 ∷ []), size) in
        let last : get_elem? (hash ++ 0x87 ∷ []) 20 ≡ some 0x87 =
          ap (λ n. get_elem? (hash ++ 0x87 ∷ []) n) (sym size) ∙ get_elem?-middle hash 0x87 [] in
        rw
          (
            len,
            →byte_at (0xa9 ∷ 20 ∷ (hash ++ 0x87 ∷ [])) 0 0xa9 refl,
            →byte_at (0xa9 ∷ 20 ∷ (hash ++ 0x87 ∷ [])) 1 20 refl,
            →byte_at (0xa9 ∷ 20 ∷ (hash ++ 0x87 ∷ [])) 22 0x87 last,
          )
          refl

three_and :
    (a b c : ℕ) (rest rest' : List ℕ) {a' b' c' : ℕ}
    → a ≡ a'
    → b ≡ b'
    → c ≡ c'
    → rest ≡ rest'
    → a ∷ b ∷ c ∷ rest ≡ a' ∷ b' ∷ c' ∷ rest'
three_and a b c rest rest' e f g h = rw (e, f, g, h) refl

is_p2pkh→ : (script : List ℕ) → is_p2pkh script ≡ true → Writes new_p2pkh 20 script
unfolding is_p2pkh
is_p2pkh→ [] h = absurd (cc)
is_p2pkh→ (a ∷ []) h = absurd (cc)
is_p2pkh→ (a ∷ b ∷ []) h = absurd (cc)
is_p2pkh→ (a ∷ b ∷ c ∷ rest) h =
    let script = a ∷ b ∷ c ∷ rest in
    let len = (==_iff (length script) 25).0 (and_left (length script == 25) _ h) in
    let h1 = and_right (length script == 25) _ h in
    let first = some-inj a 0x76 (byte_at→ script 0 0x76 (and_left (byte_at script 0 0x76) _ h1)) in
    let h2 = and_right (byte_at script 0 0x76) _ h1 in
    let second = some-inj b 0xa9 (byte_at→ script 1 0xa9 (and_left (byte_at script 1 0xa9) _ h2)) in
    let h3 = and_right (byte_at script 1 0xa9) _ h2 in
    let third = some-inj c 0x14 (byte_at→ script 2 0x14 (and_left (byte_at script 2 0x14) _ h3)) in
    let h4 = and_right (byte_at script 2 0x14) _ h3 in
    let verify = byte_at→ script 23 0x88 (and_left (byte_at script 23 0x88) _ h4) in
    let check = byte_at→ script 24 0xac (and_right (byte_at script 23 0x88) _ h4) in
    let (front, size, split) = cut 21 rest 0xac (omega (arith, len)) check in
    let inner : get_elem? front 20 ≡ some 0x88 =
      sym (get_elem?-front 20 front (0xac ∷ []) (omega (arith, size)))
      ∙ ap (λ xs. get_elem? xs 20) (sym split)
      ∙ verify in
    let (hash, size', split') = cut 20 front 0x88 size inner in
    (
      hash,
      size',
      new_p2pkh-bytes hash size'
          ∙ ap (λ s. ok s)
              (sym (
                three_and a b c rest _ first second third
                  (split ∙ ap (λ ys. ys ++ 0xac ∷ []) split'))),
    )

→is_p2pkh : (script : List ℕ) → Writes new_p2pkh 20 script → is_p2pkh script ≡ true
unfolding is_p2pkh
→is_p2pkh script (hash, size, e) =
    rw (sym (ok-inj _ script (sym (new_p2pkh-bytes hash size) ∙ e))) (tested hash size)
  where
    tested :
        (hash : List ℕ)
        → length hash ≡ 20
        → is_p2pkh (0x76 ∷ 0xa9 ∷ 20 ∷ ((hash ++ 0x88 ∷ []) ++ 0xac ∷ [])) ≡ true
    tested hash size =
        let front = hash ++ 0x88 ∷ [] in
        let script = 0x76 ∷ 0xa9 ∷ 20 ∷ (front ++ 0xac ∷ []) in
        let front_len : length front ≡ 21 = omega (arith, length-append hash (0x88 ∷ []), size) in
        let len : length (front ++ 0xac ∷ []) ≡ 22 =
          omega (arith, length-append front (0xac ∷ []), front_len) in
        let check : get_elem? (front ++ 0xac ∷ []) 21 ≡ some 0xac =
          ap (λ n. get_elem? (front ++ 0xac ∷ []) n) (sym front_len)
          ∙ get_elem?-middle front 0xac [] in
        let verify : get_elem? (front ++ 0xac ∷ []) 20 ≡ some 0x88 =
          get_elem?-front 20 front (0xac ∷ []) (omega (arith, front_len))
          ∙ ap (λ n. get_elem? front n) (sym size)
          ∙ get_elem?-middle hash 0x88 [] in
        rw
          (
            len,
            →byte_at script 0 0x76 refl,
            →byte_at script 1 0xa9 refl,
            →byte_at script 2 20 refl,
            →byte_at script 23 0x88 verify,
            →byte_at script 24 0xac check,
          )
          refl

-- The test of a program's length and version
abbrev is_program : ℕ → ℕ → List ℕ → Bool
is_program version n script =
    (length script == suc (suc n))
    && (is_version version (witness_version script) && byte_at script 1 n)

is_version→ : (v : ℕ) (o : Option ℕ) → is_version v o ≡ true → o ≡ some v
is_version→ v none h = absurd (cc)
is_version→ v (some w) h = ap (λ n. some n) ((==_iff w v).0 h)

program_test :
    (version n : ℕ) (script program : List ℕ)
    → version ≤ 16
    → 2 ≤ n
    → n ≤ 40
    → length program ≡ n
    → new_witness_program_unchecked version program ≡ ok script
    → is_program version n script ≡ true
program_test version n script program small low high size e =
    let short : length program ≤ 40 = omega (arith, size) in
    let bytes = version_opcode version ∷ length program ∷ program in
    let same : bytes ≡ script =
      ok-inj bytes script (sym (new_witness_program_unchecked-bytes version program short) ∙ e) in
    let found : witness_version bytes ≡ some version =
      witness_version-program version program (small, omega (arith, size), short) in
    rw
      (
        sym same,
        sym size,
        ==_refl (suc (suc (length program))),
        found,
        ==_refl version,
        →byte_at bytes 1 (length program) refl,
      )
      refl

is_program_iff :
    (version n : ℕ) (script : List ℕ)
    → version ≤ 16
    → 2 ≤ n
    → n ≤ 40
    → (is_program version n script ≡ true) ↔ Writes (new_witness_program_unchecked version) n script
is_program_iff version n script small low high = (
  λ h.
      let len =
        (==_iff (length script) (suc (suc n))).0 (and_left (length script == suc (suc n)) _ h) in
      let h1 = and_right (length script == suc (suc n)) _ h in
      let v = is_version→ version (witness_version script) (and_left _ _ h1) in
      let (program, valid, e) = witness_version-Holds version script v in
      (
        program,
        omega (arith, len, ap length e),
        new_witness_program_unchecked-bytes version program (valid.2) ∙ ap (λ s. ok s) (sym e),
      ),
  λ (program, size, e). program_test version n script program small low high size e,
)

-- The tests for P2PKH, P2SH, P2WPKH, P2WSH and P2TR accept exactly the scripts that the constructors
-- write for a hash or a key of the right length: 20 bytes, or 32 for the last two.
pub standard_iff :
    (script : List ℕ)
    → ((is_p2pkh script ≡ true) ↔ Writes new_p2pkh 20 script)
      × ((is_p2sh script ≡ true) ↔ Writes new_p2sh 20 script)
      × ((is_p2wpkh script ≡ true) ↔ Writes (new_witness_program_unchecked 0) 20 script)
      × ((is_p2wsh script ≡ true) ↔ Writes (new_witness_program_unchecked 0) 32 script)
      × ((is_p2tr script ≡ true) ↔ Writes (new_witness_program_unchecked 1) 32 script)
unfolding is_p2wpkh is_p2wsh is_p2tr
standard_iff script = (
  (is_p2pkh→ script, →is_p2pkh script),
  (is_p2sh→ script, →is_p2sh script),
  is_program_iff 0 20 script (omega arith) (omega arith) (omega arith),
  is_program_iff 0 32 script (omega arith) (omega arith) (omega arith),
  is_program_iff 1 32 script (omega arith) (omega arith) (omega arith),
)
