-- ===== src/Script/Standard/Versions.antt =====
-- `WitnessProgram` of litecoin/src/blockdata/script/witness_program.rs against `Script::witness_version` of
-- script/borrowed.rs.
use rust_litecoin.Prelude.{
  ℕ, zero, suc, ◌≤◌, ◌≡◌, ◌↔◌, refl, sym, ap, ◌∙◌, Bool, true, false, not, ◌&&◌, ◌||◌, List, ◌∷◌,
  some, length, ltb, ◌==◌, if◌then◌else◌, arith, Bool-cases, ◌⊎◌, inl, inr, ge→ltb, ==_iff, ne→==,
  ltb→ge,
}
use rust_litecoin.Script.{ok}
use rust_litecoin.Script.Standard.{
  version_opcode, WitnessProgram, ProgramError, Checked, accepted, refused, checked_program,
  new_witness_program, new_witness_program_unchecked, witness_version,
}
use rust_litecoin.Script.Standard.Program.{
  new_witness_program_unchecked-bytes, witness_version-program, witness_version-Holds, negated,
  or_false,
}

-- The lengths of a program that its version allows, apart from the bounds
abbrev IsAllowed : ℕ → ℕ → Type 0
IsAllowed version n = (1 ≤ version) ⊎ ((n ≡ 20) ⊎ (n ≡ 32))

and_none : (b : Bool) → (b && false) ≡ false
and_none true = refl
and_none false = refl

and-IsAllowed :
    (version n : ℕ)
    → ((version == 0) && (not (n == 20) && not (n == 32))) ≡ false
    → IsAllowed version n
and-IsAllowed zero n h = elim (Bool-cases (n == 20)) [
  | inl e ↦ inr (inl ((==_iff n 20).0 e))
  | inr e ↦ inr (inr ((==_iff n 32).0 (negated (n == 32) (sym (rw e refl) ∙ h))))
]
and-IsAllowed (suc version) n h = inl (omega arith)

IsAllowed-and :
    (version n : ℕ)
    → IsAllowed version n
    → ((version == 0) && (not (n == 20) && not (n == 32))) ≡ false
IsAllowed-and zero n (inl h) = absurd (omega (arith, h))
IsAllowed-and (suc version) n (inl h) = rw (ne→== (suc version) 0 (λ e. omega (arith, e))) refl
IsAllowed-and version n (inr (inl h)) = rw (h, and_none (version == 0)) refl
IsAllowed-and version n (inr (inr h)) = rw (h, and_none (version == 0)) refl

if_refused :
    (b : Bool) (e : ProgramError) (x : Checked) (wp : WitnessProgram)
    → (if b then refused e else x) ≡ accepted wp
    → (b ≡ false) × (x ≡ accepted wp)
if_refused true e x wp h = absurd (cc)
if_refused false e x wp h = (refl, h)

accepted-inj : (a b : WitnessProgram) → accepted a ≡ accepted b → a ≡ b
accepted-inj a b h = cc

-- What `WitnessProgram::new` accepts
accepted-IsAllowed :
    (version : ℕ) (program : List ℕ) (wp : WitnessProgram)
    → checked_program version program ≡ accepted wp
    → (record { version = version; program = program } ≡ wp)
      × (2 ≤ length program)
      × (length program ≤ 40)
      × IsAllowed version (length program)
unfolding checked_program
accepted-IsAllowed version program wp h =
    let n = length program in
    let (range, h1) = if_refused (ltb n 2 || ltb 40 n) _ _ wp h in
    let (v0, h2) = if_refused ((version == 0) && (not (n == 20) && not (n == 32))) _ _ wp h1 in
    let (low, high) = or_false (ltb n 2) (ltb 40 n) range in
    (accepted-inj _ wp h2, ltb→ge n 2 low, ltb→ge 40 n high, and-IsAllowed version n v0)

IsAllowed-accepted :
    (version : ℕ) (program : List ℕ)
    → 2 ≤ length program
    → length program ≤ 40
    → IsAllowed version (length program)
    → checked_program version program ≡ accepted (record { version = version; program = program })
unfolding checked_program
IsAllowed-accepted version program low high h =
    let n = length program in rw (ge→ltb n 2 low, ge→ltb 40 n high, IsAllowed-and version n h) refl

-- The lengths of a script that its version allows
abbrev pub IsScriptLength : ℕ → List ℕ → Type 0
IsScriptLength version script = (1 ≤ version) ⊎ ((length script ≡ 22) ⊎ (length script ≡ 34))

script_length :
    (version n m : ℕ)
    → m ≡ suc (suc n)
    → IsAllowed version n ↔ ((1 ≤ version) ⊎ ((m ≡ 22) ⊎ (m ≡ 34)))
script_length version n m e = (longer, shorter)
  where
    longer : IsAllowed version n → (1 ≤ version) ⊎ ((m ≡ 22) ⊎ (m ≡ 34))
    longer (inl h) = inl h
    longer (inr (inl h)) = inr (inl (omega (arith, e, h)))
    longer (inr (inr h)) = inr (inr (omega (arith, e, h)))

    shorter : (1 ≤ version) ⊎ ((m ≡ 22) ⊎ (m ≡ 34)) → IsAllowed version n
    shorter (inl h) = inl h
    shorter (inr (inl h)) = inr (inl (omega (arith, e, h)))
    shorter (inr (inr h)) = inr (inr (omega (arith, e, h)))

script-inj : (a b : List ℕ) → ok a ≡ ok b → a ≡ b
script-inj a b h = cc

-- For a version of at most 16: a script is what `new_witness_program` writes for some program of that
-- version that `WitnessProgram::new` accepts, exactly when the script has that witness version and,
-- for version 0, is 22 or 34 bytes long.
pub witness_version_iff :
    (version : ℕ) (script : List ℕ)
    → version ≤ 16
    → ((program : List ℕ) × (wp : WitnessProgram) × (checked_program version program ≡ accepted wp)
        × (new_witness_program wp ≡ ok script))
      ↔ ((witness_version script ≡ some version) × IsScriptLength version script)
unfolding new_witness_program new_witness_program_unchecked
witness_version_iff version script small = (
  λ (program, wp, made, e).
      let (same, low, high, fits) = accepted-IsAllowed version program wp made in
      let written : version_opcode version ∷ length program ∷ program ≡ script =
        script-inj _ script (
          sym (new_witness_program_unchecked-bytes version program high)
          ∙ ap new_witness_program same
          ∙ e) in
      (
        ap witness_version (sym written)
            ∙ witness_version-program version program (small, low, high),
        (script_length version (length program) (length script) (ap length (sym written))).0 fits,
      ),
  λ (h, fits).
      let (program, (_, low, high), e) = witness_version-Holds version script h in
      (
        program,
        record { version = version; program = program },
        IsAllowed-accepted version program low high
            ((script_length version (length program) (length script) (ap length e)).1 fits),
        new_witness_program_unchecked-bytes version program high ∙ ap (λ s. ok s) (sym e),
      ),
)
