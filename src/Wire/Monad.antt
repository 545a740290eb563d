-- ===== src/Wire/Monad.antt =====
-- The laws of `◌>>=◌` on decoders, at one input.
use rust_litecoin.Prelude.{ℕ, ◌≡◌, refl, List}
use rust_litecoin.Wire.Codec.{Result, ok, err, Read, pure, ◌>>=◌}

-- `◌>>=◌` once the first decoder has run.
abbrev then_run : {A B : Type 0} → (A → Read B) → Result (A × List ℕ) → Result (B × List ℕ)
then_run f r = elim r [ ok (a, s) ↦ f a s | err e ↦ err e ]

module _ {A B : Type 0} where
  run_cong :
      (r : Result (A × List ℕ)) (f g : A → Read B)
      → ((a : A) (s : List ℕ) → f a s ≡ g a s)
      → then_run f r ≡ then_run g r
  run_cong (ok (a, s)) f g h = h a s
  run_cong (err e) f g h = refl

  pub >>=-cong :
      (m : Read A) (f g : A → Read B) (s : List ℕ)
      → ((a : A) (r : List ℕ) → f a r ≡ g a r)
      → (m >>= f) s ≡ (m >>= g) s
  >>=-cong m f g s h = run_cong (m s) f g h

  run_assoc :
      {C : Type 0} (r : Result (A × List ℕ)) (f : A → Read B) (g : B → Read C)
      → then_run g (then_run f r) ≡ then_run (λ a. f a >>= g) r
  run_assoc (ok (a, s)) f g = refl
  run_assoc (err e) f g = refl

  pub >>=-assoc :
      {C : Type 0} (m : Read A) (f : A → Read B) (g : B → Read C) (s : List ℕ)
      → ((m >>= f) >>= g) s ≡ (m >>= λ a. f a >>= g) s
  >>=-assoc m f g s = run_assoc (m s) f g

run_pure : {A : Type 0} (r : Result (A × List ℕ)) → then_run pure r ≡ r
run_pure (ok (a, s)) = refl
run_pure (err e) = refl

pub >>=-pure : {A : Type 0} (m : Read A) (s : List ℕ) → (m >>= pure) s ≡ m s
>>=-pure m s = run_pure (m s)
