-- ===== src/Minimizer/Evaluation.antt =====
-- One `check` of internal/minimizer/minimizer.go, and the options that it works under.
use agentapi_doctor.Common.{
  ℕ, zero, suc, ◌+◌, ◌≤◌, ◌<◌, ◌≡◌, inl, inr, Bool, true, false, List, Option, some, arith,
  Option-cases, Bool-cases,
}
use agentapi_doctor.Minimizer.{Options, reproduces, fails, normalize_options, check_loop, check}

-- What `normalizeOptions` makes sure of.
pub record IsNormal (o : Options) : Type 0 where
  pub attempts : 0 < o.attempts
  pub required : 0 < o.required_passes
  pub evaluations : 0 < o.max_evaluations

pub normalize_options-IsNormal : (o o' : Options) → normalize_options o ≡ some o' → IsNormal o'
unfolding normalize_options
normalize_options-IsNormal o o' h = record {
  attempts = ground (arith, h);
  required = ground (arith, h);
  evaluations = ground (arith, h);
}

module _ {ℓ} {A : Type ℓ} (predicate : ℕ → List A → Option Bool) where
  -- The count stays within the budget.
  check_loop-bound :
      (o : Options) (xs : List A) (left passes failures count : ℕ)
      → count ≤ o.max_evaluations
      → (check_loop predicate o xs left passes failures count).0 ≤ o.max_evaluations
  unfolding check_loop
  check_loop-bound o xs zero passes failures count h = h
  check_loop-bound o xs (suc left) passes failures count h =
      elim (Option-cases (predicate count xs)) [
        | inl e ↦ ground (arith, check_loop-bound o xs left passes failures (count + 1))
        | inr (true, e) ↦
            ground (arith, check_loop-bound o xs left (passes + 1) failures (count + 1))
        | inr (false, e) ↦
            ground (arith, check_loop-bound o xs left passes (failures + 1) (count + 1))
      ]

  pub check-bound :
      (o : Options) (xs : List A) (count : ℕ)
      → count ≤ o.max_evaluations
      → (check predicate o xs count).0 ≤ o.max_evaluations
  unfolding check
  check-bound o xs count h = check_loop-bound o xs o.attempts 0 0 count h

module _ {ℓ} {A : Type ℓ} (p : List A → Bool) where
  -- A predicate with one answer for each list, and no errors.
  abbrev pub steady : ℕ → List A → Option Bool
  steady n xs = some (p xs)

  steady_loop :
      (o : Options) (xs : List A) (left passes failures count : ℕ)
      → 0 < o.required_passes
      → (0 < passes → p xs ≡ true)
      → (0 < failures → p xs ≡ false)
      → ((check_loop steady o xs left passes failures count).1 ≡ reproduces → p xs ≡ true)
        × ((check_loop steady o xs left passes failures count).1 ≡ fails → p xs ≡ false)
  unfolding check_loop
  steady_loop o xs zero passes failures count pos passed failed =
      (λ h. absurd (ground (arith, h)), λ h. absurd (ground (arith, h)))
  steady_loop o xs (suc left) passes failures count pos passed failed = elim (Bool-cases (p xs)) [
    | inl e ↦
        let rest = steady_loop o xs left (passes + 1) failures (count + 1) pos (λ _. e) failed in
        (λ h. e, λ h. ground (arith, h, failed, rest.1))
    | inr e ↦
        let rest = steady_loop o xs left passes (failures + 1) (count + 1) pos passed (λ _. e) in
        (λ h. ground (arith, h, passed, rest.0), λ h. e)
  ]

  -- A steady predicate is answered truly.
  pub check-steady :
      (o : Options) (xs : List A) (count : ℕ)
      → 0 < o.required_passes
      → ((check steady o xs count).1 ≡ reproduces → p xs ≡ true)
        × ((check steady o xs count).1 ≡ fails → p xs ≡ false)
  unfolding check
  check-steady o xs count pos =
      steady_loop o xs o.attempts 0 0 count pos (λ h. absurd (omega (arith, h)))
        (λ h. absurd (omega (arith, h)))
