-- ===== src/Minimizer/Tests.antt =====
-- Runs of internal/minimizer/minimizer.go, and its theorems at them.
use agentapi_doctor.Common.{
  ℕ, ◌+◌, ◌≤◌, ◌<◌, ◌≡◌, ◌≢◌, Bool, true, false, ◌&&◌, List, [], ◌∷◌, some, refl, arith, any, eqb,
  ok, err,
}
use agentapi_doctor.Minimizer.{
  Options, Outcome, check_loop, check, sweep, outcome, conclude, minimize, ddmin_with, ddmin,
  normalize_options, without, minimized, no_reason, out_of_fuel,
}
use agentapi_doctor.Minimizer.Evaluation.{steady}
use agentapi_doctor.Minimizer.Minimal.{Found, ddmin_returns, ddmin-Found, ddmin-steady}

abbrev has_both : List ℕ → Bool
has_both xs = any (λ x. eqb x 2) xs && any (λ x. eqb x 4) xs

abbrev running : ℕ → Bool
running n = false

abbrev two_of_two : Options
two_of_two = record { attempts = 2; required_passes = 2; max_evaluations = 0 }

abbrev five : List ℕ
five = 1 ∷ 2 ∷ 3 ∷ 4 ∷ 5 ∷ []

abbrev result : Outcome ℕ
result = record {
  items = 2 ∷ 4 ∷ [];
  status = minimized;
  reason = no_reason;
  evaluations = 17;
  attempts = 2;
  required = 2;
}

five_minimized : ddmin (steady has_both) running two_of_two five ≡ ok result
unfolding ddmin ddmin_with minimize sweep check check_loop conclude outcome normalize_options
five_minimized = refl

ddmin_returns_example : ddmin (steady has_both) running two_of_two five ≢ err out_of_fuel
ddmin_returns_example = ddmin_returns (steady has_both) running two_of_two five

ddmin-Found_example :
    (o : Options) × (normalize_options two_of_two ≡ some o) × Found (steady has_both) o five result
ddmin-Found_example = ddmin-Found (steady has_both) running two_of_two five result five_minimized

ddmin-steady_example :
    (has_both (2 ∷ 4 ∷ []) ≡ true)
    × ((i : ℕ) → 2 ≤ 2 → i < 2 → has_both (without i (i + 1) (2 ∷ 4 ∷ [])) ≡ false)
ddmin-steady_example =
    ddmin-steady has_both running two_of_two five result five_minimized (ground arith)
