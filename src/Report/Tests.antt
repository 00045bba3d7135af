-- ===== src/Report/Tests.antt =====
-- Two baselines of internal/report/baseline.go, and the theorem at them.
use agentapi_doctor.Common.{
  ◌≡◌, String, not, List, [], ◌∷◌, some, none, refl, ◌==◌, string_eq, ok, lookup,
}
use agentapi_doctor.Report.{
  CaseState, Baseline, Checks, Difference, pass, fail, completed, execute, baseline_schema_version,
  compare, is_valid_baseline, is_valid_case, same_identity, difference, add_ids, classify,
  is_failure, regression, no_longer_tested,
}
use agentapi_doctor.Report.Changes.{Compared, compare-Compared}

abbrev checks : Checks
checks = record {
  is_name = λ s. not (s == "");
  is_digest = λ s. not (s == "");
  trim_space = λ s. s;
}

abbrev passed : CaseState
passed = record { disposition = execute; execution = completed; verdict = some pass }

abbrev failed : CaseState
failed = record { disposition = execute; execution = completed; verdict = some fail }

abbrev old : Baseline
old = record {
  schema_version = baseline_schema_version;
  name = "main";
  profile_digest = "p";
  pack_digest = "k";
  support_lock_digest = "s";
  denominator_digest = "d";
  cases = some (("a", passed) ∷ ("b", failed) ∷ []);
}

abbrev new : Baseline
new = record old { cases = some (("a", failed) ∷ []) }

abbrev as_is : List String → List String
as_is ids = ids

abbrev changes : List Difference
changes =
    record { scenario_id = "b"; change = no_longer_tested; before = some failed; after = none }
    ∷ record { scenario_id = "a"; change = regression; before = some passed; after = some failed }
    ∷ []

compared : compare checks as_is old new ≡ ok changes
unfolding compare is_valid_baseline is_valid_case same_identity difference add_ids classify
    is_failure lookup
compared = refl

compare-Compared_example : Compared old new changes
compare-Compared_example =
    compare-Compared checks as_is (λ id ids. refl) (λ ids h. h) old new changes compared
