-- ===== src/Planner/Checks.antt =====
-- The checks of branches and decisions in pkg/schema/plan.go.
use agentapi_doctor.Common.{
  ℕ, ◌+◌, String, Bool, true, false, not, ◌&&◌, ◌||◌, List, [], ◌∷◌, Option, none, some, ◌==◌,
  string_eq, ltb, if◌then◌else◌, is_some, lookup, insert, Result, ok, err,
}
use agentapi_doctor.Planner.{
  Error, duplicate_scenario, invalid_scenario_id, invalid_disposition, reason_required,
  invalid_driver, unknown_dependency, later_dependency, invalid_branch, duplicate_branch,
  Disposition, execute, undefined, ArtifactPin, ConditionalBranch, ScenarioDecision, Set,
}

abbrev is_empty : List String → Bool
is_empty [] = true
is_empty (x ∷ xs) = false

unfoldable pub is_disposition : Disposition → Bool
is_disposition (undefined s) = false
is_disposition d = true

abbrev pub is_execute : Disposition → Bool
is_execute execute = true
is_execute d = false

module _ (is_kind is_name is_digest : String → Bool) where
  -- `validateIntentBranches`.
  unfoldable pub check_branches : Set → List ConditionalBranch → Option Error
  check_branches seen [] = none
  check_branches seen (branch ∷ rest) =
      let after = check_branches (insert branch.capability tt seen) rest in
      if not (is_name branch.capability) || is_empty branch.scenarios
      then some invalid_branch
      else if is_some (lookup branch.capability seen)
      then some duplicate_branch
      else after

  -- `ArtifactPin.Validate`.
  unfoldable pub is_valid_pin : ArtifactPin → Bool
  is_valid_pin pin =
      is_kind pin.kind
      && is_name pin.name
      && not (pin.version == "" || pin.version == "latest")
      && is_digest pin.digest

  -- The first loop of `validateScenarioDAG`: each id with its index.
  unfoldable pub index_decisions :
      List (String × ℕ) → ℕ → List ScenarioDecision → Result Error (List (String × ℕ))
  index_decisions seen index [] = ok seen
  index_decisions seen index (decision ∷ rest) =
      let after = index_decisions (insert decision.scenario_id index seen) (index + 1) rest in
      if not (is_name decision.scenario_id)
      then err invalid_scenario_id
      else if is_some (lookup decision.scenario_id seen)
      then err duplicate_scenario
      else if not (is_disposition decision.disposition)
      then err invalid_disposition
      else if not (is_execute decision.disposition) && decision.reason_code == ""
      then err reason_required
      else if not (is_valid_pin decision.driver)
      then err invalid_driver
      else after

  -- Its second loop.
  unfoldable pub check_dependencies : List (String × ℕ) → ℕ → List String → Option Error
  check_dependencies seen index [] = none
  check_dependencies seen index (dependency ∷ rest) = elim (lookup dependency seen) [
    | none ↦ some unknown_dependency
    | some earlier ↦
        let after = check_dependencies seen index rest in
        if not (ltb earlier index) then some later_dependency else after
  ]

  unfoldable pub check_order : List (String × ℕ) → ℕ → List ScenarioDecision → Option Error
  check_order seen index [] = none
  check_order seen index (decision ∷ rest) =
      elim (check_dependencies seen index decision.depends_on) [
        | some e ↦ some e
        | none ↦ check_order seen (index + 1) rest
      ]

  unfoldable pub validate_scenario_dag : List ScenarioDecision → Option Error
  validate_scenario_dag decisions = elim (index_decisions [] 0 decisions) [
    | err e ↦ some e
    | ok seen ↦ check_order seen 0 decisions
  ]
