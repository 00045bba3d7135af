-- ===== src/Planner/Branches.antt =====
-- The branches of a plan: `BuildIntent` and `allowedBranches` of internal/planner/planner.go.
use agentapi_doctor.Common.{
  String, Bool, false, List, [], ◌∷◌, ◌++◌, map, none, some, ◌==◌, string_eq, if◌then◌else◌,
  is_some, lookup, insert, Result, ok, err,
}
use agentapi_doctor.Planner.{
  Error, no_scenarios, scenario_id_required, duplicate_scenario, ScenarioCandidate,
  ConditionalBranch, Set,
}

-- The branches of `BuildIntent`: the scenarios of each capability, in the order they come.
unfoldable pub scenarios_of : String → List (String × List String) → List String
scenarios_of capability branches = elim (lookup capability branches) [ none ↦ [] | some ids ↦ ids ]

unfoldable pub add_capabilities :
    List (String × List String) → String → List String → List (String × List String)
add_capabilities branches id [] = branches
add_capabilities branches id (capability ∷ rest) =
    add_capabilities (insert capability (scenarios_of capability branches ++ id ∷ []) branches) id
      rest

-- The loop of `BuildIntent` over the candidates.
unfoldable pub collect_branches :
    List (String × List String)
    → Set
    → List ScenarioCandidate
    → Result Error (List (String × List String))
collect_branches branches seen [] = ok branches
collect_branches branches seen (scenario ∷ rest) =
    let after =
      collect_branches (add_capabilities branches scenario.id scenario.capabilities)
        (insert scenario.id tt seen) rest in
    if scenario.id == ""
    then err scenario_id_required
    else if is_some (lookup scenario.id seen)
    then err duplicate_scenario
    else after

abbrev pub keys {ℓ} : {A : Type ℓ} → List (String × A) → List String
keys [] = []
keys ((key, value) ∷ rest) = key ∷ keys rest

-- `allowedBranches`: a set of scenarios for each capability.
abbrev pub set_of : List String → Set
set_of [] = []
set_of (id ∷ rest) = insert id tt (set_of rest)

unfoldable pub allow_branches : List (String × Set) → List ConditionalBranch → List (String × Set)
allow_branches allowed [] = allowed
allow_branches allowed (branch ∷ rest) =
    allow_branches (insert branch.capability (set_of branch.scenarios) allowed) rest

unfoldable pub allowed_branches : List ConditionalBranch → List (String × Set)
allowed_branches branches = allow_branches [] branches

unfoldable pub is_authorized : List (String × Set) → String → String → Bool
is_authorized allowed capability id = elim (lookup capability allowed) [
  | none ↦ false
  | some ids ↦ is_some (lookup id ids)
]

module _ (sort : List String → List String) where
  abbrev pub branch_of : List (String × List String) → String → ConditionalBranch
  branch_of branches capability = record {
    capability = capability;
    scenarios = sort (scenarios_of capability branches);
  }

  -- The conditional branches of `BuildIntent`.
  unfoldable pub build_branches : List ScenarioCandidate → Result Error (List ConditionalBranch)
  build_branches [] = err no_scenarios
  build_branches (scenario ∷ rest) = elim (collect_branches [] [] (scenario ∷ rest)) [
    | err e ↦ err e
    | ok branches ↦ ok (map (branch_of branches) (sort (keys branches)))
  ]
