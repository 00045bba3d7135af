-- ===== src/Planner/Tests.antt =====
-- A small plan of internal/planner/planner.go, and the theorems at it.
use agentapi_doctor.Common.{
  ◌≡◌, ◌↔◌, String, Bool, true, not, ◌&&◌, List, [], ◌∷◌, map, none, refl, ◌==◌, string_eq, ok,
  lookup, insert,
}
use agentapi_doctor.Planner.{
  ArtifactPin, ScenarioCandidate, ScenarioDecision, ConditionalBranch, Observation, Facts,
  supported, unsupported, execute, not_applicable,
}
use agentapi_doctor.Planner.Branches.{
  build_branches, collect_branches, add_capabilities, scenarios_of, allowed_branches,
  allow_branches, is_authorized,
}
use agentapi_doctor.Planner.Resolution.{
  resolve_scenarios, collect_facts, collect_observations, add_facts, decide_all, decide, dispose,
  note_capability, applicable_ids,
}
use agentapi_doctor.Planner.Checks.{validate_scenario_dag}
use agentapi_doctor.Planner.Dispositions.{decision_of}
use agentapi_doctor.Planner.Resolved.{Resolved, resolve_scenarios-Resolved}
use agentapi_doctor.Planner.Authorization.{built_branches_decide}
use agentapi_doctor.Planner.Dependencies.{distinct, ordered, validate_scenario_dag-ordered}

abbrev driver : ArtifactPin
driver = record { kind = "Driver"; name = "raw"; version = "1"; digest = "d" }

abbrev streaming : ScenarioCandidate
streaming = record { id = "stream"; capabilities = "sse" ∷ []; driver = driver; depends_on = [] }

abbrev calling : ScenarioCandidate
calling = record {
  id = "call";
  capabilities = "sse" ∷ "tools" ∷ [];
  driver = driver;
  depends_on = "stream" ∷ [];
}

abbrev candidates : List ScenarioCandidate
candidates = streaming ∷ calling ∷ []

abbrev as_is : List String → List String
as_is names = names

abbrev branches : List ConditionalBranch
branches =
    record { capability = "sse"; scenarios = "stream" ∷ "call" ∷ [] }
    ∷ record { capability = "tools"; scenarios = "call" ∷ [] }
    ∷ []

branches_built : build_branches as_is candidates ≡ ok branches
unfolding build_branches collect_branches add_capabilities scenarios_of lookup insert
branches_built = refl

abbrev same_text : String → String → Bool
same_text a b = a == b

abbrev observation : Observation String
observation = record {
  intent_plan_ref = "plan";
  object_ref = "seen";
  facts =
      record { capability = "sse"; status = supported }
      ∷ record { capability = "tools"; status = unsupported }
      ∷ [];
}

abbrev decisions : List ScenarioDecision
decisions =
    record {
      scenario_id = "stream";
      disposition = execute;
      reason_code = "";
      driver = driver;
      depends_on = [];
    }
    ∷ record {
      scenario_id = "call";
      disposition = not_applicable;
      reason_code = "unsupported_capability";
      driver = driver;
      depends_on = "stream" ∷ [];
    }
    ∷ []

plan_resolved :
    resolve_scenarios as_is same_text "plan" branches (observation ∷ []) candidates
    ≡ ok (decisions, "seen" ∷ [], "stream" ∷ [])
unfolding resolve_scenarios collect_facts collect_observations add_facts decide_all decide dispose
    note_capability applicable_ids allowed_branches allow_branches is_authorized lookup insert
plan_resolved = refl

resolve_scenarios-Resolved_example :
    (facts : Facts) × Resolved as_is same_text "plan" branches
      (observation ∷ [])
      candidates
      facts
      (decisions, "seen" ∷ [], "stream" ∷ [])
resolve_scenarios-Resolved_example =
    resolve_scenarios-Resolved as_is same_text "plan" branches (observation ∷ []) candidates
      (decisions, "seen" ∷ [], "stream" ∷ []) plan_resolved

built_branches_decide_example :
    decide_all (allowed_branches branches) [] candidates ≡ ok (map (decision_of []) candidates)
built_branches_decide_example =
    built_branches_decide as_is (λ x xs. refl) candidates branches [] branches_built

abbrev is_named : String → Bool
is_named s = not (s == "")

validate_scenario_dag-ordered_example :
    (validate_scenario_dag is_named is_named is_named decisions ≡ none)
    ↔ (distinct is_named is_named is_named [] decisions && ordered [] decisions ≡ true)
validate_scenario_dag-ordered_example =
    validate_scenario_dag-ordered is_named is_named is_named decisions
