-- ===== src/Planner.antt =====
-- internal/planner/planner.go and the checks of the plans in pkg/schema/plan.go: which scenarios a run
-- may execute. Sealing, the copies of fields and the JSON of a plan are left out; sorting and the
-- checks of names and artifacts are parameters. The texts of errors are left out.
pub mod Branches
pub mod Resolution
pub mod Checks
pub mod Facts
pub mod Permission
pub mod Resolved
pub mod Dispositions
pub mod Authorization
pub mod Dependencies
pub mod Tests
use agentapi_doctor.Common.{
  ℕ, ◌+◌, String, Bool, true, false, not, ◌&&◌, ◌||◌, List, [], ◌∷◌, ◌++◌, map, Option, none, some,
  ◌==◌, string_eq, Eq, eqb, ltb, if◌then◌else◌, is_some, lookup, insert, Result, ok, err,
}

pub data Error : Type 0 where
  no_scenarios scenario_id_required duplicate_scenario foreign_observation conflicting_facts
        unauthorized :
      Error
  invalid_scenario_id invalid_disposition reason_required invalid_driver unknown_dependency
        later_dependency invalid_branch :
      Error
  duplicate_branch : Error

pub data CapabilityStatus : Type 0 where
  supported unsupported unknown : CapabilityStatus
  other : String → CapabilityStatus

pub data Disposition : Type 0 where
  execute skip not_applicable : Disposition
  undefined : String → Disposition

pub record ArtifactPin : Type 0 where
  pub kind : String
  pub name : String
  pub version : String
  pub digest : String

pub record ScenarioCandidate : Type 0 where
  pub id : String
  pub capabilities : List String
  pub driver : ArtifactPin
  pub depends_on : List String

pub record ConditionalBranch : Type 0 where
  pub capability : String
  pub scenarios : List String

pub record CapabilityFact : Type 0 where
  pub capability : String
  pub status : CapabilityStatus

-- An observation, with the reference to its plan and its own.
pub record Observation (Ref : Type 0) : Type 0 where
  pub intent_plan_ref : Ref
  pub object_ref : Ref
  pub facts : List CapabilityFact

pub record ScenarioDecision : Type 0 where
  pub scenario_id : String
  pub disposition : Disposition
  pub reason_code : String
  pub driver : ArtifactPin
  pub depends_on : List String

abbrev pub Facts : Type 0
Facts = List (String × CapabilityStatus)

abbrev pub Set : Type 0
Set = List (String × Unit {0})
