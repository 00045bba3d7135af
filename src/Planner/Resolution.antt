-- ===== src/Planner/Resolution.antt =====
-- The decisions on the scenarios: `collectFacts` and `Resolve` of internal/planner/planner.go.
use agentapi_doctor.Common.{
  String, Bool, true, false, not, List, [], ◌∷◌, ◌++◌, Option, none, some, ◌==◌, string_eq,
  if◌then◌else◌, lookup, insert, Result, ok, err,
}
use agentapi_doctor.Planner.{
  Error, foreign_observation, conflicting_facts, unauthorized, CapabilityStatus, supported,
  unsupported, unknown, other, Disposition, execute, skip, not_applicable, ScenarioCandidate,
  ConditionalBranch, CapabilityFact, Observation, ScenarioDecision, Facts, Set,
}
use agentapi_doctor.Planner.Branches.{is_authorized, allowed_branches}

unfoldable pub same_status : CapabilityStatus → CapabilityStatus → Bool
same_status supported supported = true
same_status unsupported unsupported = true
same_status unknown unknown = true
same_status (other s) (other t) = s == t
same_status s t = false

-- `collectFacts`, its inner and its outer loop.
unfoldable pub add_facts : Facts → List CapabilityFact → Result Error Facts
add_facts facts [] = ok facts
add_facts facts (fact ∷ rest) =
    let after = add_facts (insert fact.capability fact.status facts) rest in
    elim (lookup fact.capability facts) [
      | none ↦ after
      | some existing ↦ if same_status existing fact.status then after else err conflicting_facts
    ]

module _ {Ref : Type 0} (same_ref : Ref → Ref → Bool) where
  unfoldable pub collect_observations :
      Ref → Facts → List Ref → List (Observation Ref) → Result Error (Facts × List Ref)
  collect_observations intent facts refs [] = ok (facts, refs)
  collect_observations intent facts refs (observation ∷ rest) =
      if not (same_ref observation.intent_plan_ref intent)
      then err foreign_observation
      else elim (add_facts facts observation.facts) [
        | err e ↦ err e
        | ok after ↦ collect_observations intent after (refs ++ observation.object_ref ∷ []) rest
      ]

  unfoldable pub collect_facts : Ref → List (Observation Ref) → Result Error (Facts × List Ref)
  collect_facts intent observations = collect_observations intent [] [] observations

-- What a capability makes of the disposition and its reason so far.
unfoldable pub note_unknown : Disposition × String → Disposition × String
note_unknown (execute, reason) = (skip, "not_observed")
note_unknown (d, reason) = (d, reason)

unfoldable pub note_capability :
    Option CapabilityStatus → Disposition × String → Disposition × String
note_capability none so_far = note_unknown so_far
note_capability (some supported) so_far = so_far
note_capability (some unsupported) so_far = (not_applicable, "unsupported_capability")
note_capability (some unknown) so_far = note_unknown so_far
note_capability (some (other s)) so_far = if s == "" then note_unknown so_far else so_far

-- The loops of `Resolve` over the capabilities of a candidate, and over the candidates.
module _ (allowed : List (String × Set)) (facts : Facts) where
  unfoldable pub dispose :
      String → Disposition × String → List String → Result Error (Disposition × String)
  dispose id so_far [] = ok so_far
  dispose id so_far (capability ∷ rest) =
      let after = dispose id (note_capability (lookup capability facts) so_far) rest in
      if is_authorized allowed capability id then after else err unauthorized

  unfoldable pub decide : ScenarioCandidate → Result Error ScenarioDecision
  decide candidate = elim (dispose candidate.id (execute, "") candidate.capabilities) [
    | err e ↦ err e
    | ok d ↦ ok (record {
      scenario_id = candidate.id;
      disposition = d.0;
      reason_code = d.1;
      driver = candidate.driver;
      depends_on = candidate.depends_on;
    })
  ]

  unfoldable pub decide_all : List ScenarioCandidate → Result Error (List ScenarioDecision)
  decide_all [] = ok []
  decide_all (candidate ∷ rest) = elim (decide candidate) [
    | err e ↦ err e
    | ok decision ↦ elim (decide_all rest) [
      | err e ↦ err e
      | ok decisions ↦ ok (decision ∷ decisions)
    ]
  ]

-- The ids that count in the denominator.
unfoldable pub applicable_ids : List ScenarioDecision → List String
applicable_ids [] = []
applicable_ids (decision ∷ rest) = elim decision.disposition [
  | not_applicable ↦ applicable_ids rest
  | _ ↦ decision.scenario_id ∷ applicable_ids rest
]

module _ (sort : List String → List String) where
  -- The decisions of `Resolve`, the references of the observations, and the ids of its denominator.
  unfoldable pub resolve_scenarios :
      {Ref : Type 0} (same_ref : Ref → Ref → Bool)
      → Ref
      → List ConditionalBranch
      → List (Observation Ref)
      → List ScenarioCandidate
      → Result Error (List ScenarioDecision × List Ref × List String)
  resolve_scenarios same_ref intent branches observations candidates =
      elim (collect_facts same_ref intent observations) [
        | err e ↦ err e
        | ok found ↦ elim (decide_all (allowed_branches branches) found.0 candidates) [
          | err e ↦ err e
          | ok decisions ↦ ok (decisions, found.1, sort (applicable_ids decisions))
        ]
      ]
