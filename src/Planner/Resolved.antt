-- ===== src/Planner/Resolved.antt =====
-- What a resolution of internal/planner/planner.go decides, from the observations alone.
use agentapi_doctor.Common.{
  ◌≡◌, String, Bool, true, List, map, all, ok, arith, Result-cases, inl, inr,
}
use agentapi_doctor.Planner.{
  ScenarioCandidate, ConditionalBranch, Observation, ScenarioDecision, Facts,
}
use agentapi_doctor.Planner.Branches.{allowed_branches}
use agentapi_doctor.Planner.Resolution.{applicable_ids, collect_facts, resolve_scenarios}
use agentapi_doctor.Planner.Facts.{Collected, collect_facts-Collected}
use agentapi_doctor.Planner.Dispositions.{decision_of, decide_all-decision_of}
use agentapi_doctor.Planner.Permission.{admits, all_permitted-admits}

module _ (sort : List String → List String) {Ref : Type 0} (same_ref : Ref → Ref → Bool) where
  -- The facts are those of the observations; the plan's branches authorize each candidate, and it has
  -- the decision that its capabilities and the facts give it; the denominator has the ids of those
  -- that apply.
  pub record Resolved (intent : Ref) (branches : List ConditionalBranch)
      (observations : List (Observation Ref)) (candidates : List ScenarioCandidate) (facts : Facts)
      (r : List ScenarioDecision × List Ref × List String) : Type 0 where
    pub collected : Collected same_ref intent observations facts r.1
    pub permitted : all (admits branches) candidates ≡ true
    pub decided : r.0 ≡ map (decision_of facts) candidates
    pub counted : r.2 ≡ sort (applicable_ids r.0)

  -- A resolution that succeeds has used only observations of its own plan, which agree with each
  -- other on every capability, and only scenarios that the plan's branches authorize: for each
  -- capability of a scenario, the last branch of that name lists it; a scenario is decided by the
  -- facts alone, whatever the order of its capabilities and of the observations.
  pub resolve_scenarios-Resolved :
      (intent : Ref) (branches : List ConditionalBranch) (observations : List (Observation Ref))
      (candidates : List ScenarioCandidate) (r : List ScenarioDecision × List Ref × List String)
      → resolve_scenarios sort same_ref intent branches observations candidates ≡ ok r
      → (facts : Facts) × Resolved intent branches observations candidates facts r
  unfolding resolve_scenarios
  resolve_scenarios-Resolved intent branches observations candidates r h =
      elim (Result-cases (collect_facts same_ref intent observations)) [
        | inl (e, failed) ↦ absurd (ground (arith, h, failed))
        | inr (found, collected) ↦
            let decides = decide_all-decision_of (allowed_branches branches) found.0 candidates in
            (
              found.0,
              record {
                collected =
                    collect_facts-Collected same_ref intent observations found.0 r.1
                      (ground (arith, h, collected, decides));
                permitted =
                    ground (arith, h, collected, decides, all_permitted-admits branches candidates);
                decided = ground (arith, h, collected, decides);
                counted = ground (arith, h, collected, decides);
              },
            )
      ]
