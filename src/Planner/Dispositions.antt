-- ===== src/Planner/Dispositions.antt =====
-- The decisions of `Resolve` in internal/planner/planner.go against an account that no order matters to.
use agentapi_doctor.Common.{
  ◌≡◌, String, Bool, true, false, ◌||◌, List, [], ◌∷◌, map, Option, none, some, ◌==◌, string_eq,
  if◌then◌else◌, all, any, lookup, Result, ok, err, arith, refl,
}
use agentapi_doctor.Planner.{
  Error, unauthorized, CapabilityStatus, unsupported, unknown, other, Disposition, execute, skip,
  not_applicable, ScenarioCandidate, ScenarioDecision, Facts, Set,
}
use agentapi_doctor.Planner.Branches.{is_authorized}
use agentapi_doctor.Planner.Resolution.{note_unknown, note_capability, dispose, decide, decide_all}

abbrev is_unsupported : Option CapabilityStatus → Bool
is_unsupported (some unsupported) = true
is_unsupported o = false

-- Not observed, or observed with no answer.
abbrev is_unknown : Option CapabilityStatus → Bool
is_unknown none = true
is_unknown (some unknown) = true
is_unknown (some (other s)) = s == ""
is_unknown o = false

abbrev combine : Bool → Bool → Disposition × String → Disposition × String
combine true unclear so_far = (not_applicable, "unsupported_capability")
combine false true so_far = note_unknown so_far
combine false false so_far = so_far

module _ (facts : Facts) where
  -- One unsupported capability excludes a scenario; otherwise one that is not known skips it.
  unfoldable pub disposition_of : List String → Disposition × String
  disposition_of capabilities =
      if any (λ c. is_unsupported (lookup c facts)) capabilities
      then (not_applicable, "unsupported_capability")
      else if any (λ c. is_unknown (lookup c facts)) capabilities
      then (skip, "not_observed")
      else (execute, "")

  unfoldable pub decision_of : ScenarioCandidate → ScenarioDecision
  decision_of candidate = record {
    scenario_id = candidate.id;
    disposition = (disposition_of candidate.capabilities).0;
    reason_code = (disposition_of candidate.capabilities).1;
    driver = candidate.driver;
    depends_on = candidate.depends_on;
  }

module _ (allowed : List (String × Set)) where
  unfoldable pub is_permitted : ScenarioCandidate → Bool
  is_permitted candidate = all (λ c. is_authorized allowed c candidate.id) candidate.capabilities

module _ (allowed : List (String × Set)) (facts : Facts) where
  abbrev outcome_of : Bool → Disposition × String → Result Error (Disposition × String)
  outcome_of true d = ok d
  outcome_of false d = err unauthorized

  combine_note :
      (o : Option CapabilityStatus) (so_far : Disposition × String) (excluded unclear : Bool)
      → combine excluded unclear (note_capability o so_far)
        ≡ combine (is_unsupported o || excluded) (is_unknown o || unclear) so_far
  unfolding note_capability note_unknown
  combine_note o so_far excluded unclear = ground arith

  dispose-combine :
      (id : String) (so_far : Disposition × String) (capabilities : List String)
      → dispose allowed facts id so_far capabilities
        ≡ outcome_of (all (λ c. is_authorized allowed c id) capabilities) (
            combine
              (any (λ c. is_unsupported (lookup c facts)) capabilities)
              (any (λ c. is_unknown (lookup c facts)) capabilities)
              so_far)
  unfolding dispose
  dispose-combine id so_far [] = refl
  dispose-combine id so_far (capability ∷ rest) = ground (
    arith,
    dispose-combine id (note_capability (lookup capability facts) so_far) rest,
    combine_note (lookup capability facts) so_far (any (λ c. is_unsupported (lookup c facts)) rest)
        (any (λ c. is_unknown (lookup c facts)) rest),
  )

  decide-decision_of :
      (candidate : ScenarioCandidate)
      → decide allowed facts candidate ≡ (
          if is_permitted allowed candidate
          then ok (decision_of facts candidate)
          else err unauthorized)
  unfolding decide decision_of disposition_of is_permitted note_unknown
  decide-decision_of candidate =
      ground (arith, dispose-combine candidate.id (execute, "") candidate.capabilities)

  pub decide_all-decision_of :
      (candidates : List ScenarioCandidate)
      → decide_all allowed facts candidates ≡ (
          if all (is_permitted allowed) candidates
          then ok (map (decision_of facts) candidates)
          else err unauthorized)
  unfolding decide_all
  decide_all-decision_of [] = refl
  decide_all-decision_of (candidate ∷ rest) =
      ground (arith, decide-decision_of candidate, decide_all-decision_of rest)
