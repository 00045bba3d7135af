-- ===== src/Planner/Facts.antt =====
-- What `collectFacts` of internal/planner/planner.go takes from the observations.
use agentapi_doctor.Common.{
  ◌≡◌, String, Bool, true, ◌||◌, List, [], ◌∷◌, ◌++◌, map, some, ◌==◌, string_eq, is_some, all, any,
  All, lookup, insert, ok, arith, refl, Result-cases, inl, inr, lookup-insert, lookup-insert_self,
  ap, ◌∙◌,
}
use mathlib.Core.List.{append_assoc, append-nil}
use agentapi_doctor.Planner.{
  CapabilityStatus, supported, unsupported, unknown, other, CapabilityFact, Observation, Facts,
}
use agentapi_doctor.Planner.Resolution.{same_status, add_facts, collect_observations, collect_facts}

-- The facts say what this one says.
abbrev pub Told : Facts → CapabilityFact → Type 0
Told facts fact = lookup fact.capability facts ≡ some fact.status

abbrev names : String → CapabilityFact → Bool
names capability fact = fact.capability == capability

abbrev Grows : Facts → Facts → Type 0
Grows facts after =
    (c : String) (s : CapabilityStatus) → lookup c facts ≡ some s → lookup c after ≡ some s

same_status_equal : (s t : CapabilityStatus) → same_status s t ≡ true → s ≡ t
unfolding same_status
same_status_equal (other s) (other t) h = ap other ((string_eq.test_iff s t).0 h)
same_status_equal supported t h = ground (arith, h)
same_status_equal unsupported t h = ground (arith, h)
same_status_equal unknown t h = ground (arith, h)
same_status_equal (other s) supported h = absurd (ground (arith, h))
same_status_equal (other s) unsupported h = absurd (ground (arith, h))
same_status_equal (other s) unknown h = absurd (ground (arith, h))

-- After some facts: nothing is lost, each is told, and no other capability is known.
record Added (facts : Facts) (fs : List CapabilityFact) (after : Facts) : Type 0 where
  pub grows : Grows facts after
  pub told : All (Told after) fs
  pub known : (c : String) → is_some (lookup c after) ≡ is_some (lookup c facts) || any (names c) fs

add_facts-Added :
    (facts : Facts) (fs : List CapabilityFact) (after : Facts)
    → add_facts facts fs ≡ ok after
    → Added facts fs after
unfolding add_facts
add_facts-Added facts [] after h = record {
  grows = λ c s known. ground (arith, h, known);
  told = tt;
  known = λ c. ground (arith, h);
}
add_facts-Added facts (fact ∷ rest) after h =
    let i : add_facts (insert fact.capability fact.status facts) rest ≡ ok after =
      ground (arith, h) in
    let more = add_facts-Added (insert fact.capability fact.status facts) rest after i in
    record {
      grows = λ c s known. more.grows c s (
          ground (
            arith,
            h,
            known,
            string_eq.test_iff fact.capability c,
            lookup-insert fact.capability c fact.status facts,
            same_status_equal s fact.status,
          ));
      told = (
        more.grows fact.capability fact.status
            (lookup-insert_self fact.capability fact.status facts),
        more.told,
      );
      known = λ c. ground (arith, more.known c, lookup-insert fact.capability c fact.status facts);
    }

All-Grows :
    (facts after : Facts) (fs : List CapabilityFact)
    → Grows facts after
    → All (Told facts) fs
    → All (Told after) fs
All-Grows facts after [] grows told = tt
All-Grows facts after (fact ∷ rest) grows told =
    (grows fact.capability fact.status told.0, All-Grows facts after rest grows told.1)

module _ {Ref : Type 0} (same_ref : Ref → Ref → Bool) where
  abbrev pub names_any : String → Observation Ref → Bool
  names_any capability observation = any (names capability) observation.facts

  -- All observations are of this plan, each fact of each is told, and nothing else is known.
  pub record Collected (intent : Ref) (observations : List (Observation Ref)) (facts : Facts)
      (refs : List Ref) : Type 0 where
    pub bound : all (λ o. same_ref o.intent_plan_ref intent) observations ≡ true
    pub told : All (λ o. All (Told facts) o.facts) observations
    pub known : (c : String) → is_some (lookup c facts) ≡ any (names_any c) observations
    pub sources : refs ≡ map (λ o. o.object_ref) observations

  record Grown (intent : Ref) (facts : Facts) (refs : List Ref)
      (observations : List (Observation Ref)) (after : Facts) (more : List Ref) : Type 0 where
    pub grows : Grows facts after
    pub bound : all (λ o. same_ref o.intent_plan_ref intent) observations ≡ true
    pub told : All (λ o. All (Told after) o.facts) observations
    pub known :
        (c : String)
        → is_some (lookup c after) ≡ is_some (lookup c facts) || any (names_any c) observations
    pub sources : more ≡ refs ++ map (λ o. o.object_ref) observations

  collect_observations-Grown :
      (intent : Ref) (facts : Facts) (refs : List Ref) (observations : List (Observation Ref))
      (after : Facts) (more : List Ref)
      → collect_observations same_ref intent facts refs observations ≡ ok (after, more)
      → Grown intent facts refs observations after more
  unfolding collect_observations
  collect_observations-Grown intent facts refs [] after more h = record {
    grows = λ c s known. ground (arith, h, known);
    bound = refl;
    told = tt;
    known = λ c. ground (arith, h);
    sources = ground (arith, h, append-nil refs);
  }
  collect_observations-Grown intent facts refs (o ∷ rest) after more h =
      elim (Result-cases (add_facts facts o.facts)) [
        | inl (e, failed) ↦ absurd (ground (arith, h, failed))
        | inr (next, added) ↦
            let a = add_facts-Added facts o.facts next added in
            let g =
              collect_observations-Grown intent next (refs ++ o.object_ref ∷ []) rest after more
                (ground (arith, h, added)) in
            record {
              grows = λ c s known. g.grows c s (a.grows c s known);
              bound = ground (arith, h, g.bound);
              told = (All-Grows next after o.facts g.grows a.told, g.told);
              known = λ c. ground (arith, g.known c, a.known c);
              sources =
                  g.sources ∙ append_assoc refs (o.object_ref ∷ []) (map (λ x. x.object_ref) rest);
            }
      ]

  pub collect_facts-Collected :
      (intent : Ref) (observations : List (Observation Ref)) (facts : Facts) (refs : List Ref)
      → collect_facts same_ref intent observations ≡ ok (facts, refs)
      → Collected intent observations facts refs
  unfolding collect_facts lookup
  collect_facts-Collected intent observations facts refs h =
      let g = collect_observations-Grown intent [] [] observations facts refs h in
      record { bound = g.bound; told = g.told; known = g.known; sources = g.sources }
