-- ===== src/Planner/Dependencies.antt =====
-- The order of the scenarios of a plan, which `validateScenarioDAG` of pkg/schema/plan.go checks.
use agentapi_doctor.Common.{
  ℕ, ◌+◌, ◌<◌, ◌≡◌, ◌↔◌, String, Bool, true, false, not, ◌&&◌, ◌||◌, List, [], ◌∷◌, none, some,
  ◌==◌, string_eq, ltb, is_some, all, any, lookup, insert, Result, ok, err, arith, refl,
  Result-cases, inl, inr, lookup-insert, lookup-insert_self,
}
use agentapi_doctor.Planner.{Error, ScenarioDecision}
use agentapi_doctor.Planner.Checks.{
  is_disposition, is_execute, is_valid_pin, index_decisions, check_dependencies, check_order,
  validate_scenario_dag,
}

abbrev Index : Type 0
Index = List (String × ℕ)

abbrev has_id : String → ScenarioDecision → Bool
has_id id decision = decision.scenario_id == id

-- Where an id stands before an index.
abbrev stands_before : Index → ℕ → String → Bool
stands_before seen index id = elim (lookup id seen) [ none ↦ false | some at ↦ ltb at index ]

-- Each entry depends on earlier ones only; the entries before stand in reverse order.
unfoldable pub ordered : List ScenarioDecision → List ScenarioDecision → Bool
ordered earlier [] = true
ordered earlier (d ∷ rest) =
    all (λ id. any (has_id id) earlier) d.depends_on && ordered (d ∷ earlier) rest

-- The ids of a list that starts at an index stand where they are found, and nothing stands behind it.
Indexed : Index → ℕ → List ScenarioDecision → Type 0
Indexed seen index [] = (id : String) (at : ℕ) → lookup id seen ≡ some at → at < index
Indexed seen index (d ∷ rest) =
    (lookup d.scenario_id seen ≡ some index)
    × ((id : String) → lookup id seen ≡ some index → id ≡ d.scenario_id)
    × Indexed seen (index + 1) rest

-- The entries below an index are the same.
abbrev Agrees : Index → Index → ℕ → Type 0
Agrees before after index =
    (id : String) (at : ℕ) → at < index → (lookup id after ≡ some at) ↔ (lookup id before ≡ some at)

abbrev Below : Index → ℕ → Type 0
Below seen index = (id : String) (at : ℕ) → lookup id seen ≡ some at → at < index

insert-Below :
    (name : String) (seen : Index) (index : ℕ)
    → Below seen index
    → Below (insert name index seen) (index + 1)
insert-Below name seen index below id at found =
    ground (arith, found, below id at, lookup-insert name id index seen)

newest :
    (name id : String) (seen : Index) (index : ℕ)
    → Below seen index
    → lookup id (insert name index seen) ≡ some index
    → id ≡ name
newest name id seen index below found =
    ground
      (arith, found, below id index, lookup-insert name id index seen, string_eq.test_iff name id)

insert-Agrees :
    (name : String) (seen after : Index) (index : ℕ)
    → lookup name seen ≡ none
    → Agrees (insert name index seen) after (index + 1)
    → Agrees seen after index
insert-Agrees name seen after index fresh same id at low = ground (
  arith,
  low,
  fresh,
  same id at (omega (arith, low)),
  lookup-insert name id index seen,
  string_eq.test_iff name id,
)

all_same :
    (p q : String → Bool) (xs : List String) → ((x : String) → p x ≡ q x) → all p xs ≡ all q xs
all_same p q [] h = refl
all_same p q (x ∷ xs) h = ground (arith, h x, all_same p q xs h)

placed_next :
    (seen : Index) (index : ℕ) (earlier : List ScenarioDecision) (d : ScenarioDecision)
    {id : String}
    → lookup d.scenario_id seen ≡ some index
    → (lookup id seen ≡ some index → id ≡ d.scenario_id)
    → stands_before seen index id ≡ any (has_id id) earlier
    → stands_before seen (index + 1) id ≡ any (has_id id) (d ∷ earlier)
placed_next seen index earlier d {id} here only placed =
    ground (arith, here, only, placed, string_eq.test_iff d.scenario_id id)

module _ (is_kind is_name is_digest : String → Bool) where
  -- An entry that may stand in a plan, whatever the others are.
  unfoldable pub is_fine : ScenarioDecision → Bool
  is_fine d =
      is_name d.scenario_id
      && is_disposition d.disposition
      && (is_execute d.disposition || not (d.reason_code == ""))
      && is_valid_pin is_kind is_name is_digest d.driver

  -- Each entry is fine and has an id of its own.
  unfoldable pub distinct : List ScenarioDecision → List ScenarioDecision → Bool
  distinct earlier [] = true
  distinct earlier (d ∷ rest) =
      is_fine d && not (any (has_id d.scenario_id) earlier) && distinct (d ∷ earlier) rest

  abbrev number : Index → ℕ → List ScenarioDecision → Result Error Index
  number = index_decisions is_kind is_name is_digest

  index_decisions-Indexed :
      (seen : Index) (index : ℕ) (ds : List ScenarioDecision) (after : Index)
      → Below seen index
      → number seen index ds ≡ ok after
      → Indexed after index ds × Agrees seen after index
  unfolding Indexed index_decisions
  index_decisions-Indexed seen index [] after below h =
      (λ id at found. ground (arith, h, found, below id at), λ id at low. ground (arith, h))
  index_decisions-Indexed seen index (d ∷ rest) after below h =
      let fresh : lookup d.scenario_id seen ≡ none = ground (arith, h) in
      let later =
        index_decisions-Indexed (insert d.scenario_id index seen) (index + 1) rest after
          (insert-Below d.scenario_id seen index below) (ground (arith, h)) in
      (
        (
          (later.1 d.scenario_id index (omega arith)).1
              (lookup-insert_self d.scenario_id index seen),
          λ id found.
              newest d.scenario_id id seen index below ((later.1 id index (omega arith)).0 found),
          later.0,
        ),
        insert-Agrees d.scenario_id seen after index fresh later.1,
      )

  abbrev is_ok : Result Error Index → Bool
  is_ok (ok seen) = true
  is_ok (err e) = false

  index_decisions-distinct :
      (seen : Index) (index : ℕ) (earlier ds : List ScenarioDecision)
      → ((id : String) → is_some (lookup id seen) ≡ any (has_id id) earlier)
      → is_ok (number seen index ds) ≡ distinct earlier ds
  unfolding index_decisions distinct is_fine
  index_decisions-distinct seen index earlier [] knows = refl
  index_decisions-distinct seen index earlier (d ∷ rest) knows = ground (
    arith,
    knows d.scenario_id,
    index_decisions-distinct (insert d.scenario_id index seen) (index + 1) (d ∷ earlier) rest
        (λ id. ground (arith, knows id, lookup-insert d.scenario_id id index seen)),
  )

  check_dependencies-all :
      (seen : Index) (index : ℕ) (ids : List String)
      → not (is_some (check_dependencies is_kind is_name is_digest seen index ids))
        ≡ all (stands_before seen index) ids
  unfolding check_dependencies
  check_dependencies-all seen index [] = refl
  check_dependencies-all seen index (id ∷ ids) =
      ground (arith, check_dependencies-all seen index ids)

  check_order-ordered :
      (seen : Index) (index : ℕ) (earlier ds : List ScenarioDecision)
      → Indexed seen index ds
      → ((id : String) → stands_before seen index id ≡ any (has_id id) earlier)
      → not (is_some (check_order is_kind is_name is_digest seen index ds)) ≡ ordered earlier ds
  unfolding check_order ordered Indexed
  check_order-ordered seen index earlier [] indexed placed = refl
  check_order-ordered seen index earlier (d ∷ rest) indexed placed = ground (
    arith,
    check_dependencies-all seen index d.depends_on,
    all_same (stands_before seen index) (λ id. any (has_id id) earlier) d.depends_on placed,
    check_order-ordered seen (index + 1) (d ∷ earlier) rest indexed.2
        (λ id. placed_next seen index earlier d indexed.0 (indexed.1 id) (placed id)),
  )

  -- A plan passes exactly when each entry may stand in a plan and has an id of its own, and depends
  -- only on entries that stand before it: what it accepts can be run from the front, and has no cycle.
  pub validate_scenario_dag-ordered :
      (ds : List ScenarioDecision)
      → (validate_scenario_dag is_kind is_name is_digest ds ≡ none)
        ↔ (distinct [] ds && ordered [] ds ≡ true)
  unfolding validate_scenario_dag lookup
  validate_scenario_dag-ordered ds =
      let numbered = index_decisions-distinct [] 0 [] ds (λ id. refl) in
      elim (Result-cases (number [] 0 ds)) [
        | inl (e, failed) ↦ ground (arith, numbered, failed)
        | inr (seen, e) ↦
            let indexed =
              index_decisions-Indexed [] 0 ds seen (λ id at h. absurd (ground (arith, h))) e in
            ground
              (arith, numbered, e, check_order-ordered seen 0 [] ds indexed.0 (λ id. ground arith))
      ]
