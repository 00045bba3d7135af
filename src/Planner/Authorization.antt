-- ===== src/Planner/Authorization.antt =====
-- The branches that `BuildIntent` of internal/planner/planner.go writes, and what `Resolve` reads of them.
use agentapi_doctor.Common.{
  ◌≡◌, String, Bool, true, ◌&&◌, ◌||◌, List, [], ◌∷◌, ◌++◌, map, ◌==◌, string_eq, if◌then◌else◌,
  is_some, all, any, All, lookup, insert, ok, arith, refl, Result-cases, inl, inr, lookup-insert,
  subst, sym,
}
use agentapi_doctor.Planner.{ScenarioCandidate, ConditionalBranch, Set, Facts}
use agentapi_doctor.Planner.Branches.{
  scenarios_of, add_capabilities, collect_branches, keys, set_of, allow_branches, allowed_branches,
  is_authorized, branch_of, build_branches,
}
use agentapi_doctor.Planner.Resolution.{decide_all}
use agentapi_doctor.Planner.Dispositions.{is_permitted, decision_of, decide_all-decision_of}

abbrev Branches : Type 0
Branches = List (String × List String)

abbrev pub is_in : String → List String → Bool
is_in x xs = any (λ y. y == x) xs

-- The scenario stands in the branch of the capability.
abbrev has : Branches → String → String → Bool
has branches capability id = is_in id (scenarios_of capability branches)

is_in-append : (x : String) (xs ys : List String) → is_in x (xs ++ ys) ≡ is_in x xs || is_in x ys
is_in-append x [] ys = refl
is_in-append x (y ∷ xs) ys = ground (arith, is_in-append x xs ys)

add_capabilities-has :
    (branches : Branches) (id : String) (capabilities : List String) (c i : String)
    → has (add_capabilities branches id capabilities) c i
      ≡ has branches c i || (is_in c capabilities && id == i)
unfolding add_capabilities scenarios_of
add_capabilities-has branches id [] c i = ground arith
add_capabilities-has branches id (capability ∷ rest) c i = ground (
  arith,
  add_capabilities-has (insert capability (scenarios_of capability branches ++ id ∷ []) branches) id
      rest c i,
  lookup-insert capability c (scenarios_of capability branches ++ id ∷ []) branches,
  is_in-append i (scenarios_of capability branches) (id ∷ []),
  string_eq.test_iff capability c,
)

-- Each candidate stands in the branch of each of its capabilities.
abbrev Covers : Branches → List ScenarioCandidate → Type 0
Covers branches candidates =
    All (λ s. all (λ c. has branches c s.id) s.capabilities ≡ true) candidates

all_in :
    (p : String → Bool) (xs : List String)
    → ((x : String) → is_in x xs ≡ true → p x ≡ true)
    → all p xs ≡ true
all_in p [] h = refl
all_in p (x ∷ xs) h =
    let first : p x ≡ true = h x (ground (arith, string_eq.test_iff x x)) in
    let rest = all_in p xs (λ y inside. h y (ground (arith, inside))) in ground (arith, first, rest)

all_kept :
    (p q : String → Bool) (xs : List String)
    → ((x : String) → p x ≡ true → q x ≡ true)
    → all p xs ≡ true
    → all q xs ≡ true
all_kept p q [] keeps h = refl
all_kept p q (x ∷ xs) keeps h =
    ground (arith, h, keeps x, all_kept p q xs keeps (ground (arith, h)))

collect_branches-Covers :
    (branches : Branches) (seen : Set) (candidates : List ScenarioCandidate) (after : Branches)
    → collect_branches branches seen candidates ≡ ok after
    → Covers after candidates × ((c i : String) → has branches c i ≡ true → has after c i ≡ true)
unfolding collect_branches
collect_branches-Covers branches seen [] after h = (tt, λ c i known. ground (arith, h, known))
collect_branches-Covers branches seen (s ∷ rest) after h =
    let added = add_capabilities branches s.id s.capabilities in
    let later =
      collect_branches-Covers added (insert s.id tt seen) rest after (ground (arith, h)) in
    (
      (
        all_in (λ c. has after c s.id) s.capabilities
            (λ c inside. later.1 c s.id (
              ground (
                arith,
                inside,
                add_capabilities-has branches s.id s.capabilities c s.id,
                string_eq.test_iff s.id s.id,
              ))),
        later.0,
      ),
      λ c i known.
          later.1 c i
            (ground (arith, known, add_capabilities-has branches s.id s.capabilities c i)),
    )

pub set_of-is_in : (i : String) (ids : List String) → is_some (lookup i (set_of ids)) ≡ is_in i ids
unfolding lookup
set_of-is_in i [] = refl
set_of-is_in i (id ∷ ids) = ground (arith, set_of-is_in i ids, lookup-insert id i tt (set_of ids))

keys-is_in :
    (c : String) (branches : Branches) → is_in c (keys branches) ≡ is_some (lookup c branches)
unfolding lookup
keys-is_in c [] = refl
keys-is_in c ((key, ids) ∷ rest) = ground (arith, keys-is_in c rest)

has_key :
    (c i : String) (branches : Branches) → has branches c i ≡ true → is_in c (keys branches) ≡ true
unfolding scenarios_of
has_key c i branches h = ground (arith, h, keys-is_in c branches)

-- A sorting keeps what is in a list.
module _ (sort : List String → List String)
    (sort_keeps : (x : String) (xs : List String) → is_in x (sort xs) ≡ is_in x xs) where
  allow_branches-is_authorized :
      (branches : Branches) (names : List String) (allowed : List (String × Set)) (c i : String)
      → is_authorized (allow_branches allowed (map (branch_of sort branches) names)) c i
        ≡ (if is_in c names then has branches c i else is_authorized allowed c i)
  unfolding allow_branches is_authorized
  allow_branches-is_authorized branches [] allowed c i = refl
  allow_branches-is_authorized branches (name ∷ names) allowed c i =
      let ids = sort (scenarios_of name branches) in
      ground (
        arith,
        allow_branches-is_authorized branches names (insert name (set_of ids) allowed) c i,
        lookup-insert name c (set_of ids) allowed,
        set_of-is_in i ids,
        sort_keeps i (scenarios_of name branches),
        string_eq.test_iff name c,
      )

  covered_permitted :
      (branches : Branches) (candidates : List ScenarioCandidate)
      → Covers branches candidates
      → all
          (is_permitted (allowed_branches (map (branch_of sort branches) (sort (keys branches)))))
          candidates
        ≡ true
  unfolding is_permitted allowed_branches
  covered_permitted branches [] covers = refl
  covered_permitted branches (s ∷ rest) covers =
      let first =
        all_kept (λ c. has branches c s.id)
          (λ c.
            is_authorized (allowed_branches (map (branch_of sort branches) (sort (keys branches))))
              c s.id)
          s.capabilities
          (λ c known. ground (
            arith,
            known,
            allow_branches-is_authorized branches (sort (keys branches)) [] c s.id,
            sort_keeps c (keys branches),
            has_key c s.id branches known,
          ))
          covers.0 in
      ground (arith, first, covered_permitted branches rest covers.1)

  build_branches-is_permitted :
      (candidates : List ScenarioCandidate) (branches : List ConditionalBranch)
      → build_branches sort candidates ≡ ok branches
      → all (is_permitted (allowed_branches branches)) candidates ≡ true
  unfolding build_branches
  build_branches-is_permitted [] branches h = refl
  build_branches-is_permitted (s ∷ rest) branches h =
      elim (Result-cases (collect_branches [] [] (s ∷ rest))) [
        | inl (e, failed) ↦ absurd (ground (arith, h, failed))
        | inr (built, e) ↦
            let same : branches ≡ map (branch_of sort built) (sort (keys built)) =
              ground (arith, h, e) in
            subst (λ bs. all (is_permitted (allowed_branches bs)) (s ∷ rest) ≡ true) (sym same)
              (covered_permitted built (s ∷ rest)
                (collect_branches-Covers [] [] (s ∷ rest) built e).0)
      ]

  -- The branches that are built for some candidates authorize every one of them: whatever the facts
  -- are, a resolution of the same candidates decides them all and refuses none. Of the sorting, that
  -- it keeps what is in a list.
  pub built_branches_decide :
      (candidates : List ScenarioCandidate) (branches : List ConditionalBranch) (facts : Facts)
      → build_branches sort candidates ≡ ok branches
      → decide_all (allowed_branches branches) facts candidates
        ≡ ok (map (decision_of facts) candidates)
  built_branches_decide candidates branches facts h = ground (
    arith,
    decide_all-decision_of (allowed_branches branches) facts candidates,
    build_branches-is_permitted candidates branches h,
  )
