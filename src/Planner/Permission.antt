-- ===== src/Planner/Permission.antt =====
-- Which scenarios the branches of a plan authorize (`allowedBranches` and `Resolve` of
-- internal/planner/planner.go), told from the list of the branches alone.
use agentapi_doctor.Common.{
  ◌≡◌, String, Bool, false, List, [], ◌∷◌, ◌==◌, string_eq, if◌then◌else◌, all, lookup, insert,
  arith, refl, lookup-insert, ap, ◌∙◌,
}
use agentapi_doctor.Planner.{ScenarioCandidate, ConditionalBranch, Set}
use agentapi_doctor.Planner.Branches.{set_of, allow_branches, allowed_branches, is_authorized}
use agentapi_doctor.Planner.Dispositions.{is_permitted}
use agentapi_doctor.Planner.Authorization.{is_in, set_of-is_in}

-- The last branch of the capability lists the scenario; with no such branch, what was said before.
abbrev pub authorizes : Bool → List ConditionalBranch → String → String → Bool
authorizes so_far [] capability id = so_far
authorizes so_far (branch ∷ rest) capability id =
    authorizes (if branch.capability == capability then is_in id branch.scenarios else so_far) rest
      capability id

-- The branches authorize a candidate for each of its capabilities.
abbrev pub admits : List ConditionalBranch → ScenarioCandidate → Bool
admits branches candidate =
    all (λ capability. authorizes false branches capability candidate.id) candidate.capabilities

written :
    (branch : ConditionalBranch) (allowed : List (String × Set)) (capability id : String)
    → is_authorized (insert branch.capability (set_of branch.scenarios) allowed) capability id ≡ (
        if branch.capability == capability
        then is_in id branch.scenarios
        else is_authorized allowed capability id)
unfolding is_authorized
written branch allowed capability id = ground (
  arith,
  lookup-insert branch.capability capability (set_of branch.scenarios) allowed,
  set_of-is_in id branch.scenarios,
)

allow_branches-authorizes :
    (allowed : List (String × Set)) (branches : List ConditionalBranch) (capability id : String)
    → is_authorized (allow_branches allowed branches) capability id
      ≡ authorizes (is_authorized allowed capability id) branches capability id
unfolding allow_branches
allow_branches-authorizes allowed [] capability id = refl
allow_branches-authorizes allowed (branch ∷ rest) capability id =
    allow_branches-authorizes (insert branch.capability (set_of branch.scenarios) allowed) rest
      capability id
    ∙ ap (λ b. authorizes b rest capability id) (written branch allowed capability id)

allowed_branches-authorizes :
    (branches : List ConditionalBranch) (capability id : String)
    → is_authorized (allowed_branches branches) capability id
      ≡ authorizes false branches capability id
unfolding allowed_branches is_authorized lookup
allowed_branches-authorizes branches capability id =
    allow_branches-authorizes [] branches capability id

all-authorizes :
    (branches : List ConditionalBranch) (id : String) (capabilities : List String)
    → all (λ c. is_authorized (allowed_branches branches) c id) capabilities
      ≡ all (λ c. authorizes false branches c id) capabilities
all-authorizes branches id [] = refl
all-authorizes branches id (c ∷ rest) =
    ground (arith, allowed_branches-authorizes branches c id, all-authorizes branches id rest)

pub all_permitted-admits :
    (branches : List ConditionalBranch) (candidates : List ScenarioCandidate)
    → all (is_permitted (allowed_branches branches)) candidates ≡ all (admits branches) candidates
unfolding is_permitted
all_permitted-admits branches [] = refl
all_permitted-admits branches (s ∷ rest) =
    ground (arith, all-authorizes branches s.id s.capabilities, all_permitted-admits branches rest)
