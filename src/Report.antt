-- ===== src/Report.antt =====
-- internal/report/baseline.go: the comparison of a run with a baseline. The pattern of names, the check of
-- digests, `strings.TrimSpace` and the sorting of ids are parameters; the texts of errors are left out.
pub mod Changes
pub mod Tests
use agentapi_doctor.Common.{
  String, Bool, true, false, not, ◌&&◌, ◌||◌, List, [], ◌∷◌, ◌++◌, Option, none, some, ◌==◌,
  string_eq, if◌then◌else◌, is_some, any, all, lookup, map, Result, ok, err,
}

pub data Verdict : Type 0 where
  pass fail warn inconclusive : Verdict
  other : String → Verdict

pub data Execution : Type 0 where
  no_execution planned running completed skipped cancelled errored : Execution
  undefined : String → Execution

pub data PlanDisposition : Type 0 where
  execute skip not_applicable : PlanDisposition
  unknown : String → PlanDisposition

pub record CaseState : Type 0 where
  pub disposition : PlanDisposition
  pub execution : Execution
  pub verdict : Option Verdict

-- `cases` is none for a nil map.
pub record Baseline : Type 0 where
  pub schema_version : String
  pub name : String
  pub profile_digest : String
  pub pack_digest : String
  pub support_lock_digest : String
  pub denominator_digest : String
  pub cases : Option (List (String × CaseState))

pub data Change : Type 0 where
  new_failure regression fixed unchanged new_capability no_longer_tested : Change

pub record Difference : Type 0 where
  pub scenario_id : String
  pub change : Change
  pub before : Option CaseState
  pub after : Option CaseState

pub data Error : Type 0 where
  invalid incomparable : Error

pub record Checks : Type 0 where
  pub is_name : String → Bool
  pub is_digest : String → Bool
  pub trim_space : String → String

abbrev pub baseline_schema_version : String
baseline_schema_version = "urn:agentapi-doctor:baseline:v1"

abbrev is_disposition : PlanDisposition → Bool
is_disposition (unknown s) = false
is_disposition d = true

abbrev is_execution : Execution → Bool
is_execution (undefined s) = false
is_execution e = true

abbrev is_completed : Execution → Bool
is_completed completed = true
is_completed e = false

abbrev is_verdict : Verdict → Bool
is_verdict (other s) = false
is_verdict v = true

unfoldable pub is_failure : CaseState → Bool
is_failure state = elim state.verdict [ some fail ↦ true | _ ↦ false ]

abbrev pub is_executed : CaseState → Bool
is_executed state = elim state.disposition [ execute ↦ true | _ ↦ false ]

-- The checks of one case in `Validate`.
unfoldable pub is_valid_case : Checks → String × CaseState → Bool
is_valid_case k (id, state) =
    not (k.trim_space id == "")
    && is_disposition state.disposition
    && is_execution state.execution
    && elim state.verdict [ none ↦ true | some v ↦ is_verdict v && is_completed state.execution ]

unfoldable pub is_valid_baseline : Checks → Baseline → Bool
is_valid_baseline k b =
    b.schema_version == baseline_schema_version
    && k.is_name b.name
    && k.is_digest b.profile_digest
    && k.is_digest b.pack_digest
    && k.is_digest b.support_lock_digest
    && k.is_digest b.denominator_digest
    && elim b.cases [ none ↦ false | some cases ↦ all (is_valid_case k) cases ]

abbrev pub cases_of : Baseline → List (String × CaseState)
cases_of b = elim b.cases [ none ↦ [] | some cases ↦ cases ]

-- The switch of `Compare`.
unfoldable pub classify : Option CaseState → Option CaseState → Change
classify none none = unchanged
classify none (some right) = if is_failure right then new_failure else new_capability
classify (some left) none = no_longer_tested
classify (some left) (some right) =
    if not (is_failure left) && is_failure right
    then regression
    else if is_failure left && not (is_failure right) && is_executed right
    then fixed
    else if not (is_executed left) && is_executed right
    then new_capability
    else unchanged

-- The ids of both, each once.
unfoldable pub add_ids : List String → List (String × CaseState) → List String
add_ids ids [] = ids
add_ids ids ((id, state) ∷ rest) =
    if any (λ x. x == id) ids then add_ids ids rest else add_ids (id ∷ ids) rest

unfoldable pub same_identity : Baseline → Baseline → Bool
same_identity a b =
    a.profile_digest == b.profile_digest
    && a.pack_digest == b.pack_digest
    && a.support_lock_digest == b.support_lock_digest
    && a.denominator_digest == b.denominator_digest

unfoldable pub difference : Baseline → Baseline → String → Difference
difference before after id = record {
  scenario_id = id;
  change = classify (lookup id (cases_of before)) (lookup id (cases_of after));
  before = lookup id (cases_of before);
  after = lookup id (cases_of after);
}

unfoldable pub compare :
    Checks → (List String → List String) → Baseline → Baseline → Result Error (List Difference)
compare k sort before after =
    if not (is_valid_baseline k before) || not (is_valid_baseline k after)
    then err invalid
    else if not (same_identity before after)
    then err incomparable
    else ok (
        map (difference before after)
          (sort (add_ids (add_ids [] (cases_of before)) (cases_of after))))
