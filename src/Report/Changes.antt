-- ===== src/Report/Changes.antt =====
-- What the differences of internal/report/baseline.go say.
use agentapi_doctor.Common.{
  ◌≡◌, String, Bool, true, false, not, ◌&&◌, ◌||◌, List, [], ◌∷◌, Option, none, some, ◌==◌,
  string_eq, is_some, any, if◌then◌else◌, All, lookup, map, ok, arith, refl, sym, subst, ap, ◌∙◌,
}
use agentapi_doctor.Report.{
  CaseState, Verdict, PlanDisposition, Baseline, Change, new_failure, regression, fixed,
  new_capability, no_longer_tested, Difference, Checks, is_failure, is_executed, cases_of, classify,
  add_ids, difference, compare,
}

abbrev pub names : String → Difference → Bool
names id d = d.scenario_id == id

-- Of the verdicts, only `fail` is a failure: none, a warning and an inconclusive one are not.
abbrev pub is_fail : Option Verdict → Bool
is_fail (some Verdict.pass) = false
is_fail (some Verdict.fail) = true
is_fail (some Verdict.warn) = false
is_fail (some Verdict.inconclusive) = false
is_fail (some (Verdict.other s)) = false
is_fail none = false

-- The plan of the run wants the case to be executed.
abbrev pub is_wanted : PlanDisposition → Bool
is_wanted PlanDisposition.execute = true
is_wanted PlanDisposition.skip = false
is_wanted PlanDisposition.not_applicable = false
is_wanted (PlanDisposition.unknown s) = false

-- A case that was not there did not fail, and one that is gone does not fail.
abbrev pub fails : Option CaseState → Bool
fails none = false
fails (some state) = is_fail state.verdict

abbrev pub runs : Option CaseState → Bool
runs none = false
runs (some state) = is_wanted state.disposition

abbrev pub is_new_failure : Change → Bool
is_new_failure new_failure = true
is_new_failure c = false

abbrev pub is_regression : Change → Bool
is_regression regression = true
is_regression c = false

abbrev pub is_fixed : Change → Bool
is_fixed fixed = true
is_fixed c = false

abbrev pub is_new : Change → Bool
is_new new_capability = true
is_new c = false

abbrev pub is_gone : Change → Bool
is_gone no_longer_tested = true
is_gone c = false

-- What a change says of the two cases of an id. A case that fails is a new failure if there was none
-- before, and a regression if there was one that did not. A case is fixed that failed, and is planned
-- for execution and does not fail. A capability is new when a case comes that does not fail, or when
-- one that fails as it did before, or not at all, is planned for execution and was not.
pub record Expected (change : Change) (left right : Option CaseState) : Type 0 where
  pub failing : is_new_failure change ≡ not (is_some left) && fails right
  pub worse : is_regression change ≡ is_some left && not (fails left) && fails right
  pub better : is_fixed change ≡ fails left && not (fails right) && runs right
  pub gone : is_gone change ≡ is_some left && not (is_some right)
  pub gained : is_new change ≡ (
      if is_some left
      then runs right && not (runs left) && (if fails left then fails right else not (fails right))
      else is_some right && not (fails right))

-- A difference has the two cases of its id, and says of them what is to be expected.
pub record Judged (before after : Baseline) (d : Difference) : Type 0 where
  pub left : d.before ≡ lookup d.scenario_id (cases_of before)
  pub right : d.after ≡ lookup d.scenario_id (cases_of after)
  pub expected : Expected d.change d.before d.after

-- The code's two tests are those of the account above.
is_failure-is_fail : (state : CaseState) → is_failure state ≡ is_fail state.verdict
unfolding is_failure
is_failure-is_fail state = ground arith

is_executed-is_wanted : (state : CaseState) → is_executed state ≡ is_wanted state.disposition
is_executed-is_wanted state = ground arith

classify-Expected : (left right : Option CaseState) → Expected (classify left right) left right
unfolding classify
classify-Expected none none = record {
  failing = refl;
  worse = refl;
  better = refl;
  gone = refl;
  gained = refl;
}
classify-Expected none (some right) =
    let e = is_failure-is_fail right in
    record {
      failing = ground (arith, e);
      worse = ground (arith, e);
      better = ground (arith, e);
      gone = ground (arith, e);
      gained = ground (arith, e);
    }
classify-Expected (some left) none = record {
  failing = refl;
  worse = ground arith;
  better = ground arith;
  gone = refl;
  gained = ground arith;
}
classify-Expected (some left) (some right) =
    let l = is_failure-is_fail left in
    let r = is_failure-is_fail right in
    let m = is_executed-is_wanted left in
    let n = is_executed-is_wanted right in
    record {
      failing = ground (arith, l, r, m, n);
      worse = ground (arith, l, r, m, n);
      better = ground (arith, l, r, m, n);
      gone = ground (arith, l, r, m, n);
      gained = ground (arith, l, r, m, n);
    }

difference-Judged :
    (before after : Baseline) (id : String) → Judged before after (difference before after id)
unfolding difference
difference-Judged before after id = record {
  left = refl;
  right = refl;
  expected = classify-Expected (lookup id (cases_of before)) (lookup id (cases_of after));
}

abbrev pub is_in : String → List String → Bool
is_in id ids = any (λ x. x == id) ids

abbrev pub distinct : List String → Bool
distinct [] = true
distinct (id ∷ ids) = not (is_in id ids) && distinct ids

abbrev pub ids_of : List Difference → List String
ids_of ds = map (λ d. d.scenario_id) ds

add_ids-is_in :
    (id : String) (ids : List String) (cases : List (String × CaseState))
    → is_in id (add_ids ids cases) ≡ is_in id ids || is_some (lookup id cases)
unfolding add_ids lookup
add_ids-is_in id ids [] = ground arith
add_ids-is_in id ids ((key, state) ∷ rest) =
    ground (
      arith,
      string_eq.test_iff key id,
      add_ids-is_in id ids rest,
      add_ids-is_in id (key ∷ ids) rest,
    )

add_ids-distinct :
    (ids : List String) (cases : List (String × CaseState))
    → distinct ids ≡ true
    → distinct (add_ids ids cases) ≡ true
unfolding add_ids
add_ids-distinct ids [] h = h
add_ids-distinct ids ((key, state) ∷ rest) h =
    ground (arith, h, add_ids-distinct ids rest, add_ids-distinct (key ∷ ids) rest)

module _ (before after : Baseline) where
  differences_judged :
      (ids : List String) → All (Judged before after) (map (difference before after) ids)
  differences_judged [] = tt
  differences_judged (id ∷ ids) = (difference-Judged before after id, differences_judged ids)

  ids_of-difference : (ids : List String) → ids_of (map (difference before after) ids) ≡ ids
  unfolding difference
  ids_of-difference [] = refl
  ids_of-difference (id ∷ ids) = ap (λ rest. id ∷ rest) (ids_of-difference ids)

-- A comparison names exactly the ids of the two baselines, each once, and judges each of them by its cases.
pub record Compared (before after : Baseline) (ds : List Difference) : Type 0 where
  pub judged : All (Judged before after) ds
  pub named :
      (id : String)
      → is_in id (ids_of ds)
        ≡ is_some (lookup id (cases_of before)) || is_some (lookup id (cases_of after))
  pub once : distinct (ids_of ds) ≡ true

module _ (k : Checks) (sort : List String → List String)
    (sort_keeps : (id : String) (ids : List String) → is_in id (sort ids) ≡ is_in id ids)
    (sort_distinct : (ids : List String) → distinct ids ≡ true → distinct (sort ids) ≡ true) where
  -- A comparison of two baselines names exactly the ids of both, each once; each difference shows
  -- the two cases of its id and is, each exactly: a new failure, when there is a case only now
  -- and its verdict is `fail`; a regression, when there are both and only the new one's verdict
  -- is `fail`; fixed, when the old one's verdict is `fail`, and there is a new one whose verdict,
  -- if it has any, is not and whose plan is to execute it; no longer tested, when there is only
  -- the old one; a new capability, when there is a case only now and its verdict is not `fail`,
  -- or when both have the verdict `fail` or neither has, and only the new one's plan is to
  -- execute it. Of the sorting, that it keeps what is in a list and repeats nothing.
  pub compare-Compared :
      (before after : Baseline) (ds : List Difference)
      → compare k sort before after ≡ ok ds
      → Compared before after ds
  unfolding compare lookup
  compare-Compared before after ds h =
      let ids = add_ids (add_ids [] (cases_of before)) (cases_of after) in
      let same : ds ≡ map (difference before after) (sort ids) = ground (arith, h) in
      let listed = ids_of-difference before after (sort ids) in
      subst (Compared before after) (sym same) (record {
        judged = differences_judged before after (sort ids);
        named = λ id.
            ap (is_in id) listed
            ∙ sort_keeps id ids
            ∙ ground (
              arith,
              add_ids-is_in id (add_ids [] (cases_of before)) (cases_of after),
              add_ids-is_in id [] (cases_of before),
            );
        once =
            ap distinct listed
            ∙ sort_distinct ids (
                add_ids-distinct (add_ids [] (cases_of before)) (cases_of after)
                  (add_ids-distinct [] (cases_of before) refl));
      })
