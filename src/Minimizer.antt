-- ===== src/Minimizer.antt =====
-- internal/minimizer/minimizer.go: delta debugging within a budget of evaluations. The predicate is
-- the caller's: `predicate n` is what the evaluation number n answers, none for an error, so that its
-- answers may change from one evaluation to the next. `is_cancelled n` is the state of the context
-- after n evaluations. Options are int64 bit patterns.
pub mod Evaluation
pub mod Reduction
pub mod Minimal
pub mod Tests
use agentapi_doctor.Common.{
  ℕ, zero, suc, ◌+◌, ◌-◌, ◌*◌, ◌/◌, min, max, String, Bool, true, false, not, ◌&&◌, ◌||◌, List, [],
  ◌∷◌, ◌++◌, Option, none, some, ◌==◌, string_eq, eqb, leb, ltb, lt64, if◌then◌else◌, Result, ok,
  err, length, take, drop, lookup, insert, any, is_some,
}

pub record Options : Type 0 where
  pub attempts : ℕ
  pub required_passes : ℕ
  pub max_evaluations : ℕ

pub data Status : Type 0 where
  minimized unchanged inconclusive : Status

pub data Reason : Type 0 where
  no_reason insufficient_samples budget_exhausted flaky_detected : Reason

pub record Outcome {ℓ} (A : Type ℓ) : Type ℓ where
  pub items : List A
  pub status : Status
  pub reason : Reason
  pub evaluations : ℕ
  pub attempts : ℕ
  pub required : ℕ

pub data Error : Type 0 where
  invalid_options budget_error not_reproduced cancelled invalid_key out_of_fuel : Error

-- `normalizeOptions`: zeros stand for the defaults.
unfoldable pub normalize_options : Options → Option Options
normalize_options o =
    let attempts : ℕ = if eqb o.attempts 0 then 1 else o.attempts in
    let required : ℕ = if eqb o.required_passes 0 then attempts else o.required_passes in
    let evaluations : ℕ = if eqb o.max_evaluations 0 then 1000 else o.max_evaluations in
    if lt64 attempts 1 || lt64 required 1 || lt64 attempts required || lt64 evaluations 1
    then none
    else some
        (record { attempts = attempts; required_passes = required; max_evaluations = evaluations })

-- What `check` returns: its two Booleans, or the spent budget.
pub data Answer : Type 0 where
  reproduces fails unclear spent : Answer

-- What the loop over the chunks of a list returns.
pub data Sweep {ℓ} (A : Type ℓ) : Type ℓ where
  reduced : List A → Sweep A
  kept exhausted stuck : Sweep A

abbrev pub is_empty {ℓ} : {A : Type ℓ} → List A → Bool
is_empty [] = true
is_empty (x ∷ xs) = false

-- The list without the items from `start` to `end`.
abbrev pub without {ℓ} : {A : Type ℓ} → ℕ → ℕ → List A → List A
without start end xs = take start xs ++ drop end xs

unfoldable pub outcome {ℓ} : {A : Type ℓ} → Options → List A → Status → Reason → ℕ → Outcome A
outcome o xs status reason count = record {
  items = xs;
  status = status;
  reason = reason;
  evaluations = count;
  attempts = o.attempts;
  required = o.required_passes;
}

-- The end of `DDMin`, behind its loop.
unfoldable pub conclude {ℓ} : {A : Type ℓ} → Options → List A → ℕ → ℕ → Bool → Outcome A
conclude o xs original count saw =
    if saw
    then outcome o xs inconclusive flaky_detected count
    else if eqb (length xs) original
    then outcome o xs unchanged no_reason count
    else outcome o xs minimized no_reason count

module _ {ℓ} {A : Type ℓ} (predicate : ℕ → List A → Option Bool) where
  -- The loop of `check`, with the attempts that are left. It returns the count of evaluations too.
  unfoldable pub check_loop : Options → List A → ℕ → ℕ → ℕ → ℕ → ℕ × Answer
  check_loop o xs zero passes failures count = (count, unclear)
  check_loop o xs (suc left) passes failures count =
      if leb o.max_evaluations count then (count, spent) else elim (predicate count xs) [
        | none ↦ check_loop o xs left passes failures (count + 1)
        | some true ↦
            let rest = check_loop o xs left (passes + 1) failures (count + 1) in
            if leb o.required_passes (passes + 1)
            then (count + 1, reproduces)
            else if ltb (o.attempts - o.required_passes) failures
            then (count + 1, fails)
            else rest
        | some false ↦
            let rest = check_loop o xs left passes (failures + 1) (count + 1) in
            if leb o.required_passes passes
            then (count + 1, reproduces)
            else if ltb (o.attempts - o.required_passes) (failures + 1)
            then (count + 1, fails)
            else rest
      ]

  unfoldable pub check : Options → List A → ℕ → ℕ × Answer
  check o xs count = check_loop o xs o.attempts 0 0 count

  -- The loop over the chunks, from `start`, with whether an answer was unclear. Each round moves
  -- `start` on by a chunk, which is not empty, so the length is fuel enough.
  unfoldable pub sweep : ℕ → Options → List A → ℕ → ℕ → ℕ → Bool → (ℕ × Bool) × Sweep A
  sweep zero o xs chunk start count saw = ((count, saw), stuck)
  sweep (suc fuel) o xs chunk start count saw =
      let candidate = without start (min (start + chunk) (length xs)) xs in
      let (count', answer) = check o candidate count in
      let skip = sweep fuel o xs chunk (start + chunk) count saw in
      if not (ltb start (length xs))
      then ((count, saw), kept)
      else if is_empty candidate
      then skip
      else elim answer [
        | spent ↦ ((count', saw), exhausted)
        | unclear ↦ sweep fuel o xs chunk (start + chunk) count' true
        | reproduces ↦ ((count', saw), reduced candidate)
        | fails ↦ sweep fuel o xs chunk (start + chunk) count' saw
      ]

module _ {ℓ} {A : Type ℓ} (predicate : ℕ → List A → Option Bool) (is_cancelled : ℕ → Bool) where
  -- The outer loop. A reduction shortens the list, and starts the rounds anew; any other round raises
  -- the granularity towards the length.
  unfoldable pub minimize : ℕ → ℕ → Options → ℕ → List A → ℕ → ℕ → Bool → Result Error (Outcome A)
  minimize zero rounds o original xs granularity count saw = err out_of_fuel
  minimize (suc shorter) zero o original xs granularity count saw = err out_of_fuel
  minimize (suc shorter) (suc rounds) o original xs granularity count saw =
      if ltb (length xs) 2
      then ok (conclude o xs original count saw)
      else if is_cancelled count
      then err cancelled
      else (let chunk = (length xs + granularity - 1) / granularity in
          let ((count', saw'), swept) = sweep predicate (suc (length xs)) o xs chunk 0 count saw in
          elim swept [
            | stuck ↦ err out_of_fuel
            | exhausted ↦ ok (outcome o xs inconclusive budget_exhausted count')
            | reduced ys ↦
                minimize shorter (suc (length ys)) o original ys (max 2 (granularity - 1)) count'
                  saw'
            | kept ↦ elim (leb (length xs) granularity) [
              | true ↦ ok (conclude o xs original count' saw')
              | false ↦
                  minimize (suc shorter) rounds o original xs (min (length xs) (granularity * 2))
                    count' saw'
            ]
          ])

  -- `DDMin` behind the check of its options.
  unfoldable pub ddmin_with : Options → List A → Result Error (Outcome A)
  ddmin_with o xs =
      let (count, answer) = check predicate o xs 0 in
      elim answer [
        | spent ↦ err budget_error
        | unclear ↦ ok (outcome o xs inconclusive insufficient_samples count)
        | fails ↦ err not_reproduced
        | reproduces ↦
            if ltb (length xs) 2
            then ok (outcome o xs unchanged no_reason count)
            else minimize (suc (length xs)) (suc (length xs)) o (length xs) xs 2 count false
      ]

  unfoldable pub ddmin : Options → List A → Result Error (Outcome A)
  ddmin options xs = elim (normalize_options options) [
    | none ↦ err invalid_options
    | some o ↦ ddmin_with o xs
  ]

-- The loop of `RemoveJSONObjectKeys` over the ordered keys: each is present, and none comes twice.
unfoldable pub check_keys {κ} : {V : Type κ} → List (String × V) → List String → List String → Bool
check_keys object seen [] = true
check_keys object seen (key ∷ keys) =
    is_some (lookup key object)
    && not (any (λ s. s == key) seen)
    && check_keys object (key ∷ seen) keys

-- The object with the retained keys only; all of them are keys of `object`.
unfoldable pub retain {κ} : {V : Type κ} → List (String × V) → List String → List (String × V)
retain object [] = []
retain object (key ∷ keys) = elim (lookup key object) [
  | none ↦ retain object keys
  | some v ↦ insert key v (retain object keys)
]

module _ {κ} {V : Type κ} (predicate : ℕ → List (String × V) → Option Bool)
    (is_cancelled : ℕ → Bool) where
  unfoldable pub remove_json_object_keys :
      List (String × V) → List String → Options → Result Error (List (String × V) × Outcome String)
  remove_json_object_keys object keys options =
      if not (check_keys object [] keys)
      then err invalid_key
      else elim (ddmin (λ n retained. predicate n (retain object retained)) is_cancelled options
          keys) [ err e ↦ err e | ok r ↦ ok (retain object r.items, r) ]
