-- ===== src/Budget/Spending.antt =====
-- The hard limits of internal/budget/ledger.go over whole histories of a new ledger, and sums
-- at the end of the int64 range.
use agentapi_doctor.Common.{
  ℕ, ◌+◌, ◌≤◌, ◌<◌, ◌≡◌, Bool, true, false, List, [], ◌∷◌, Option, none, some, arith, refl, ok,
  length, add64, sub64, lt64, subst, ◌∙◌, ap, sym, if◌then◌else◌,
}
use agentapi_doctor.Budget.{
  Usage, Ledger, Call, BudgetPolicy, HardBudget, TokenBudget, add, subtract, no_usage, reserve,
  reserve_in_time, check_time, open_reservation, run, new, exceeds, is_valid_usage, fresh_ledger,
  step, commit, commit_open, cancel, close, consume_cleanup, snapshot, reserves, commits, cancels,
  consumes_cleanup, snapshots,
}
use agentapi_doctor.Budget.Words.{IsWords}
use agentapi_doctor.Budget.Balance.{new-Inv}
use agentapi_doctor.Budget.Limits.{Counter, Kept, AllHonest, run-Kept, open_sum}

-- A usage that exceeds nothing is within each hard limit.
pub exceeds-none :
    (u : Usage) (hard : HardBudget) (tokens : TokenBudget)
    → exceeds u hard tokens ≡ none
    → (lt64 hard.max_requests u.requests ≡ false)
      × (lt64 hard.max_request_bytes u.request_bytes ≡ false)
      × (lt64 hard.max_response_bytes u.response_bytes ≡ false)
      × (lt64 hard.max_artifact_bytes u.artifact_bytes ≡ false)
      × (lt64 hard.max_processes u.processes ≡ false)
unfolding exceeds
exceeds-none u hard tokens h = ground arith

pub requests-add : (u v : Usage) → (add u v).requests ≡ add64 u.requests v.requests
unfolding add
requests-add u v = refl

pub requests-subtract : (u v : Usage) → (subtract u v).requests ≡ sub64 u.requests v.requests
unfolding subtract
requests-subtract u v = refl

pub requests_valid : (u : Usage) → is_valid_usage u ≡ true → u.requests < 9223372036854775808
requests_valid u h = ground arith

pub request_bytes-add :
    (u v : Usage) → (add u v).request_bytes ≡ add64 u.request_bytes v.request_bytes
unfolding add
request_bytes-add u v = refl

pub request_bytes-subtract :
    (u v : Usage) → (subtract u v).request_bytes ≡ sub64 u.request_bytes v.request_bytes
unfolding subtract
request_bytes-subtract u v = refl

pub request_bytes_valid :
    (u : Usage) → is_valid_usage u ≡ true → u.request_bytes < 9223372036854775808
request_bytes_valid u h = ground arith

pub response_bytes-add :
    (u v : Usage) → (add u v).response_bytes ≡ add64 u.response_bytes v.response_bytes
unfolding add
response_bytes-add u v = refl

pub response_bytes-subtract :
    (u v : Usage) → (subtract u v).response_bytes ≡ sub64 u.response_bytes v.response_bytes
unfolding subtract
response_bytes-subtract u v = refl

pub response_bytes_valid :
    (u : Usage) → is_valid_usage u ≡ true → u.response_bytes < 9223372036854775808
response_bytes_valid u h = ground arith

pub artifact_bytes-add :
    (u v : Usage) → (add u v).artifact_bytes ≡ add64 u.artifact_bytes v.artifact_bytes
unfolding add
artifact_bytes-add u v = refl

pub artifact_bytes-subtract :
    (u v : Usage) → (subtract u v).artifact_bytes ≡ sub64 u.artifact_bytes v.artifact_bytes
unfolding subtract
artifact_bytes-subtract u v = refl

pub artifact_bytes_valid :
    (u : Usage) → is_valid_usage u ≡ true → u.artifact_bytes < 9223372036854775808
artifact_bytes_valid u h = ground arith

pub processes-add : (u v : Usage) → (add u v).processes ≡ add64 u.processes v.processes
unfolding add
processes-add u v = refl

pub processes-subtract : (u v : Usage) → (subtract u v).processes ≡ sub64 u.processes v.processes
unfolding subtract
processes-subtract u v = refl

pub processes_valid : (u : Usage) → is_valid_usage u ≡ true → u.processes < 9223372036854775808
processes_valid u h = ground arith

pub data HardCounter : Type 0 where
  requests request_bytes response_bytes artifact_bytes processes : HardCounter

abbrev pub counter : HardCounter → Counter
counter requests = record {
  of = λ u. u.requests;
  limit = λ b. b.max_requests;
  of-add = requests-add;
  of-subtract = requests-subtract;
  of_none = refl;
  of_valid = requests_valid;
  of_word = λ u w. w.w1;
  limited = λ u hard tokens h. (exceeds-none u hard tokens h).0;
}
counter request_bytes = record {
  of = λ u. u.request_bytes;
  limit = λ b. b.max_request_bytes;
  of-add = request_bytes-add;
  of-subtract = request_bytes-subtract;
  of_none = refl;
  of_valid = request_bytes_valid;
  of_word = λ u w. w.w2;
  limited = λ u hard tokens h. (exceeds-none u hard tokens h).1;
}
counter response_bytes = record {
  of = λ u. u.response_bytes;
  limit = λ b. b.max_response_bytes;
  of-add = response_bytes-add;
  of-subtract = response_bytes-subtract;
  of_none = refl;
  of_valid = response_bytes_valid;
  of_word = λ u w. w.w3;
  limited = λ u hard tokens h. (exceeds-none u hard tokens h).2;
}
counter artifact_bytes = record {
  of = λ u. u.artifact_bytes;
  limit = λ b. b.max_artifact_bytes;
  of-add = artifact_bytes-add;
  of-subtract = artifact_bytes-subtract;
  of_none = refl;
  of_valid = artifact_bytes_valid;
  of_word = λ u w. w.w4;
  limited = λ u hard tokens h. (exceeds-none u hard tokens h).3;
}
counter processes = record {
  of = λ u. u.processes;
  limit = λ b. b.max_processes;
  of-add = processes-add;
  of-subtract = processes-subtract;
  of_none = refl;
  of_valid = processes_valid;
  of_word = λ u w. w.w5;
  limited = λ u hard tokens h. (exceeds-none u hard tokens h).4;
}

step_policy : (l : Ledger) (c : Call) → (step l c).policy ≡ l.policy
unfolding step reserve reserve_in_time open_reservation commit commit_open cancel close
    consume_cleanup snapshot check_time
step_policy l (reserves planned now) = ground arith
step_policy l (commits id actual now) = ground arith
step_policy l (cancels id) = ground arith
step_policy l (consumes_cleanup actual) = ground arith
step_policy l (snapshots now) = ground arith

run_policy : (l : Ledger) (cs : List Call) → (run l cs).policy ≡ l.policy
unfolding run
run_policy l [] = refl
run_policy l (c ∷ cs) = run_policy (step l c) cs ∙ step_policy l c

fresh-Kept :
    (k : Counter) (policy : BudgetPolicy) (now : ℕ)
    → k.limit policy.hard < 9223372036854775808
    → Kept k (fresh_ledger policy now)
unfolding open_sum
fresh-Kept k policy now n = record {
  reserved_sum = k.of_none;
  within = omega (arith, k.of_none);
  limit_natural = n;
}

-- On a new ledger, over any history of fewer than 2 ^ 64 calls: if no reservation together with the
-- limit leaves the int64 range and no commit uses more than its reservation planned, then what is
-- consumed and what is reserved stay within the hard limit, together, for each of the five counters.
pub spending_bounded :
    (h : HardCounter) (policy : BudgetPolicy) (now : ℕ) (l : Ledger) (cs : List Call)
    → let k = counter h in
      new policy now ≡ some l
      → length cs < 18446744073709551616
      → k.limit policy.hard < 9223372036854775808
      → AllHonest k l cs
      → k.of (run l cs).consumed + k.of (run l cs).reserved ≤ k.limit policy.hard
unfolding new
spending_bounded h policy now l cs made room natural honest =
    subst
      (λ p.
        (counter h).of (run l cs).consumed + (counter h).of (run l cs).reserved
        ≤ (counter h).limit p.hard)
      (run_policy l cs ∙ same_policy) kept.within
  where
    is_fresh : fresh_ledger policy now ≡ l
    is_fresh = ground arith

    same_policy : l.policy ≡ policy
    same_policy = ap (λ (m : Ledger). m.policy) (sym is_fresh)

    start :
        (k : Counter) → k.limit policy.hard < 9223372036854775808 → Kept k (fresh_ledger policy now)
    start k n = fresh-Kept k policy now n

    kept : Kept (counter h) (run l cs)
    kept =
        run-Kept (counter h) l cs (omega (arith, (new-Inv policy now l made).1))
          (new-Inv policy now l made).0 honest
          (subst (Kept (counter h)) is_fresh (start (counter h) natural))

-- Only the requests of a usage change.
only_requests :
    (u : Usage) (n : ℕ)
    → IsWords u
    → add u (record no_usage { requests = n }) ≡ record u { requests = add64 u.requests n }
unfolding add
only_requests u n w = ground arith

-- The first of two tests changes, and still does not hold.
skip :
    {A : Type 0} (b c : Bool) (x y : A) (rest : Option A)
    → b ≡ false
    → (if c then some x else rest) ≡ none
    → (if b then some y else rest) ≡ none
skip true c x y rest e h = cc
skip false true x y rest e h = cc
skip false false x y rest e h = h

exceeds-requests :
    (u : Usage) (m : ℕ) (hard : HardBudget) (tokens : TokenBudget)
    → exceeds u hard tokens ≡ none
    → lt64 hard.max_requests m ≡ false
    → exceeds (record u { requests = m }) hard tokens ≡ none
unfolding exceeds
exceeds-requests u m hard tokens h small =
    skip (lt64 hard.max_requests m) (lt64 hard.max_requests u.requests) _ _ _ small h

-- A sum that leaves the int64 range passes the limit: a valid reservation of more requests than any
-- limit allows is granted, whenever it takes the sum past 2 ^ 63 - 1 and reserves nothing else.
pub reserve_overflow :
    (l : Ledger) (n now : ℕ)
    → let used = add l.consumed l.reserved in
      (exceeds used l.policy.hard l.policy.reservation ≡ none)
      → IsWords used
      → l.is_exhausted ≡ false
      → now < l.deadline
      → used.requests < 9223372036854775808
      → l.policy.hard.max_requests < 9223372036854775808
      → 0 < n
      → n < 9223372036854775808
      → 9223372036854775808 ≤ used.requests + n
      → (reserve l (record no_usage { requests = n }) now).1 ≡ ok (add64 l.next_id 1)
unfolding reserve reserve_in_time check_time
reserve_overflow l n now fits w going early used_natural limit_natural pos natural over =
    ground (arith, granted)
  where
    used : Usage
    used = add l.consumed l.reserved

    negative : lt64 l.policy.hard.max_requests (add64 used.requests n) ≡ false
    negative = ground arith

    granted :
        exceeds (add used (record no_usage { requests = n })) l.policy.hard l.policy.reservation
        ≡ none
    granted = rw (only_requests used n w) (
        exceeds-requests used (add64 used.requests n) l.policy.hard l.policy.reservation fits
          negative)
