-- ===== src/Budget/Tests.antt =====
-- Histories of a ledger of internal/budget/ledger.go, and its theorems at them.
use agentapi_doctor.Common.{
  ℕ, ◌+◌, ◌≤◌, ◌≡◌, List, [], ◌∷◌, refl, ok, arith, lookup, insert, delete,
}
use agentapi_doctor.Budget.{
  Usage, Ledger, Call, BudgetPolicy, HardBudget, new, run, step, reserve, reserve_in_time,
  check_time, open_reservation, commit, commit_open, cancel, close, consume_cleanup, add, subtract,
  exceeds, positive_difference, no_usage, no_tokens, fresh_ledger, reserves, commits, cancels,
  consumes_cleanup, snapshots, snapshot,
}
use agentapi_doctor.Budget.Accounts.{Inv}
use agentapi_doctor.Budget.Balance.{run-Inv}
use agentapi_doctor.Budget.Closing.{IsSettled, cancel_settles}
use agentapi_doctor.Budget.Spending.{HardCounter, counter, spending_bounded, reserve_overflow}
use agentapi_doctor.Budget.Limits.{AllHonest}

abbrev small : HardBudget
small = record {
  max_requests = 4;
  max_request_bytes = 100;
  max_response_bytes = 100;
  max_artifact_bytes = 100;
  max_processes = 2;
  max_duration = 60;
}

abbrev policy : BudgetPolicy
policy = record { hard = small; reservation = no_tokens; cleanup = small }

abbrev ledger : Ledger
ledger = fresh_ledger policy 10

abbrev usage : ℕ → Usage
usage n = record no_usage { requests = n; request_bytes = 10 }

abbrev history : List Call
history =
    reserves (usage 2) 11
    ∷ reserves (usage 1) 12
    ∷ commits 1 (usage 1) 13
    ∷ cancels 2
    ∷ consumes_cleanup (usage 1)
    ∷ snapshots 14
    ∷ []

history_consumes : (run ledger history).consumed ≡ usage 1
unfolding run step reserve reserve_in_time check_time open_reservation commit commit_open cancel
    close consume_cleanup add subtract exceeds positive_difference lookup insert delete snapshot
history_consumes = refl

run-Inv_example : Inv (run ledger history)
unfolding new
run-Inv_example = run-Inv policy 10 ledger history refl (omega arith)

history_honest : AllHonest (counter HardCounter.requests) ledger history
unfolding run step reserve reserve_in_time check_time open_reservation commit commit_open cancel
    close consume_cleanup add subtract exceeds positive_difference lookup insert delete snapshot
history_honest = ground arith

spending_bounded_example :
    (run ledger history).consumed.requests + (run ledger history).reserved.requests ≤ 4
unfolding new
spending_bounded_example =
    spending_bounded HardCounter.requests policy 10 ledger history refl (omega arith) (omega arith)
      history_honest

abbrev cancelled : Ledger
cancelled = (cancel (run ledger (reserves (usage 2) 11 ∷ [])) 1).0

settled-Inv : Inv cancelled
unfolding new run step
settled-Inv = run-Inv policy 10 ledger (reserves (usage 2) 11 ∷ cancels 1 ∷ []) refl (omega arith)

cancel_settles_example : IsSettled 1 (run cancelled history)
unfolding run step reserve reserve_in_time check_time open_reservation cancel close add subtract
    exceeds lookup insert delete
cancel_settles_example =
    cancel_settles (run ledger (reserves (usage 2) 11 ∷ [])) 1 history (omega arith) settled-Inv
      refl

-- A ledger of which one request is used.
abbrev used_one : Ledger
used_one = record ledger { consumed = record no_usage { requests = 1 } }

reserve_overflow_example :
    (reserve used_one (record no_usage { requests = 9223372036854775807 }) 20).1 ≡ ok 1
unfolding add exceeds
reserve_overflow_example =
    reserve_overflow used_one 9223372036854775807 20 refl (omega arith) refl (omega arith)
      (omega arith) (omega arith) (omega arith) (omega arith) (omega arith)
