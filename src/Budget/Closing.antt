-- ===== src/Budget/Closing.antt =====
-- Settled reservations, exhaustion and the cleanup budget (internal/budget/ledger.go).
use agentapi_doctor.Common.{
  ℕ, ◌+◌, ◌<◌, ◌≡◌, ◌≢◌, Bool, true, false, List, [], ◌∷◌, Option, none, some, arith, add64, lookup,
  nat_eq, length, if◌then◌else◌, inl, inr, lookup-insert, Option-cases, ok,
}
use agentapi_doctor.Budget.{
  Usage, Reservation, Ledger, Call, reserve, reserve_in_time, open_reservation, commit, commit_open,
  cancel, close, consume_cleanup, snapshot, check_time, step, run, reserves, commits, cancels,
  consumes_cleanup, snapshots, is_valid_usage, reservation_closed,
}
use agentapi_doctor.Budget.Accounts.{Inv}
use agentapi_doctor.Budget.Balance.{step-Inv, step_next_id}

-- The reservation `id` is there, and is closed or not.
abbrev closed? : Option Reservation → Bool
closed? none = false
closed? (some r) = r.closed

abbrev IsClosed : ℕ → Ledger → Type 0
IsClosed id l = closed? (lookup id l.reservations) ≡ true

-- A call opens a reservation under the next id or closes one; it reopens none.
step-IsClosed :
    (id : ℕ) (l : Ledger) (c : Call)
    → l.next_id + 1 < 18446744073709551616
    → Inv l
    → IsClosed id l
    → IsClosed id (step l c)
unfolding step reserve reserve_in_time open_reservation commit commit_open cancel close
    consume_cleanup snapshot check_time
step-IsClosed id l (reserves planned now) room v h = ground (
  arith,
  v.old_ids id,
  lookup-insert (add64 l.next_id 1) id (record { planned = planned; closed = false })
      l.reservations,
)
step-IsClosed id l (commits j actual now) room v h = elim (Option-cases (lookup j l.reservations)) [
  | inl e ↦ ground arith
  | inr (r, e) ↦ ground (arith, lookup-insert j id (record r { closed = true }) l.reservations)
]
step-IsClosed id l (cancels j) room v h = elim (Option-cases (lookup j l.reservations)) [
  | inl e ↦ ground arith
  | inr (r, e) ↦ ground (arith, lookup-insert j id (record r { closed = true }) l.reservations)
]
step-IsClosed id l (consumes_cleanup actual) room v h = ground arith
step-IsClosed id l (snapshots now) room v h = ground arith

run-IsClosed :
    (id : ℕ) (l : Ledger) (cs : List Call)
    → l.next_id + length cs < 18446744073709551616
    → Inv l
    → IsClosed id l
    → IsClosed id (run l cs)
unfolding run
run-IsClosed id l [] room v h = h
run-IsClosed id l (c ∷ cs) room v h =
    run-IsClosed id (step l c) cs (omega (arith, step_next_id l c)) (step-Inv l c (omega arith) v)
      (step-IsClosed id l c (omega arith) v h)

-- Both ways to settle a reservation refuse, and leave the ledger as it is.
abbrev pub IsSettled : ℕ → Ledger → Type 0
IsSettled id l =
    (cancel l id ≡ (l, some reservation_closed))
    × ((actual : Usage) (now : ℕ)
        → is_valid_usage actual ≡ true
        → commit l id actual now ≡ (l, some reservation_closed))

IsClosed-IsSettled : (id : ℕ) (l : Ledger) → IsClosed id l → IsSettled id l
unfolding cancel commit
IsClosed-IsSettled id l h = (ground arith, λ actual now valid. ground arith)

cancel-IsClosed : (l : Ledger) (id : ℕ) → (cancel l id).1 ≡ none → IsClosed id (cancel l id).0
unfolding cancel close
cancel-IsClosed l id h = elim (Option-cases (lookup id l.reservations)) [
  | inl e ↦ ground arith
  | inr (r, e) ↦ ground (arith, lookup-insert id id (record r { closed = true }) l.reservations)
]

-- After a `Cancel` that succeeded, and any further calls, the reservation can be neither cancelled
-- nor committed again (while fewer than 2 ^ 64 ids are given out).
pub cancel_settles :
    (l : Ledger) (id : ℕ) (cs : List Call)
    → (cancel l id).0.next_id + length cs < 18446744073709551616
    → Inv (cancel l id).0
    → (cancel l id).1 ≡ none
    → IsSettled id (run (cancel l id).0 cs)
cancel_settles l id cs room v h =
    IsClosed-IsSettled id (run (cancel l id).0 cs)
      (run-IsClosed id (cancel l id).0 cs room v (cancel-IsClosed l id h))

-- Once a ledger is exhausted it stays so.
step_exhausted : (l : Ledger) (c : Call) → l.is_exhausted ≡ true → (step l c).is_exhausted ≡ true
unfolding step reserve reserve_in_time open_reservation commit commit_open cancel close
    consume_cleanup snapshot check_time
step_exhausted l (reserves planned now) h = ground arith
step_exhausted l (commits id actual now) h = ground arith
step_exhausted l (cancels id) h = ground arith
step_exhausted l (consumes_cleanup actual) h = ground arith
step_exhausted l (snapshots now) h = ground arith

run_exhausted :
    (l : Ledger) (cs : List Call) → l.is_exhausted ≡ true → (run l cs).is_exhausted ≡ true
unfolding run
run_exhausted l [] h = h
run_exhausted l (c ∷ cs) h = run_exhausted (step l c) cs (step_exhausted l c h)

reserve_exhausted :
    (l : Ledger) (planned : Usage) (now id : ℕ)
    → l.is_exhausted ≡ true
    → (reserve l planned now).1 ≢ ok id
unfolding reserve reserve_in_time check_time
reserve_exhausted l planned now id h = ground arith

-- An exhausted ledger gives out no reservation, whatever calls are made before.
pub exhausted_reserves_nothing :
    (l : Ledger) (cs : List Call) (planned : Usage) (now id : ℕ)
    → l.is_exhausted ≡ true
    → (reserve (run l cs) planned now).1 ≢ ok id
exhausted_reserves_nothing l cs planned now id h =
    reserve_exhausted (run l cs) planned now id (run_exhausted l cs h)

abbrev pub is_cleanup : Call → Bool
is_cleanup (consumes_cleanup actual) = true
is_cleanup _ = false

-- The cleanup budget is apart: a cleanup call changes nothing but what cleanup has consumed, and no
-- other call changes that.
pub cleanup_apart :
    (l : Ledger) (c : Call)
    → (if is_cleanup c
        then step l c ≡ record l { cleanup_consumed = (step l c).cleanup_consumed }
        else (step l c).cleanup_consumed ≡ l.cleanup_consumed)
unfolding step reserve reserve_in_time open_reservation commit commit_open cancel close
    consume_cleanup snapshot check_time
cleanup_apart l (reserves planned now) = ground arith
cleanup_apart l (commits id actual now) = ground arith
cleanup_apart l (cancels id) = ground arith
cleanup_apart l (consumes_cleanup actual) = ground arith
cleanup_apart l (snapshots now) = ground arith

-- Cleanup is served, or refused, in the same way whether or not the ledger is exhausted.
pub cleanup_when_exhausted :
    (l : Ledger) (actual : Usage)
    → (consume_cleanup (record l { is_exhausted = true }) actual).1 ≡ (consume_cleanup l actual).1
unfolding consume_cleanup
cleanup_when_exhausted l actual = ground arith
