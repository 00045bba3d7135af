-- ===== src/Budget/Balance.antt =====
-- The calls on a ledger of internal/budget/ledger.go and its account of open reservations.
use agentapi_doctor.Common.{
  ℕ, ◌+◌, ◌≤◌, ◌<◌, ◌≡◌, ◌⊎◌, true, false, not, ◌&&◌, List, [], ◌∷◌, none, some, arith, refl,
  lookup, nat_eq, length, inl, inr, if_split, eqb, subst, Option-cases,
}
use agentapi_doctor.Budget.{
  Usage, Reservation, Ledger, Call, BudgetPolicy, add, reserve, reserve_in_time, open_reservation,
  commit, commit_open, cancel, close, consume_cleanup, snapshot, check_time, step, run, new,
  exceeds, exhausted, duration, reserves, commits, cancels, consumes_cleanup, snapshots,
  is_valid_usage, no_tokens, fresh_ledger,
}
use agentapi_doctor.Budget.Words.{IsWords-valid}
use agentapi_doctor.Budget.Accounts.{Inv, open_reservation-Inv, close-Inv, spend-Inv, open_total}

pub check_time_cases :
    (l : Ledger) (now : ℕ)
    → (check_time l now ≡ (l, none))
      ⊎ (check_time l now ≡ (record l { is_exhausted = true }, some (exhausted duration)))
unfolding check_time
check_time_cases l now = ground arith

abbrev Keeps {ℓ} : {A : Type ℓ} → Ledger × A → Type 0
Keeps o = Inv o.0

check_time-Inv : (l : Ledger) (now : ℕ) → Inv l → Inv (check_time l now).0
check_time-Inv l now v = elim (check_time_cases l now) [
  | inl h ↦ rw h v
  | inr h ↦ rw h (spend-Inv l l.consumed l.cleanup_consumed l.overshoot true v)
]

reserve-Inv :
    (l : Ledger) (planned : Usage) (now : ℕ)
    → l.next_id + 1 < 18446744073709551616
    → Inv l
    → Inv (reserve l planned now).0
unfolding reserve reserve_in_time
reserve-Inv l planned now room v =
    if_split Keeps (not (is_valid_usage planned)) _ _ (λ _. v)
      (λ valid.
        if_split Keeps (eqb planned.requests 0 && eqb planned.processes 0) _ _ (λ _. v)
          (λ _. elim (check_time_cases l now) [
            | inr h ↦ rw (h, reserve) (spend-Inv l l.consumed l.cleanup_consumed l.overshoot true v)
            | inl h ↦ rw (h, reserve) (in_time (ground arith))
          ]))
  where
    in_time : is_valid_usage planned ≡ true → Inv (reserve_in_time l planned).0
    in_time valid =
        if_split Keeps l.is_exhausted _ _ (λ _. v)
          (λ _.
            elim (Option-cases (
              exceeds (add (add l.consumed l.reserved) planned) l.policy.hard
                l.policy.reservation)) [
                  | inl h ↦
                      rw (h, reserve_in_time)
                        (open_reservation-Inv l planned room (IsWords-valid planned valid) v)
                  | inr (x, h) ↦ rw (h, reserve_in_time) v
                ])

commit_open_lem :
    (l : Ledger) (id : ℕ) (r : Reservation) (actual : Usage) (now : ℕ)
    → Inv (close l id r)
    → Inv (commit_open l id r actual now).0
unfolding commit_open
commit_open_lem l id r actual now v =
    elim (Option-cases (exceeds (add l.consumed actual) l.policy.hard l.policy.reservation)) [
      | inl h ↦
          rw (h, commit_open)
            (check_time-Inv _ now (
              spend-Inv (close l id r) _ (close l id r).cleanup_consumed _
                (close l id r).is_exhausted v))
      | inr (x, h) ↦
          rw (h, commit_open) (spend-Inv (close l id r) _ (close l id r).cleanup_consumed _ true v)
    ]

commit-Inv :
    (l : Ledger) (id : ℕ) (actual : Usage) (now : ℕ) → Inv l → Inv (commit l id actual now).0
unfolding commit
commit-Inv l id actual now v =
    if_split Keeps (not (is_valid_usage actual)) _ _ (λ _. v)
      (λ _. elim (Option-cases (lookup id l.reservations)) [
        | inl h ↦ rw (h, commit) v
        | inr (r, h) ↦
            rw (h, commit) (if_split Keeps r.closed _ _ (λ _. v) (λ o. commit_open-Inv r h o))
      ])
  where
    commit_open-Inv :
        (r : Reservation)
        → lookup id l.reservations ≡ some r
        → r.closed ≡ false
        → Inv (commit_open l id r actual now).0
    commit_open-Inv r h o = commit_open_lem l id r actual now (close-Inv l id r h o v)

cancel-Inv : (l : Ledger) (id : ℕ) → Inv l → Inv (cancel l id).0
unfolding cancel
cancel-Inv l id v = elim (Option-cases (lookup id l.reservations)) [
  | inl h ↦ rw (h, cancel) v
  | inr (r, h) ↦ rw (h, cancel) (if_split Keeps r.closed _ _ (λ _. v) (λ o. close-Inv l id r h o v))
]

consume_cleanup-Inv : (l : Ledger) (actual : Usage) → Inv l → Inv (consume_cleanup l actual).0
unfolding consume_cleanup
consume_cleanup-Inv l actual v =
    if_split Keeps (not (is_valid_usage actual)) _ _ (λ _. v)
      (λ _.
        elim (Option-cases (exceeds (add l.cleanup_consumed actual) l.policy.cleanup no_tokens)) [
          | inl h ↦ rw (h, consume_cleanup) (spend-Inv l l.consumed _ l.overshoot l.is_exhausted v)
          | inr (x, h) ↦ rw (h, consume_cleanup) v
        ])

pub step-Inv :
    (l : Ledger) (c : Call) → l.next_id + 1 < 18446744073709551616 → Inv l → Inv (step l c)
unfolding step snapshot
step-Inv l (reserves planned now) room v = reserve-Inv l planned now room v
step-Inv l (commits id actual now) room v = commit-Inv l id actual now v
step-Inv l (cancels id) room v = cancel-Inv l id v
step-Inv l (consumes_cleanup actual) room v = consume_cleanup-Inv l actual v
step-Inv l (snapshots now) room v = check_time-Inv l now v

-- A call takes one id at most.
pub step_next_id :
    (l : Ledger) (c : Call)
    → l.next_id + 1 < 18446744073709551616
    → (step l c).next_id ≤ l.next_id + 1
unfolding step reserve reserve_in_time open_reservation commit commit_open cancel close
    consume_cleanup snapshot check_time
step_next_id l (reserves planned now) room = ground arith
step_next_id l (commits id actual now) room = ground arith
step_next_id l (cancels id) room = ground arith
step_next_id l (consumes_cleanup actual) room = ground arith
step_next_id l (snapshots now) room = ground arith

run_from-Inv :
    (l : Ledger) (cs : List Call)
    → l.next_id + length cs < 18446744073709551616
    → Inv l
    → Inv (run l cs)
unfolding run
run_from-Inv l [] room v = v
run_from-Inv l (c ∷ cs) room v =
    run_from-Inv (step l c) cs (omega (arith, step_next_id l c)) (step-Inv l c (omega arith) v)

pub new-Inv :
    (policy : BudgetPolicy) (now : ℕ) (l : Ledger)
    → new policy now ≡ some l
    → Inv l × (l.next_id ≡ 0)
unfolding new lookup open_total
new-Inv policy now l h = subst (λ (k : Ledger). Inv k × (k.next_id ≡ 0)) made (first, refl)
  where
    made : fresh_ledger policy now ≡ l
    made = ground arith

    first : Inv (fresh_ledger policy now)
    first = record { words = tt; balanced = refl; old_ids = λ id h. refl; open_known = λ id. refl }

-- After fewer than 2 ^ 64 calls of any kind on a new ledger, `reserved` is the sum of what the
-- reservations plan that are neither committed nor cancelled, and `open_ids` holds exactly their ids.
pub run-Inv :
    (policy : BudgetPolicy) (now : ℕ) (l : Ledger) (cs : List Call)
    → new policy now ≡ some l
    → length cs < 18446744073709551616
    → Inv (run l cs)
run-Inv policy now l cs h room =
    let (v, none_yet) = new-Inv policy now l h in run_from-Inv l cs (omega arith) v
