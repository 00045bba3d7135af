-- ===== src/Budget/Limits.antt =====
-- The hard limits of internal/budget/ledger.go, one counter at a time, and sums at the end of the
-- int64 range.
use agentapi_doctor.Common.{
  ℕ, ◌+◌, ◌≤◌, ◌<◌, ◌≡◌, Bool, true, false, not, ◌&&◌, List, [], ◌∷◌, none, some, arith, refl,
  add64, sub64, lt64, lookup, insert, nat_eq, length, if◌then◌else◌, inl, inr, if_split, eqb,
  Option-cases,
}
use agentapi_doctor.Budget.{
  Usage, Reservation, Ledger, Call, HardBudget, TokenBudget, add, subtract, no_usage, reserve,
  reserve_in_time, open_reservation, commit, commit_open, cancel, close, consume_cleanup, snapshot,
  check_time, step, run, exceeds, reserves, commits, cancels, consumes_cleanup, snapshots,
  is_valid_usage, no_tokens,
}
use agentapi_doctor.Budget.Accounts.{Inv}
use agentapi_doctor.Budget.Balance.{step-Inv, step_next_id, check_time_cases}
use agentapi_doctor.Budget.Words.{IsWords}

-- One of the five counters that have a hard limit.
pub record Counter : Type 0 where
  pub of : Usage → ℕ
  pub limit : HardBudget → ℕ
  pub of-add : (u v : Usage) → of (add u v) ≡ add64 (of u) (of v)
  pub of-subtract : (u v : Usage) → of (subtract u v) ≡ sub64 (of u) (of v)
  pub of_none : of no_usage ≡ 0
  pub of_valid : (u : Usage) → is_valid_usage u ≡ true → of u < 9223372036854775808
  pub of_word : (u : Usage) → IsWords u → of u < 18446744073709551616
  pub limited :
      (u : Usage) (hard : HardBudget) (tokens : TokenBudget)
      → exceeds u hard tokens ≡ none
      → lt64 (limit hard) (of u) ≡ false

module _ (k : Counter) where
  open k use {of, limit}

  -- What the open reservations plan, as a plain sum.
  unfoldable pub open_sum : List (ℕ × Reservation) → ℕ
  open_sum [] = 0
  open_sum ((id, r) ∷ rs) = if r.closed then open_sum rs else of r.planned + open_sum rs

  open_sum-insert :
      (id : ℕ) (r : Reservation) (rs : List (ℕ × Reservation))
      → r.closed ≡ false
      → lookup id rs ≡ none
      → open_sum (insert id r rs) ≡ of r.planned + open_sum rs
  unfolding open_sum lookup insert
  open_sum-insert id r [] o h = ground arith
  open_sum-insert id r ((j, s) ∷ rs) o h = ground (arith, open_sum-insert id r rs o)

  open_sum-close :
      (id : ℕ) (r : Reservation) (rs : List (ℕ × Reservation))
      → r.closed ≡ false
      → lookup id rs ≡ some r
      → open_sum (insert id (record r { closed = true }) rs) + of r.planned ≡ open_sum rs
  unfolding open_sum lookup insert
  open_sum-close id r [] o h = cc
  open_sum-close id r ((j, s) ∷ rs) o h = ground (arith, open_sum-close id r rs o)

  -- What is consumed and what is reserved stay within the limit, together.
  pub record Kept (l : Ledger) : Type 0 where
    pub reserved_sum : of l.reserved ≡ open_sum l.reservations
    pub within : of l.consumed + of l.reserved ≤ limit l.policy.hard
    pub limit_natural : limit l.policy.hard < 9223372036854775808

  -- A reservation may be of any size that adds up within an int64, and a call may not use more than
  -- was reserved for it.
  abbrev pub IsHonest : Ledger → Call → Type 0
  IsHonest l (reserves planned now) = of planned + limit l.policy.hard < 9223372036854775808
  IsHonest l (commits id actual now) =
      (r : Reservation) → lookup id l.reservations ≡ some r → of actual ≤ of r.planned
  IsHonest l _ = Unit

  module _ (l : Ledger) (v : Inv l) (h : Kept l) where
    open_reservation-Kept :
        (planned : Usage)
        → l.next_id + 1 < 18446744073709551616
        → is_valid_usage planned ≡ true
        → of planned + limit l.policy.hard < 9223372036854775808
        → exceeds (add (add l.consumed l.reserved) planned) l.policy.hard l.policy.reservation
          ≡ none
        → Kept (open_reservation l planned)
    unfolding open_reservation
    open_reservation-Kept planned room valid modest fits = record {
      reserved_sum = omega (arith, added, summed, h.reserved_sum);
      within = omega (arith, added, bounded);
      limit_natural = h.limit_natural;
    }
      where
        added : of (add l.reserved planned) ≡ add64 (of l.reserved) (of planned)
        added = k.of-add l.reserved planned

        summed :
            open_sum (
              insert
                (add64 l.next_id 1)
                (record { planned = planned; closed = false })
                l.reservations)
            ≡ of planned + open_sum l.reservations
        summed =
            open_sum-insert (add64 l.next_id 1) (record { planned = planned; closed = false })
              l.reservations refl (v.old_ids (add64 l.next_id 1) (omega arith))

        bounded : of l.consumed + of l.reserved + of planned ≤ limit l.policy.hard
        bounded = ground (
          arith,
          k.limited (add (add l.consumed l.reserved) planned) l.policy.hard l.policy.reservation
              fits,
          k.of-add (add l.consumed l.reserved) planned,
          k.of-add l.consumed l.reserved,
          h.within,
          h.limit_natural,
        )

    close-Kept :
        (id : ℕ) (r : Reservation) (c : Usage)
        → lookup id l.reservations ≡ some r
        → r.closed ≡ false
        → of c ≤ of l.consumed + of r.planned
        → Kept (record (close l id r) { consumed = c })
    unfolding close
    close-Kept id r c found is_open spent = record {
      reserved_sum = omega (
        arith,
        taken,
        k.of-subtract l.reserved r.planned,
        h.reserved_sum,
        h.within,
        h.limit_natural,
      );
      within = omega (
        arith,
        taken,
        k.of-subtract l.reserved r.planned,
        h.reserved_sum,
        h.within,
        h.limit_natural,
      );
      limit_natural = h.limit_natural;
    }
      where
        taken :
            open_sum (insert id (record r { closed = true }) l.reservations) + of r.planned
            ≡ open_sum l.reservations
        taken = open_sum-close id r l.reservations is_open found

  -- The account reads neither cleanup nor the flags.
  flags-Kept :
      (l : Ledger) (d o : Usage) (x : Bool)
      → Kept l
      → Kept (record l { cleanup_consumed = d; overshoot = o; is_exhausted = x })
  flags-Kept l d o x h = record {
    reserved_sum = h.reserved_sum;
    within = h.within;
    limit_natural = h.limit_natural;
  }

  abbrev Keeps {ℓ} : {A : Type ℓ} → Ledger × A → Type 0
  Keeps o = Kept o.0

  check_time-Kept : (l : Ledger) (now : ℕ) → Kept l → Kept (check_time l now).0
  check_time-Kept l now h = elim (check_time_cases l now) [
    | inl e ↦ rw e h
    | inr e ↦ rw e (flags-Kept l l.cleanup_consumed l.overshoot true h)
  ]

  module _ (l : Ledger) (room : l.next_id + 1 < 18446744073709551616) (v : Inv l) (h : Kept l) where
    reserve-Kept :
        (planned : Usage) (now : ℕ)
        → of planned + limit l.policy.hard < 9223372036854775808
        → Kept (reserve l planned now).0
    unfolding reserve reserve_in_time
    reserve-Kept planned now modest =
        if_split Keeps (not (is_valid_usage planned)) _ _ (λ _. h)
          (λ valid.
            if_split Keeps (eqb planned.requests 0 && eqb planned.processes 0) _ _ (λ _. h)
              (λ _. elim (check_time_cases l now) [
                | inr e ↦ rw (e, reserve) (flags-Kept l l.cleanup_consumed l.overshoot true h)
                | inl e ↦ rw (e, reserve) (in_time (ground arith))
              ]))
      where
        in_time : is_valid_usage planned ≡ true → Kept (reserve_in_time l planned).0
        in_time valid =
            if_split Keeps l.is_exhausted _ _ (λ _. h)
              (λ _.
                elim (Option-cases (
                  exceeds (add (add l.consumed l.reserved) planned) l.policy.hard
                    l.policy.reservation)) [
                      | inl e ↦
                          rw (e, reserve_in_time)
                            (open_reservation-Kept l v h planned room valid modest e)
                      | inr (x, e) ↦ rw (e, reserve_in_time) h
                    ])

    commit_open-Kept :
        (id : ℕ) (r : Reservation) (actual : Usage) (now : ℕ)
        → lookup id l.reservations ≡ some r
        → r.closed ≡ false
        → of actual ≤ of r.planned
        → Kept (commit_open l id r actual now).0
    unfolding commit_open close
    commit_open-Kept id r actual now found o honest =
        elim (Option-cases (exceeds (add l.consumed actual) l.policy.hard l.policy.reservation)) [
          | inl e ↦
              rw (e, commit_open)
                (check_time-Kept _ now (flags-Kept _ l.cleanup_consumed _ l.is_exhausted spent))
          | inr (x, e) ↦ rw (e, commit_open) (flags-Kept _ l.cleanup_consumed _ true spent)
        ]
      where
        spent : Kept (record (close l id r) { consumed = add l.consumed actual })
        spent =
            close-Kept l v h id r (add l.consumed actual) found o
              (omega (arith, k.of-add l.consumed actual))

    cancel-Kept : (id : ℕ) → Kept (cancel l id).0
    unfolding cancel close
    cancel-Kept id = elim (Option-cases (lookup id l.reservations)) [
      | inl e ↦ rw (e, cancel) h
      | inr (r, e) ↦
          rw (e, cancel)
            (if_split Keeps r.closed _ _ (λ _. h)
              (λ o. close-Kept l v h id r l.consumed e o (omega arith)))
    ]

    step-Kept : (c : Call) → IsHonest l c → Kept (step l c)
    unfolding step commit cancel consume_cleanup snapshot
    step-Kept (reserves planned now) honest = reserve-Kept planned now honest
    step-Kept (commits id actual now) honest =
        if_split Keeps (not (is_valid_usage actual)) _ _ (λ _. h)
          (λ _. elim (Option-cases (lookup id l.reservations)) [
            | inl e ↦ rw (e, commit) h
            | inr (r, e) ↦
                rw (e, commit)
                  (if_split Keeps r.closed _ _ (λ _. h)
                    (λ o. commit_open-Kept id r actual now e o (honest r e)))
          ])
    step-Kept (cancels id) honest = cancel-Kept id
    step-Kept (consumes_cleanup actual) honest =
        if_split Keeps (not (is_valid_usage actual)) _ _ (λ _. h)
          (λ _.
            elim (Option-cases
              (exceeds (add l.cleanup_consumed actual) l.policy.cleanup no_tokens)) [
                | inl e ↦ rw (e, consume_cleanup) (flags-Kept l _ l.overshoot l.is_exhausted h)
                | inr (x, e) ↦ rw (e, consume_cleanup) h
              ])
    step-Kept (snapshots now) honest = check_time-Kept l now h

  -- Every call of a history is honest where it is made.
  abbrev pub AllHonest : Ledger → List Call → Type 0
  AllHonest l [] = Unit
  AllHonest l (c ∷ cs) = IsHonest l c × AllHonest (step l c) cs

  pub run-Kept :
      (l : Ledger) (cs : List Call)
      → l.next_id + length cs < 18446744073709551616
      → Inv l
      → AllHonest l cs
      → Kept l
      → Kept (run l cs)
  unfolding run
  run-Kept l [] room v a h = h
  run-Kept l (c ∷ cs) room v a h =
      run-Kept (step l c) cs (omega (arith, step_next_id l c)) (step-Inv l c (omega arith) v) a.1
        (step-Kept l (omega arith) v h c a.0)
