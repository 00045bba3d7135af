-- ===== src/Budget.antt =====
-- internal/budget/ledger.go and the budget policies of pkg/schema/plan.go. Each method runs under the
-- ledger's lock, so it is one step; the clock is an argument. Times and durations are numbers of
-- nanoseconds, the counters of a usage are int64 bit patterns. A reservation is named by its id:
-- `reservations` holds the objects that `Reserve` has returned, `open_ids` has the keys of the
-- ledger's own map.
pub mod Words
pub mod Accounts
pub mod Balance
pub mod Limits
pub mod Spending
pub mod Closing
pub mod Tests
use agentapi_doctor.Common.{
  ℕ, suc, ◌+◌, ◌≤◌, ◌<◌, Bool, true, false, not, ◌&&◌, ◌||◌, List, [], ◌∷◌, Option, none, some,
  if◌then◌else◌, is_negative, lt64, add64, sub64, leb, ltb, eqb, lookup, insert, delete, nat_eq,
  Result, ok, err,
}

pub record Usage : Type 0 where
  pub requests : ℕ
  pub request_bytes : ℕ
  pub response_bytes : ℕ
  pub artifact_bytes : ℕ
  pub processes : ℕ
  pub input_tokens : ℕ
  pub output_tokens : ℕ

pub record HardBudget : Type 0 where
  pub max_requests : ℕ
  pub max_request_bytes : ℕ
  pub max_response_bytes : ℕ
  pub max_artifact_bytes : ℕ
  pub max_processes : ℕ
  pub max_duration : ℕ

pub record TokenBudget : Type 0 where
  pub max_input_tokens : ℕ
  pub max_output_tokens : ℕ

pub record BudgetPolicy : Type 0 where
  pub hard : HardBudget
  pub reservation : TokenBudget
  pub cleanup : HardBudget

pub data Reason : Type 0 where
  requests request_bytes response_bytes artifact_bytes processes input_tokens output_tokens
        duration :
      Reason

pub data Error : Type 0 where
  invalid_consumption reservation_closed nothing_reserved no_reservation already_exhausted : Error
  exhausted cleanup_exhausted : Reason → Error

abbrev pub no_usage : Usage
no_usage = record {
  requests = 0;
  request_bytes = 0;
  response_bytes = 0;
  artifact_bytes = 0;
  processes = 0;
  input_tokens = 0;
  output_tokens = 0;
}

-- `Usage.Validate` succeeds.
abbrev pub is_valid_usage : Usage → Bool
is_valid_usage u = not (
    is_negative u.requests
    || is_negative u.request_bytes
    || is_negative u.response_bytes
    || is_negative u.artifact_bytes
    || is_negative u.processes
    || is_negative u.input_tokens
    || is_negative u.output_tokens)

unfoldable pub add : Usage → Usage → Usage
add u v = record {
  requests = add64 u.requests v.requests;
  request_bytes = add64 u.request_bytes v.request_bytes;
  response_bytes = add64 u.response_bytes v.response_bytes;
  artifact_bytes = add64 u.artifact_bytes v.artifact_bytes;
  processes = add64 u.processes v.processes;
  input_tokens = add64 u.input_tokens v.input_tokens;
  output_tokens = add64 u.output_tokens v.output_tokens;
}

unfoldable pub subtract : Usage → Usage → Usage
subtract u v = record {
  requests = sub64 u.requests v.requests;
  request_bytes = sub64 u.request_bytes v.request_bytes;
  response_bytes = sub64 u.response_bytes v.response_bytes;
  artifact_bytes = sub64 u.artifact_bytes v.artifact_bytes;
  processes = sub64 u.processes v.processes;
  input_tokens = sub64 u.input_tokens v.input_tokens;
  output_tokens = sub64 u.output_tokens v.output_tokens;
}

abbrev positive_part : ℕ → ℕ
positive_part a = if is_negative a then 0 else a

unfoldable pub positive_difference : Usage → Usage → Usage
positive_difference actual planned =
    let d = subtract actual planned in
    record {
      requests = positive_part d.requests;
      request_bytes = positive_part d.request_bytes;
      response_bytes = positive_part d.response_bytes;
      artifact_bytes = positive_part d.artifact_bytes;
      processes = positive_part d.processes;
      input_tokens = positive_part d.input_tokens;
      output_tokens = positive_part d.output_tokens;
    }

unfoldable pub exceeds : Usage → HardBudget → TokenBudget → Option Reason
exceeds u hard tokens =
    if lt64 hard.max_requests u.requests
    then some requests
    else if lt64 hard.max_request_bytes u.request_bytes
    then some request_bytes
    else if lt64 hard.max_response_bytes u.response_bytes
    then some response_bytes
    else if lt64 hard.max_artifact_bytes u.artifact_bytes
    then some artifact_bytes
    else if lt64 hard.max_processes u.processes
    then some processes
    else if lt64 0 tokens.max_input_tokens && lt64 tokens.max_input_tokens u.input_tokens
    then some input_tokens
    else if lt64 0 tokens.max_output_tokens && lt64 tokens.max_output_tokens u.output_tokens
    then some output_tokens
    else none

pub record Reservation : Type 0 where
  pub planned : Usage
  pub closed : Bool

pub record Ledger : Type 0 where
  pub policy : BudgetPolicy
  pub started_at : ℕ
  pub deadline : ℕ
  pub consumed : Usage
  pub reserved : Usage
  pub cleanup_consumed : Usage
  pub overshoot : Usage
  pub is_exhausted : Bool
  pub next_id : ℕ
  pub open_ids : List (ℕ × Unit {0})
  pub reservations : List (ℕ × Reservation)

-- `budget.Validate` of a hard budget, of a token budget and of a policy succeeds.
abbrev pub is_valid_hard : HardBudget → Bool
is_valid_hard b =
    lt64 0 b.max_requests
    && lt64 0 b.max_request_bytes
    && lt64 0 b.max_response_bytes
    && lt64 0 b.max_artifact_bytes
    && lt64 0 b.max_processes
    && lt64 0 b.max_duration

abbrev pub is_valid_tokens : TokenBudget → Bool
is_valid_tokens b = not (is_negative b.max_input_tokens || is_negative b.max_output_tokens)

abbrev pub is_valid_policy : BudgetPolicy → Bool
is_valid_policy p = is_valid_hard p.hard && is_valid_tokens p.reservation && is_valid_hard p.cleanup

abbrev pub fresh_ledger : BudgetPolicy → ℕ → Ledger
fresh_ledger policy now = record {
  policy = policy;
  started_at = now;
  deadline = now + policy.hard.max_duration;
  consumed = no_usage;
  reserved = no_usage;
  cleanup_consumed = no_usage;
  overshoot = no_usage;
  is_exhausted = false;
  next_id = 0;
  open_ids = [];
  reservations = [];
}

-- `New`; an invalid policy gives no ledger.
unfoldable pub new : BudgetPolicy → ℕ → Option Ledger
new policy now = if not (is_valid_policy policy) then none else some (fresh_ledger policy now)

-- `checkTimeLocked`.
unfoldable pub check_time : Ledger → ℕ → Ledger × Option Error
check_time l now =
    if not (ltb now l.deadline)
    then (record l { is_exhausted = true }, some (exhausted duration))
    else (l, none)

-- The end of `Reserve`: the next id, and the reservation under it.
unfoldable pub open_reservation : Ledger → Usage → Ledger
open_reservation l planned =
    let id = add64 l.next_id 1 in
    record l {
      next_id = id;
      open_ids = insert id tt l.open_ids;
      reservations = insert id (record { planned = planned; closed = false }) l.reservations;
      reserved = add l.reserved planned;
    }

-- `Reserve` behind the check of the time.
unfoldable pub reserve_in_time : Ledger → Usage → Ledger × Result Error ℕ
reserve_in_time l planned =
    if l.is_exhausted
    then (l, err already_exhausted)
    else elim (exceeds (add (add l.consumed l.reserved) planned) l.policy.hard
        l.policy.reservation) [
          | some reason ↦ (l, err (exhausted reason))
          | none ↦ (open_reservation l planned, ok (add64 l.next_id 1))
        ]

-- `Reserve` behind its reading of the clock.
abbrev pub reserve_checked : Ledger × Option Error → Usage → Ledger × Result Error ℕ
reserve_checked (l, some e) planned = (l, err e)
reserve_checked (l, none) planned = reserve_in_time l planned

-- The result is the id of the new reservation.
unfoldable pub reserve : Ledger → Usage → ℕ → Ledger × Result Error ℕ
reserve l planned now =
    if not (is_valid_usage planned)
    then (l, err invalid_consumption)
    else if eqb planned.requests 0 && eqb planned.processes 0
    then (l, err nothing_reserved)
    else reserve_checked (check_time l now) planned

-- What `Commit` and `Cancel` do to the ledger first.
unfoldable pub close : Ledger → ℕ → Reservation → Ledger
close l id r = record l {
  open_ids = delete id l.open_ids;
  reservations = insert id (record r { closed = true }) l.reservations;
  reserved = subtract l.reserved r.planned;
}

-- `Commit` behind its checks.
unfoldable pub commit_open : Ledger → ℕ → Reservation → Usage → ℕ → Ledger × Option Error
commit_open l id r actual now =
    let closing = close l id r in
    let l' = record closing {
      consumed = add l.consumed actual;
      overshoot = add l.overshoot (positive_difference actual r.planned);
    } in
    elim (exceeds l'.consumed l.policy.hard l.policy.reservation) [
      | some reason ↦ (record l' { is_exhausted = true }, some (exhausted reason))
      | none ↦ check_time l' now
    ]

unfoldable pub commit : Ledger → ℕ → Usage → ℕ → Ledger × Option Error
commit l id actual now =
    if not (is_valid_usage actual)
    then (l, some invalid_consumption)
    else elim (lookup id l.reservations) [
      | none ↦ (l, some no_reservation)
      | some r ↦ if r.closed then (l, some reservation_closed) else commit_open l id r actual now
    ]

unfoldable pub cancel : Ledger → ℕ → Ledger × Option Error
cancel l id = elim (lookup id l.reservations) [
  | none ↦ (l, some no_reservation)
  | some r ↦ if r.closed then (l, some reservation_closed) else (close l id r, none)
]

abbrev pub no_tokens : TokenBudget
no_tokens = record { max_input_tokens = 0; max_output_tokens = 0 }

unfoldable pub consume_cleanup : Ledger → Usage → Ledger × Option Error
consume_cleanup l actual =
    if not (is_valid_usage actual)
    then (l, some invalid_consumption)
    else elim (exceeds (add l.cleanup_consumed actual) l.policy.cleanup no_tokens) [
      | some reason ↦ (l, some (cleanup_exhausted reason))
      | none ↦ (record l { cleanup_consumed = add l.cleanup_consumed actual }, none)
    ]

pub record Snapshot : Type 0 where
  pub consumed : Usage
  pub reserved : Usage
  pub cleanup_consumed : Usage
  pub overshoot : Usage
  pub started_at : ℕ
  pub deadline : ℕ
  pub is_exhausted : Bool

-- `Snapshot`; its field `Unknown` is left empty by the code.
unfoldable pub snapshot : Ledger → ℕ → Ledger × Snapshot
snapshot l now =
    let (l', late) = check_time l now in
    (
      l',
      record {
        consumed = l'.consumed;
        reserved = l'.reserved;
        cleanup_consumed = l'.cleanup_consumed;
        overshoot = l'.overshoot;
        started_at = l'.started_at;
        deadline = l'.deadline;
        is_exhausted = l'.is_exhausted;
      },
    )

-- The calls that a ledger serves, each with the time at which it is served.
pub data Call : Type 0 where
  reserves : Usage → ℕ → Call
  commits : ℕ → Usage → ℕ → Call
  cancels : ℕ → Call
  consumes_cleanup : Usage → Call
  snapshots : ℕ → Call

unfoldable pub step : Ledger → Call → Ledger
step l (reserves planned now) = (reserve l planned now).0
step l (commits id actual now) = (commit l id actual now).0
step l (cancels id) = (cancel l id).0
step l (consumes_cleanup actual) = (consume_cleanup l actual).0
step l (snapshots now) = (snapshot l now).0

unfoldable pub run : Ledger → List Call → Ledger
run l [] = l
run l (c ∷ cs) = run (step l c) cs
