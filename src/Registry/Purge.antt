-- ===== src/Registry/Purge.antt =====
-- internal/registry/purge.go: the removal of sensitive material from every place that serves it. Each
-- method runs under a lock, so it is one step; a snapshot has the same fields.
use agentapi_doctor.Common.{
  ℕ, ◌+◌, String, Bool, true, false, not, ◌&&◌, ◌||◌, List, [], ◌∷◌, ◌++◌, Option, none, some, ◌==◌,
  string_eq, eqb, ltb, add64, length, lookup, insert, if◌then◌else◌, Result, ok, err,
}
use agentapi_doctor.Registry.{
  Checks, Error, Principal, invalid, conflict, invalid_transition, require_scope,
}

pub data Reason : Type 0 where
  secret pii unlawful_content unauthorized_submission : Reason
  other : String → Reason

unfoldable pub is_reason : Reason → Bool
is_reason (other s) = false
is_reason r = true

pub data TargetStatus : Type 0 where
  pending purged not_applicable : TargetStatus
  other : String → TargetStatus

pub data Status : Type 0 where
  requested in_progress completed : Status

pub record Event : Type 0 where
  pub sequence : ℕ
  pub actor : String
  pub action : String
  pub target : String
  pub at : ℕ

-- A target is named by its text; `completed_at` is 0 before the completion.
pub record Request : Type 0 where
  pub event_id : String
  pub reason : Reason
  pub status : Status
  pub requested_at : ℕ
  pub deadline : ℕ
  pub completed_at : ℕ
  pub targets : List (String × TargetStatus)
  pub events : List Event

-- A day of nanoseconds.
abbrev pub active_store_purge_target : ℕ
active_store_purge_target = 86_400_000_000_000

-- `allPurgeTargets`, each of them pending.
abbrev pub all_targets : List (String × TargetStatus)
all_targets =
    ("object_store", pending)
    ∷ ("cdn", pending)
    ∷ ("search", pending)
    ∷ ("cache", pending)
    ∷ ("public_page", pending)
    ∷ []

abbrev pub is_pending : TargetStatus → Bool
is_pending pending = true
is_pending s = false

unfoldable pub all_terminal : List (String × TargetStatus) → Bool
all_terminal [] = true
all_terminal ((t, s) ∷ rest) = not (is_pending s) && all_terminal rest

unfoldable pub same_status : TargetStatus → TargetStatus → Bool
same_status pending pending = true
same_status purged purged = true
same_status not_applicable not_applicable = true
same_status (other s) (other t) = s == t
same_status s t = false

-- The two statuses that a target may be given, and the action that is written down for each.
unfoldable pub action_of : TargetStatus → Option String
action_of purged = some "purged"
action_of not_applicable = some "not_applicable"
action_of s = none

-- `appendEventLocked`.
unfoldable pub append_event : Request → String → String → String → ℕ → Request
append_event r actor action target now = record r {
  events =
      r.events
      ++ record {
        sequence = add64 (length r.events) 1;
        actor = actor;
        action = action;
        target = target;
        at = now;
      }
        ∷ [];
}

unfoldable pub missed_deadline : Request → ℕ → Bool
missed_deadline r now = elim r.status [
  | completed ↦ false
  | _ ↦ not (eqb now 0) && not (ltb now r.deadline)
]

-- A target that is pending is given its status, and with the last one the request is complete.
unfoldable pub finish_target : Request → String → String → TargetStatus → String → ℕ → Request
finish_target r actor target status action now =
    let done =
      append_event (record r { targets = insert target status r.targets }) actor action target
        now in
    if all_terminal done.targets
    then append_event (record done { status = completed; completed_at = now }) actor "completed" ""
        now
    else done

-- The part of `CompleteTarget` behind its checks of the target and of its status.
unfoldable pub complete_known :
    Request → String → String → TargetStatus → TargetStatus → String → ℕ → Request × Option Error
complete_known r actor target current status action now = elim r.status [
  | completed ↦ if same_status current status then (r, none) else (r, some invalid_transition)
  | requested ↦ (r, some invalid_transition)
  | in_progress ↦
      if same_status current status
      then (r, none)
      else if not (is_pending current)
      then (r, some conflict)
      else if eqb now 0
      then (r, some invalid)
      else (finish_target r actor target status action now, none)
]

module _ (k : Checks) where
  unfoldable pub new_purge : Principal → String → Reason → ℕ → Result Error Request
  new_purge p event_id reason now = elim (require_scope k p "moderation:review") [
    | some e ↦ err e
    | none ↦
        if not (k.is_instance event_id && is_reason reason) || eqb now 0
        then err invalid
        else ok (
            append_event
              (record {
                event_id = event_id;
                reason = reason;
                status = requested;
                requested_at = now;
                deadline = now + active_store_purge_target;
                completed_at = 0;
                targets = all_targets;
                events = [];
              })
              p.id "requested" "" now)
  ]

  unfoldable pub start : Request → Principal → ℕ → Request × Option Error
  start r p now = elim (require_scope k p "moderation:review") [
    | some e ↦ (r, some e)
    | none ↦ elim r.status [
      | in_progress ↦ (r, none)
      | completed ↦ (r, some invalid_transition)
      | requested ↦
          if eqb now 0
          then (r, some invalid)
          else (append_event (record r { status = in_progress }) p.id "started" "" now, none)
    ]
  ]

  unfoldable pub complete_target :
      Request → Principal → String → TargetStatus → ℕ → Request × Option Error
  complete_target r p target status now = elim (require_scope k p "moderation:review") [
    | some e ↦ (r, some e)
    | none ↦ elim (lookup target r.targets) [
      | none ↦ (r, some invalid)
      | some current ↦ elim (action_of status) [
        | none ↦ (r, some invalid)
        | some action ↦ complete_known r p.id target current status action now
      ]
    ]
  ]
