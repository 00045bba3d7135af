-- ===== src/Registry/Dispute.antt =====
-- internal/registry/dispute.go: a dispute, its events, and the store's checks of a snapshot; and
-- supersessions and tombstones. Each method runs under the dispute's lock, so it is one step.
use agentapi_doctor.Common.{
  ℕ, ◌+◌, String, Bool, true, false, not, ◌&&◌, ◌||◌, List, [], ◌∷◌, ◌++◌, Option, none, some, ◌==◌,
  string_eq, eqb, ltb, add64, length, if◌then◌else◌, Result, ok, err,
}
use agentapi_doctor.Registry.{
  Checks, Error, Principal, invalid, forbidden, not_owner, invalid_transition, is_principal,
  is_reason, require_scope,
}
use agentapi_doctor.Registry.Ownership.{Ownership, authorize_manage}

pub data Status : Type 0 where
  opened under_review resolved superseded : Status
  other : String → Status

pub data EventKind : Type 0 where
  opened owner_response review_started resolved superseded : EventKind
  other : String → EventKind

pub record Event : Type 0 where
  pub sequence : ℕ
  pub kind : EventKind
  pub actor : String
  pub at : ℕ
  pub statement : String
  pub replacement_id : String

-- The snapshot of a dispute has the same fields; no reviewer is the empty text.
pub record Dispute : Type 0 where
  pub id : String
  pub observation_id : String
  pub subject : String
  pub creator : String
  pub subject_owner : String
  pub reviewer : String
  pub status : Status
  pub events : List Event

unfoldable pub is_open : Status → Bool
is_open Status.opened = true
is_open _ = false

unfoldable pub is_under_review : Status → Bool
is_under_review under_review = true
is_under_review _ = false

unfoldable pub is_status : Status → Bool
is_status (Status.other s) = false
is_status s = true

-- `appendEventLocked`.
unfoldable pub append_event : Dispute → EventKind → String → String → String → ℕ → Dispute
append_event d kind actor statement replacement now = record d {
  events =
      d.events
      ++ record {
        sequence = add64 (length d.events) 1;
        kind = kind;
        actor = actor;
        at = now;
        statement = statement;
        replacement_id = replacement;
      }
        ∷ [];
}

pub record Supersession : Type 0 where
  pub original_id : String
  pub replacement_id : String
  pub reason : String
  pub actor : String
  pub created_at : ℕ

pub record Tombstone : Type 0 where
  pub observation_id : String
  pub reason : String
  pub actor : String
  pub created_at : ℕ

module _ (k : Checks) where
  -- The replacement that an event of each kind carries.
  unfoldable pub is_replacement : EventKind → String → Bool
  is_replacement EventKind.superseded r = k.is_digest r
  is_replacement (EventKind.other s) r = false
  is_replacement kind r = r == ""

  -- The loop of `RestoreDispute` over the events, with the number and the time of the one before.
  unfoldable pub check_events : ℕ → ℕ → List Event → Bool
  check_events n previous [] = true
  check_events n previous (e ∷ es) =
      eqb e.sequence (add64 n 1)
      && not (eqb e.at 0)
      && not (ltb e.at previous)
      && is_principal k e.actor
      && is_reason k e.statement
      && is_replacement e.kind e.replacement_id
      && check_events (n + 1) e.at es

  -- The journal starts with the creator's event.
  unfoldable pub starts_with : String → List Event → Bool
  starts_with creator [] = false
  starts_with creator (e ∷ es) = elim e.kind [ EventKind.opened ↦ e.actor == creator | _ ↦ false ]

  unfoldable pub restore_dispute : Dispute → Result Error Dispute
  restore_dispute d =
      if not (k.is_instance d.id && k.is_digest d.observation_id && k.is_subject d.subject)
      then err invalid
      else if not (is_principal k d.creator && is_principal k d.subject_owner)
      then err invalid
      else if not (is_status d.status && (is_open d.status || is_principal k d.reviewer))
      then err invalid
      else if check_events 0 0 d.events && starts_with d.creator d.events
      then ok d
      else err invalid

  unfoldable pub new_dispute :
      Principal → String → String → String → String → String → ℕ → Result Error Dispute
  new_dispute p id observation_id subject subject_owner statement now =
      elim (require_scope k p "dispute:create") [
        | some e ↦ err e
        | none ↦
            if not (
              k.is_instance id
              && k.is_digest observation_id
              && k.is_subject subject
              && is_principal k subject_owner)
            then err invalid
            else if not (is_reason k statement) || eqb now 0
            then err invalid
            else ok (
                append_event
                  (record {
                    id = id;
                    observation_id = observation_id;
                    subject = subject;
                    creator = p.id;
                    subject_owner = subject_owner;
                    reviewer = "";
                    status = Status.opened;
                    events = [];
                  })
                  EventKind.opened p.id statement "" now)
      ]

  -- The methods return the dispute, with the error if there is one.
  unfoldable pub add_owner_response :
      Dispute → Principal → Ownership → String → ℕ → Dispute × Option Error
  add_owner_response d p o statement now =
      if eqb now 0 then (d, some invalid) else elim (require_scope k p "dispute:create") [
        | some e ↦ (d, some e)
        | none ↦ elim (authorize_manage k o p now) [
          | some e ↦ (d, some e)
          | none ↦
              if not (o.subject == d.subject && o.owner == d.subject_owner)
              then (d, some not_owner)
              else if not (is_reason k statement)
              then (d, some invalid)
              else if not (is_open d.status || is_under_review d.status)
              then (d, some invalid_transition)
              else (append_event d owner_response p.id statement "" now, none)
        ]
      ]

  unfoldable pub begin_review : Dispute → Principal → ℕ → Dispute × Option Error
  begin_review d p now = elim (require_scope k p "moderation:review") [
    | some e ↦ (d, some e)
    | none ↦
        if p.id == d.creator || p.id == d.subject_owner
        then (d, some forbidden)
        else if is_under_review d.status && d.reviewer == p.id
        then (d, none)
        else if not (is_open d.status)
        then (d, some invalid_transition)
        else if eqb now 0
        then (d, some invalid)
        else (
          append_event (record d { reviewer = p.id; status = under_review }) review_started p.id
              "review_started" "" now,
          none,
        )
  ]

  unfoldable pub authorize_reviewer : Dispute → Principal → Option Error
  authorize_reviewer d p = elim (require_scope k p "moderation:review") [
    | some e ↦ some e
    | none ↦ if not (p.id == d.reviewer) then some forbidden else none
  ]

  unfoldable pub resolve : Dispute → Principal → String → ℕ → Dispute × Option Error
  resolve d p resolution now = elim (authorize_reviewer d p) [
    | some e ↦ (d, some e)
    | none ↦
        if not (is_reason k resolution) || eqb now 0
        then (d, some invalid)
        else if not (is_under_review d.status)
        then (d, some invalid_transition)
        else (
          append_event (record d { status = Status.resolved }) EventKind.resolved p.id resolution ""
              now,
          none,
        )
  ]

  unfoldable pub supersede : Dispute → Principal → String → String → ℕ → Dispute × Option Error
  supersede d p replacement reason now = elim (authorize_reviewer d p) [
    | some e ↦ (d, some e)
    | none ↦
        if not (k.is_digest replacement) || replacement == d.observation_id
        then (d, some invalid)
        else if not (is_reason k reason) || eqb now 0
        then (d, some invalid)
        else if not (is_under_review d.status)
        then (d, some invalid_transition)
        else (
          append_event (record d { status = Status.superseded }) EventKind.superseded p.id reason
              replacement now,
          none,
        )
  ]

  unfoldable pub new_supersession :
      Principal → String → String → String → ℕ → Result Error Supersession
  new_supersession p original replacement reason now =
      elim (require_scope k p "moderation:review") [
        | some e ↦ err e
        | none ↦
            if not (k.is_digest original && k.is_digest replacement) || original == replacement
            then err invalid
            else if not (is_reason k reason) || eqb now 0
            then err invalid
            else ok (record {
              original_id = original;
              replacement_id = replacement;
              reason = reason;
              actor = p.id;
              created_at = now;
            })
      ]

  unfoldable pub new_tombstone : Principal → String → String → ℕ → Result Error Tombstone
  new_tombstone p observation_id reason now = elim (require_scope k p "moderation:review") [
    | some e ↦ err e
    | none ↦
        if not (k.is_digest observation_id && is_reason k reason) || eqb now 0
        then err invalid
        else ok (record {
          observation_id = observation_id;
          reason = reason;
          actor = p.id;
          created_at = now;
        })
  ]
