-- ===== src/Registry/Ingest.antt =====
-- internal/registry/ingest.go: the session of a two-phase upload, from its preparation to its
-- publication. Each method runs under a lock, so it is one step; a snapshot has the same fields.
use agentapi_doctor.Common.{
  ℕ, String, Bool, true, false, not, ◌&&◌, ◌||◌, Option, none, some, ◌==◌, string_eq, eqb, ltb,
  if◌then◌else◌, Result, ok, err,
}
use agentapi_doctor.Registry.{
  Checks, Error, Principal, invalid, digest_mismatch, expired, conflict, invalid_transition,
  is_principal, is_reason, require_scope, authorize_owned,
}
use agentapi_doctor.Registry.Ownership.{is_expired}

pub data Status : Type 0 where
  prepared staged committed validating quarantined published : Status
  other : String → Status

pub record Session : Type 0 where
  pub session_id : String
  pub owner : String
  pub expected_digest : String
  pub staged_digest : String
  pub expires_at : ℕ
  pub status : Status
  pub quarantine_class : String

unfoldable pub is_status : Status → Bool
is_status (other s) = false
is_status s = true

-- `Commit` answers a replay on these.
unfoldable pub is_committed : Status → Bool
is_committed committed = true
is_committed validating = true
is_committed quarantined = true
is_committed published = true
is_committed s = false

-- The methods return the session, with the error if there is one.
abbrev pub Outcome : Type 0
Outcome = Session × Option Error

unfoldable pub begin_validation : Session → Outcome
begin_validation s = elim s.status [
  | committed ↦ (record s { status = validating }, none)
  | validating ↦ (s, none)
  | _ ↦ (s, some invalid_transition)
]

unfoldable pub publish : Session → Outcome
publish s = elim s.status [
  | validating ↦ (record s { status = published }, none)
  | published ↦ (s, none)
  | _ ↦ (s, some invalid_transition)
]

module _ (k : Checks) where
  -- The fields that a status goes with.
  unfoldable pub has_status_fields : Session → Bool
  has_status_fields s = elim s.status [
    | prepared ↦ s.staged_digest == "" && s.quarantine_class == ""
    | quarantined ↦ k.is_digest s.staged_digest && is_reason k s.quarantine_class
    | _ ↦ k.is_digest s.staged_digest && s.quarantine_class == ""
  ]

  unfoldable pub restore_ingest : Session → Result Error Session
  restore_ingest s =
      if not (k.is_instance s.session_id && is_principal k s.owner && k.is_digest s.expected_digest)
      then err invalid
      else if eqb s.expires_at 0 || not (is_status s.status)
      then err invalid
      else if not (has_status_fields s)
      then err invalid
      else ok s

  unfoldable pub prepare_ingest : Principal → String → String → ℕ → ℕ → Result Error Session
  prepare_ingest p id digest expires_at now = elim (require_scope k p "observation:prepare") [
    | some e ↦ err e
    | none ↦
        if not (k.is_instance id && k.is_digest digest)
        then err invalid
        else if eqb now 0 || not (ltb now expires_at)
        then err invalid
        else ok (record {
          session_id = id;
          owner = p.id;
          expected_digest = digest;
          staged_digest = "";
          expires_at = expires_at;
          status = prepared;
          quarantine_class = "";
        })
  ]

  -- The part of `Stage` behind its authorization.
  unfoldable pub stage_digest : Session → String → ℕ → Outcome
  stage_digest s digest now =
      if not (digest == s.expected_digest) then (s, some digest_mismatch) else elim s.status [
        | staged ↦ if s.staged_digest == digest then (s, none) else (s, some invalid_transition)
        | prepared ↦
            if is_expired now s.expires_at
            then (s, some expired)
            else (record s { staged_digest = digest; status = staged }, none)
        | _ ↦ (s, some invalid_transition)
      ]

  unfoldable pub stage : Session → Principal → String → ℕ → Outcome
  stage s p digest now = elim (authorize_owned k p s.owner "observation:prepare") [
    | some e ↦ (s, some e)
    | none ↦ stage_digest s digest now
  ]

  -- The part of `Commit` behind its authorization.
  unfoldable pub commit_digest : Session → String → ℕ → Outcome
  commit_digest s digest now =
      if not (digest == s.expected_digest)
        || (not (s.staged_digest == "") && not (digest == s.staged_digest))
      then (s, some digest_mismatch)
      else elim s.status [
        | prepared ↦ (s, some invalid_transition)
        | staged ↦
            if is_expired now s.expires_at
            then (s, some expired)
            else (record s { status = committed }, none)
        | other t ↦ (s, some invalid_transition)
        | _ ↦ (s, none)
      ]

  unfoldable pub commit : Session → Principal → String → ℕ → Outcome
  commit s p digest now = elim (authorize_owned k p s.owner "observation:commit") [
    | some e ↦ (s, some e)
    | none ↦ commit_digest s digest now
  ]

  unfoldable pub quarantine : Session → String → Outcome
  quarantine s class = if not (is_reason k class) then (s, some invalid) else elim s.status [
    | validating ↦ (record s { status = quarantined; quarantine_class = class }, none)
    | quarantined ↦ if s.quarantine_class == class then (s, none) else (s, some conflict)
    | _ ↦ (s, some invalid_transition)
  ]
