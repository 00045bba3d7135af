-- ===== src/Registry/Ownership.antt =====
-- internal/registry/ownership.go: challenges and ownership, and `expired` of ingest.go. Each method
-- runs under a lock, so it is one step. UTC keeps an instant.
use agentapi_doctor.Common.{
  ℕ, String, Bool, true, false, not, ◌&&◌, ◌||◌, Option, none, some, ◌==◌, string_eq, eqb, ltb, any,
  code_points, if◌then◌else◌, Result, ok, err,
}
use agentapi_doctor.Registry.{
  Checks, Error, Principal, invalid, conflict, invalid_transition, has_scope, is_principal,
  is_reason, require_scope, authorize_owned,
}

pub data Method : Type 0 where
  dns_txt github_org controlled_domain : Method
  other : String → Method

unfoldable pub is_method : Method → Bool
is_method (Method.other s) = false
is_method m = true

pub data ChallengeStatus : Type 0 where
  pending verified expired : ChallengeStatus
  other : String → ChallengeStatus

unfoldable pub is_challenge_status : ChallengeStatus → Bool
is_challenge_status (ChallengeStatus.other s) = false
is_challenge_status status = true

-- The snapshot of a challenge has the same fields.
pub record Challenge : Type 0 where
  pub id : String
  pub subject : String
  pub requester : String
  pub method : Method
  pub nonce : String
  pub expires_at : ℕ
  pub status : ChallengeStatus
  pub verified_at : ℕ
  pub evidence_digest : String

pub record Ownership : Type 0 where
  pub subject : String
  pub owner : String
  pub method : Method
  pub evidence : String
  pub verified_at : ℕ
  pub valid_until : ℕ
  pub revoked_at : ℕ
  pub reason : String

unfoldable pub is_expired : ℕ → ℕ → Bool
is_expired now expires_at = eqb now 0 || not (ltb now expires_at)

unfoldable pub challenge_snapshot : Challenge → ℕ → Challenge
challenge_snapshot c now = elim c.status [
  | pending ↦
      if is_expired now c.expires_at then record c { status = ChallengeStatus.expired } else c
  | _ ↦ c
]

unfoldable pub is_current : Ownership → ℕ → Bool
is_current o now = not (eqb now 0) && eqb o.revoked_at 0 && ltb now o.valid_until

-- `OwnershipFromChallenge`; the new ownership is not revoked.
unfoldable pub ownership_from_challenge : Challenge → ℕ → ℕ → Result Error Ownership
ownership_from_challenge c valid_until now =
    if eqb now 0 then err invalid else elim (challenge_snapshot c now).status [
      | verified ↦
          if not (ltb now c.expires_at)
          then err Error.expired
          else if not (ltb now valid_until)
          then err invalid
          else ok (record {
            subject = c.subject;
            owner = c.requester;
            method = c.method;
            evidence = c.evidence_digest;
            verified_at = c.verified_at;
            valid_until = valid_until;
            revoked_at = 0;
            reason = "";
          })
      | _ ↦ err invalid
    ]

module _ (k : Checks) where
  unfoldable pub is_nonce : String → Bool
  is_nonce s =
      not (s == "")
      && s == k.trim_space s
      && not (ltb 512 (k.byte_length s))
      && not (any (λ c. eqb c 13 || eqb c 10 || eqb c 0) (code_points s))

  unfoldable pub new_challenge :
      Principal → String → String → Method → String → ℕ → ℕ → Result Error Challenge
  new_challenge p id subject method nonce expires_at now =
      elim (require_scope k p "ownership:manage") [
        | some e ↦ err e
        | none ↦
            if not (k.is_instance id && k.is_subject subject && is_method method && is_nonce nonce)
            then err invalid
            else if eqb now 0 || not (ltb now expires_at)
            then err invalid
            else ok (record {
              id = id;
              subject = subject;
              requester = p.id;
              method = method;
              nonce = nonce;
              expires_at = expires_at;
              status = pending;
              verified_at = 0;
              evidence_digest = "";
            })
      ]

  -- The verification fields belong to a verified challenge, and only to it.
  unfoldable pub has_verification_fields : Challenge → Bool
  has_verification_fields c = elim c.status [
    | verified ↦ not (eqb c.verified_at 0) && k.is_digest c.evidence_digest
    | _ ↦ eqb c.verified_at 0 && c.evidence_digest == ""
  ]

  unfoldable pub restore_challenge : Challenge → Result Error Challenge
  restore_challenge c =
      if not (
        k.is_instance c.id
        && k.is_subject c.subject
        && is_principal k c.requester
        && is_method c.method)
      then err invalid
      else if not (
          is_nonce c.nonce
          && not (eqb c.expires_at 0)
          && is_challenge_status c.status
          && has_verification_fields c)
      then err invalid
      else ok c

  -- `Verify`: the challenge, with the error if there is one.
  unfoldable pub verify : Challenge → String → ℕ → Challenge × Option Error
  verify c evidence now =
      if not (k.is_digest evidence)
      then (c, some invalid)
      else if is_expired now c.expires_at
      then (c, some Error.expired)
      else elim c.status [
        | verified ↦ if c.evidence_digest == evidence then (c, none) else (c, some conflict)
        | pending ↦
            (record c { status = verified; verified_at = now; evidence_digest = evidence }, none)
        | _ ↦ (c, some invalid_transition)
      ]

  unfoldable pub restore_ownership : Ownership → Result Error Ownership
  restore_ownership o =
      if not (
        k.is_subject o.subject
        && is_principal k o.owner
        && is_method o.method
        && k.is_digest o.evidence)
      then err invalid
      else if eqb o.verified_at 0 || not (ltb o.verified_at o.valid_until)
      then err invalid
      else if eqb o.revoked_at 0
      then (if o.reason == "" then ok o else err invalid)
      else if o.reason == "" || not (is_reason k o.reason)
      then err invalid
      else ok o

  unfoldable pub authorize_manage : Ownership → Principal → ℕ → Option Error
  authorize_manage o p now = elim (authorize_owned k p o.owner "ownership:manage") [
    | some e ↦ some e
    | none ↦ if not (is_current o now) then some Error.expired else none
  ]

  -- Who may revoke: a moderator, or the owner.
  unfoldable pub authorize_revoke : Ownership → Principal → Option Error
  authorize_revoke o p =
      if has_scope p "moderation:review"
      then require_scope k p "moderation:review"
      else authorize_owned k p o.owner "ownership:manage"

  unfoldable pub revoke : Ownership → Principal → String → ℕ → Ownership × Option Error
  revoke o p reason now =
      if not (is_reason k reason) then (o, some invalid) else elim (authorize_revoke o p) [
        | some e ↦ (o, some e)
        | none ↦
            if not (eqb o.revoked_at 0)
            then (if o.reason == reason then (o, none) else (o, some conflict))
            else if eqb now 0
            then (o, some invalid)
            else (record o { revoked_at = now; reason = reason }, none)
      ]

  -- `Transfer`: the old ownership, and the new one or the error.
  unfoldable pub transfer :
      Ownership → Principal → Challenge → ℕ → ℕ → Ownership × Result Error Ownership
  transfer o p c new_valid_until now = elim (authorize_manage o p now) [
    | some e ↦ (o, err e)
    | none ↦ elim (ownership_from_challenge c new_valid_until now) [
      | err e ↦ (o, err e)
      | ok new ↦
          if not (new.subject == o.subject)
          then (o, err invalid)
          else if new.owner == o.owner
          then (o, err invalid)
          else (record o { revoked_at = now; reason = "ownership_transferred" }, ok new)
    ]
  ]
