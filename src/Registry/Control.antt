-- ===== src/Registry/Control.antt =====
-- Who controls a subject: histories of the ownerships and challenges of
-- internal/registry/ownership.go.
use agentapi_doctor.Common.{
  ℕ, ◌≤◌, ◌<◌, ◌≡◌, ◌≢◌, String, true, false, List, [], ◌∷◌, none, some, string_eq, eqb, ok, arith,
  Option-cases, Result-cases, refl, inl, inr, not, ◌&&◌,
}
use agentapi_doctor.Registry.{
  Checks, Error, Principal, is_principal, require_scope, authorize_owned,
}
use agentapi_doctor.Registry.Ownership.{
  Method, Challenge, Ownership, pending, verified, is_expired, challenge_snapshot, is_current,
  ownership_from_challenge, is_nonce, new_challenge, has_verification_fields, restore_challenge,
  verify, restore_ownership, authorize_manage, revoke, transfer, is_method, is_challenge_status,
}

-- The calls that may change an ownership.
pub data Call : Type 0 where
  revokes : (p : Principal) (reason : String) (now : ℕ) → Call
  transfers : (p : Principal) (c : Challenge) (valid_until now : ℕ) → Call

module _ (k : Checks) where
  unfoldable pub step : Ownership → Call → Ownership
  step o (revokes p reason now) = (revoke k o p reason now).0
  step o (transfers p c valid_until now) = (transfer k o p c valid_until now).0

  unfoldable pub run : Ownership → List Call → Ownership
  run o [] = o
  run o (c ∷ cs) = run (step o c) cs

  revoked_not_current : (o : Ownership) (now : ℕ) → o.revoked_at ≢ 0 → is_current o now ≡ false
  unfolding is_current
  revoked_not_current o now h = ground arith

  revoked_no_manage :
      (o : Ownership) (p : Principal) (now : ℕ)
      → o.revoked_at ≢ 0
      → (e : Error) × (authorize_manage k o p now ≡ some e)
  unfolding authorize_manage
  revoked_no_manage o p now h =
      elim (Option-cases (authorize_owned k p o.owner "ownership:manage")) [
        | inl e ↦ (Error.expired, ground (arith, revoked_not_current o now h))
        | inr (x, e) ↦ (x, ground arith)
      ]

  revoked_step : (o : Ownership) (c : Call) → o.revoked_at ≢ 0 → step o c ≡ o
  unfolding step revoke transfer
  revoked_step o (revokes p reason now) h = ground arith
  revoked_step o (transfers p c valid_until now) h =
      let (e, refused) = revoked_no_manage o p now h in ground (arith, refused)

  -- An ownership that is once revoked or transferred is left as it is by every later history of
  -- revocations and transfers, and is never current again.
  pub revoked_is_final :
      (o : Ownership) (calls : List Call) (now : ℕ)
      → o.revoked_at ≢ 0
      → (run o calls ≡ o) × (is_current (run o calls) now ≡ false)
  unfolding run
  revoked_is_final o [] now h = (refl, revoked_not_current o now h)
  revoked_is_final o (c ∷ cs) now h = rw (revoked_step o c h) (revoked_is_final o cs now h)

  -- What an accepted transfer has checked and done.
  pub record HandsOver (o o' new : Ownership) (p : Principal) (c : Challenge) (now : ℕ)
      : Type 0 where
    pub by_owner : p.id ≡ o.owner
    pub was_current : is_current o now ≡ true
    pub is_revoked : o'.revoked_at ≡ now
    pub old_ends : (t : ℕ) → is_current o' t ≡ false
    pub new_begins : is_current new now ≡ true
    pub same_subject : new.subject ≡ o.subject
    pub to_requester : new.owner ≡ c.requester
    pub other_owner : new.owner ≢ o.owner
    pub is_verified : c.status ≡ verified

  from_challenge_begins :
      (c : Challenge) (valid_until now : ℕ) (new : Ownership)
      → ownership_from_challenge c valid_until now ≡ ok new
      → (is_current new now ≡ true)
        × (new.owner ≡ c.requester)
        × (c.status ≡ verified)
        × (new.verified_at ≡ c.verified_at)
        × (new.valid_until ≡ valid_until)
        × (now < valid_until)
        × (new.subject ≡ c.subject)
        × (new.method ≡ c.method)
        × (new.evidence ≡ c.evidence_digest)
        × (new.revoked_at ≡ 0)
        × (new.reason ≡ "")
  unfolding ownership_from_challenge challenge_snapshot is_expired is_current
  from_challenge_begins c valid_until now new h = ground arith

  authorize_manage_checks :
      (o : Ownership) (p : Principal) (now : ℕ)
      → authorize_manage k o p now ≡ none
      → (p.id ≡ o.owner) × (is_current o now ≡ true)
  unfolding authorize_manage authorize_owned
  authorize_manage_checks o p now h = elim (Option-cases (require_scope k p "ownership:manage")) [
    | inl e ↦ ground (arith, string_eq.test_iff p.id o.owner)
    | inr (x, e) ↦ absurd (ground arith)
  ]

  transfer_accepts :
      (o : Ownership) (p : Principal) (c : Challenge) (valid_until now : ℕ) (new : Ownership)
      → (transfer k o p c valid_until now).1 ≡ ok new
      → (authorize_manage k o p now ≡ none)
        × (ownership_from_challenge c valid_until now ≡ ok new)
        × (new.subject ≡ o.subject)
        × (new.owner ≢ o.owner)
        × ((transfer k o p c valid_until now).0
            ≡ record o { revoked_at = now; reason = "ownership_transferred" })
  unfolding transfer
  transfer_accepts o p c valid_until now new h = elim (Option-cases (authorize_manage k o p now)) [
    | inr (x, e) ↦ absurd (ground arith)
    | inl e ↦ elim (Result-cases (ownership_from_challenge c valid_until now)) [
      | inl (x, f) ↦ absurd (ground arith)
      | inr (n, f) ↦
          ground (arith, string_eq.test_iff n.subject o.subject, string_eq.test_iff n.owner o.owner)
    ]
  ]

  -- An accepted transfer was made by the owner of a current ownership; it ends the old ownership for
  -- good and starts one of the same subject, current now, for the requester of a verified challenge,
  -- who is another principal.
  pub transfer-HandsOver :
      (o : Ownership) (p : Principal) (c : Challenge) (valid_until now : ℕ) (new : Ownership)
      → (transfer k o p c valid_until now).1 ≡ ok new
      → HandsOver o (transfer k o p c valid_until now).0 new p c now
  unfolding is_current
  transfer-HandsOver o p c valid_until now new h =
      let made = transfer_accepts o p c valid_until now new h in
      let begun = from_challenge_begins c valid_until now new made.1 in
      let allowed = authorize_manage_checks o p now made.0 in
      record {
        by_owner = allowed.0;
        was_current = allowed.1;
        is_revoked = ground (arith, made.4);
        old_ends = λ t. ground (arith, made.4, allowed.1);
        new_begins = begun.0;
        same_subject = made.2;
        to_requester = begun.1;
        other_owner = made.3;
        is_verified = begun.2;
      }

  -- From a new challenge to an ownership.
  pub record Proved (c : Challenge) (o : Ownership) : Type 0 where
    pub challenge_restores : restore_challenge k c ≡ ok c
    pub ownership_restores : restore_ownership k o ≡ ok o
    pub same_subject : o.subject ≡ c.subject
    pub to_requester : o.owner ≡ c.requester

  new_challenge_checks :
      (p : Principal) (id subject : String) (m : Method) (nonce : String) (expires_at now : ℕ)
      (c : Challenge)
      → new_challenge k p id subject m nonce expires_at now ≡ ok c
      → (k.is_instance c.id
            && k.is_subject c.subject
            && is_principal k c.requester
            && is_method c.method
          ≡ true)
        × (is_nonce k c.nonce && not (eqb c.expires_at 0) ≡ true)
        × (c.status ≡ pending)
  unfolding new_challenge require_scope
  new_challenge_checks p id subject m nonce expires_at now c h = ground arith

  verify_checks :
      (c : Challenge) (evidence : String) (now : ℕ)
      → c.status ≡ pending
      → (verify k c evidence now).1 ≡ none
      → ((verify k c evidence now).0
          ≡ record c { status = verified; verified_at = now; evidence_digest = evidence })
        × (k.is_digest evidence ≡ true)
        × (now ≢ 0)
  unfolding verify is_expired
  verify_checks c evidence now s h = ground arith

  -- An ownership that is made, later or at the same time, from a challenge that was created and then
  -- verified, belongs to the requester and names the challenge's subject; the store's checks accept
  -- the verified challenge and the ownership as they are.
  pub verify-Proved :
      (p : Principal) (id subject : String) (m : Method) (nonce : String) (expires_at now : ℕ)
      (c : Challenge) (evidence : String) (verified_at valid_until owned_at : ℕ) (o : Ownership)
      → new_challenge k p id subject m nonce expires_at now ≡ ok c
      → (verify k c evidence verified_at).1 ≡ none
      → verified_at ≤ owned_at
      → ownership_from_challenge (verify k c evidence verified_at).0 valid_until owned_at ≡ ok o
      → Proved (verify k c evidence verified_at).0 o
  unfolding restore_challenge restore_ownership has_verification_fields is_challenge_status
  verify-Proved p id subject m nonce expires_at now c evidence verified_at valid_until owned_at o
        made done later h =
      let (ids, texts, open_yet) =
        new_challenge_checks p id subject m nonce expires_at now c made in
      let (shape, digest, nonzero) = verify_checks c evidence verified_at open_yet done in
      let begun =
        from_challenge_begins (verify k c evidence verified_at).0 valid_until owned_at o h in
      record {
        challenge_restores = ground (arith, shape, ids, texts, digest, nonzero);
        ownership_restores =
            ground (arith, shape, ids, digest, nonzero, begun, string_eq.test_iff o.reason "");
        same_subject = begun.6;
        to_requester = begun.1;
      }
