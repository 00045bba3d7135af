-- ===== src/Registry/Upload.antt =====
-- Histories of an upload session of internal/registry/ingest.go.
use agentapi_doctor.Common.{
  ℕ, ◌≡◌, ◌≢◌, String, Bool, true, false, not, ◌&&◌, List, [], ◌∷◌, Option, none, ◌==◌, string_eq,
  eqb, ok, arith, Option-cases, inl, inr,
}
use agentapi_doctor.Registry.{
  Checks, Error, Principal, is_principal, is_reason, require_scope, authorize_owned,
}
use agentapi_doctor.Registry.Ingest.{
  Status, Session, Outcome, prepared, staged, committed, validating, quarantined, published,
  is_status, is_committed, begin_validation, publish, has_status_fields, restore_ingest,
  prepare_ingest, stage_digest, stage, commit_digest, commit, quarantine,
}

-- The calls on a session.
pub data Call : Type 0 where
  stages : (p : Principal) (digest : String) (now : ℕ) → Call
  commits : (p : Principal) (digest : String) (now : ℕ) → Call
  validates publishes : Call
  quarantines : (class : String) → Call

-- One step of the lifecycle.
pub data Edge : Status → Status → Type 0 where
  stays : (s : Status) → Edge s s
  upload : Edge prepared staged
  accept : Edge staged committed
  begin : Edge committed validating
  release : Edge validating published
  withhold : Edge validating quarantined

abbrev is_prepared : Status → Bool
is_prepared prepared = true
is_prepared s = false

abbrev is_quarantined : Status → Bool
is_quarantined quarantined = true
is_quarantined s = false

module _ (k : Checks) where
  unfoldable pub apply : Session → Call → Outcome
  apply s (stages p digest now) = stage k s p digest now
  apply s (commits p digest now) = commit k s p digest now
  apply s validates = begin_validation s
  apply s publishes = publish s
  apply s (quarantines class) = quarantine k s class

  unfoldable pub run : Session → List Call → Session
  run s [] = s
  run s (c ∷ cs) = run (apply s c).0 cs

  -- What holds of a session between its calls.
  pub record Inv (s : Session) : Type 0 where
    pub ids :
        k.is_instance s.session_id && is_principal k s.owner && k.is_digest s.expected_digest ≡ true
    pub expiry : eqb s.expires_at 0 ≡ false
    pub known : is_status s.status ≡ true
    pub not_staged : is_prepared s.status ≡ true → s.staged_digest ≡ ""
    pub content : is_prepared s.status ≡ false → s.staged_digest ≡ s.expected_digest
    pub class : is_quarantined s.status ≡ true → is_reason k s.quarantine_class ≡ true
    pub no_class : is_quarantined s.status ≡ false → s.quarantine_class ≡ ""

  -- What a call leaves of a session, besides the invariant.
  pub record Moves (s s' : Session) (refused : Option Error) : Type 0 where
    pub edge : Edge s.status s'.status
    pub unchanged : refused ≢ none → s' ≡ s
    pub same_id : s'.session_id ≡ s.session_id
    pub same_owner : s'.owner ≡ s.owner
    pub same_digest : s'.expected_digest ≡ s.expected_digest
    pub same_expiry : s'.expires_at ≡ s.expires_at

  stage_digest-Inv :
      (s : Session) (digest : String) (now : ℕ) → Inv s → Inv (stage_digest k s digest now).0
  unfolding stage_digest is_status
  stage_digest-Inv s digest now i = ground (
    arith,
    i.ids,
    i.expiry,
    i.known,
    i.not_staged,
    i.content,
    i.class,
    i.no_class,
    string_eq.test_iff digest s.expected_digest,
  )

  commit_digest-Inv :
      (s : Session) (digest : String) (now : ℕ) → Inv s → Inv (commit_digest k s digest now).0
  unfolding commit_digest is_status
  commit_digest-Inv s digest now i =
      ground (arith, i.ids, i.expiry, i.known, i.not_staged, i.content, i.class, i.no_class)

  apply-Inv : (s : Session) (c : Call) → Inv s → Inv (apply s c).0
  unfolding apply stage commit begin_validation publish quarantine is_status
  apply-Inv s (stages p digest now) i =
      elim (Option-cases (authorize_owned k p s.owner "observation:prepare")) [
        | inl e ↦ rw (e, stage) (stage_digest-Inv s digest now i)
        | inr (x, e) ↦ rw (e, stage) i
      ]
  apply-Inv s (commits p digest now) i =
      elim (Option-cases (authorize_owned k p s.owner "observation:commit")) [
        | inl e ↦ rw (e, commit) (commit_digest-Inv s digest now i)
        | inr (x, e) ↦ rw (e, commit) i
      ]
  apply-Inv s validates i =
      ground (arith, i.ids, i.expiry, i.known, i.not_staged, i.content, i.class, i.no_class)
  apply-Inv s publishes i =
      ground (arith, i.ids, i.expiry, i.known, i.not_staged, i.content, i.class, i.no_class)
  apply-Inv s (quarantines class) i =
      ground (arith, i.ids, i.expiry, i.known, i.not_staged, i.content, i.class, i.no_class)

  stage_digest-Edge :
      (s : Session) (digest : String) (now : ℕ)
      → Edge s.status (stage_digest k s digest now).0.status
  unfolding stage_digest
  stage_digest-Edge s digest now = grind (arith, stays, upload)

  commit_digest-Edge :
      (s : Session) (digest : String) (now : ℕ)
      → Edge s.status (commit_digest k s digest now).0.status
  unfolding commit_digest
  commit_digest-Edge s digest now = grind (arith, stays, accept)

  apply-Edge : (s : Session) (c : Call) → Edge s.status (apply s c).0.status
  unfolding apply stage commit begin_validation publish quarantine
  apply-Edge s (stages p digest now) =
      elim (Option-cases (authorize_owned k p s.owner "observation:prepare")) [
        | inl e ↦ rw (e, stage) (stage_digest-Edge s digest now)
        | inr (x, e) ↦ rw (e, stage) (stays s.status)
      ]
  apply-Edge s (commits p digest now) =
      elim (Option-cases (authorize_owned k p s.owner "observation:commit")) [
        | inl e ↦ rw (e, commit) (commit_digest-Edge s digest now)
        | inr (x, e) ↦ rw (e, commit) (stays s.status)
      ]
  apply-Edge s validates = grind (arith, stays, begin)
  apply-Edge s publishes = grind (arith, stays, release)
  apply-Edge s (quarantines class) = grind (arith, stays, withhold)

  apply_rest :
      (s : Session) (c : Call)
      → let o = apply s c in
        (o.1 ≢ none → o.0 ≡ s)
        × (o.0.session_id ≡ s.session_id)
        × (o.0.owner ≡ s.owner)
        × (o.0.expected_digest ≡ s.expected_digest)
        × (o.0.expires_at ≡ s.expires_at)
  unfolding apply stage stage_digest commit commit_digest begin_validation publish quarantine
  apply_rest s (stages p digest now) = ground arith
  apply_rest s (commits p digest now) = ground arith
  apply_rest s validates = ground arith
  apply_rest s publishes = ground arith
  apply_rest s (quarantines class) = ground arith

  apply-Moves : (s : Session) (c : Call) → Moves s (apply s c).0 (apply s c).1
  apply-Moves s c =
      let (unchanged, same_id, same_owner, same_digest, same_expiry) = apply_rest s c in
      record {
        edge = apply-Edge s c;
        unchanged = unchanged;
        same_id = same_id;
        same_owner = same_owner;
        same_digest = same_digest;
        same_expiry = same_expiry;
      }

  run-Inv : (s : Session) (cs : List Call) → Inv s → Inv (run s cs)
  unfolding run
  run-Inv s [] i = i
  run-Inv s (c ∷ cs) i = run-Inv (apply s c).0 cs (apply-Inv s c i)

  prepare_ingest-Inv :
      (p : Principal) (id digest : String) (expires_at now : ℕ) (s : Session)
      → prepare_ingest k p id digest expires_at now ≡ ok s
      → Inv s
  unfolding prepare_ingest require_scope is_status
  prepare_ingest-Inv p id digest expires_at now s h = ground (arith, h)

  Inv-restores : (s : Session) → Inv s → restore_ingest k s ≡ ok s
  unfolding restore_ingest has_status_fields is_status
  Inv-restores s i = ground (
    arith,
    i.ids,
    i.expiry,
    i.known,
    i.not_staged,
    i.content,
    i.class,
    i.no_class,
    string_eq.test_iff s.staged_digest "",
    string_eq.test_iff s.quarantine_class "",
  )

  -- Whatever was called on a prepared session: what is staged, once something is, has the digest that
  -- was prepared; a call moves the session along an edge of the lifecycle or not at all, a refused one
  -- changes nothing, and the id, owner, digest and expiry are fixed; and the store's checks accept the
  -- session as it is.
  pub run-prepare_ingest-Inv :
      (p : Principal) (id digest : String) (expires_at now : ℕ) (s : Session) (cs : List Call)
      (c : Call)
      → prepare_ingest k p id digest expires_at now ≡ ok s
      → let r = run s cs in
        Inv r × Moves r (apply r c).0 (apply r c).1 × (restore_ingest k r ≡ ok r)
  run-prepare_ingest-Inv p id digest expires_at now s cs c h =
      let i = run-Inv s cs (prepare_ingest-Inv p id digest expires_at now s h) in
      (i, apply-Moves (run s cs) c, Inv-restores (run s cs) i)

  -- A session that answers a commit of the digest again.
  record Replays (s : Session) (p : Principal) (digest : String) : Type 0 where
    pub allowed : authorize_owned k p s.owner "observation:commit" ≡ none
    pub expected : digest ≡ s.expected_digest
    pub consistent : (not (s.staged_digest == "") && not (digest == s.staged_digest)) ≡ false
    pub committed : is_committed s.status ≡ true

  commit-Replays :
      (s : Session) (p : Principal) (digest : String) (now : ℕ)
      → (commit k s p digest now).1 ≡ none
      → Replays (commit k s p digest now).0 p digest
  unfolding commit commit_digest is_committed
  commit-Replays s p digest now h =
      elim (Option-cases (authorize_owned k p s.owner "observation:commit")) [
        | inr (x, e) ↦ absurd (ground (arith, h))
        | inl e ↦ record {
          allowed = ground (arith, e);
          expected = ground (arith, e, h, string_eq.test_iff digest s.expected_digest);
          consistent = ground (arith, e, h);
          committed = ground (arith, e, h);
        }
      ]

  Replays-commit :
      (s : Session) (p : Principal) (digest : String) (now : ℕ)
      → Replays s p digest
      → commit k s p digest now ≡ (s, none)
  unfolding commit commit_digest is_committed
  Replays-commit s p digest now r = ground (
    arith,
    r.allowed,
    r.consistent,
    r.committed,
    string_eq.test_iff digest s.expected_digest,
    r.expected,
  )

  apply-Replays :
      (s : Session) (p : Principal) (digest : String) (c : Call)
      → Replays s p digest
      → Replays (apply s c).0 p digest
  unfolding apply stage stage_digest commit commit_digest begin_validation publish quarantine
      is_committed
  apply-Replays s p digest (stages q d now) r =
      ground (arith, r.allowed, r.expected, r.consistent, r.committed)
  apply-Replays s p digest (commits q d now) r =
      ground (arith, r.allowed, r.expected, r.consistent, r.committed)
  apply-Replays s p digest validates r =
      ground (arith, r.allowed, r.expected, r.consistent, r.committed)
  apply-Replays s p digest publishes r =
      ground (arith, r.allowed, r.expected, r.consistent, r.committed)
  apply-Replays s p digest (quarantines class) r =
      ground (arith, r.allowed, r.expected, r.consistent, r.committed)

  run-Replays :
      (s : Session) (p : Principal) (digest : String) (cs : List Call)
      → Replays s p digest
      → Replays (run s cs) p digest
  unfolding run
  run-Replays s p digest [] r = r
  run-Replays s p digest (c ∷ cs) r =
      run-Replays (apply s c).0 p digest cs (apply-Replays s p digest c r)

  -- After a commit that succeeded, and any further calls, the same principal's commit of the same
  -- digest succeeds again, at any time, past the expiry too, and changes nothing.
  pub commit_replays :
      (s : Session) (p : Principal) (digest : String) (now later : ℕ) (cs : List Call)
      → (commit k s p digest now).1 ≡ none
      → let r = run (commit k s p digest now).0 cs in commit k r p digest later ≡ (r, none)
  commit_replays s p digest now later cs h =
      Replays-commit (run (commit k s p digest now).0 cs) p digest later
        (run-Replays (commit k s p digest now).0 p digest cs (commit-Replays s p digest now h))
