-- ===== src/Registry/Verdict.antt =====
-- Histories of a dispute of internal/registry/dispute.go: who judges it, and when it is over.
use agentapi_doctor.Common.{
  ℕ, ◌≡◌, ◌≢◌, String, true, false, List, [], ◌∷◌, string_eq, eqb, ok, arith, refl, inl, inr, not,
  ◌&&◌, ◌||◌, All, All-append,
}
use agentapi_doctor.Registry.{Checks, Principal, is_principal, is_reason, require_scope}
use agentapi_doctor.Registry.Dispute.{
  Status, EventKind, Event, Dispute, is_open, is_under_review, append_event, new_dispute,
}
use agentapi_doctor.Registry.Review.{
  Call, time, is_judgement, step, run, Turn, stays, adds, step-Turn,
}

-- A judgement is not the creator's, and not the subject's owner's.
abbrev pub IsFair : String → String → Event → Type 0
IsFair creator owner e = is_judgement e.kind ≡ true → (e.actor ≢ creator) × (e.actor ≢ owner)

-- The reviewer of a dispute that is not open, and all its judgements, are of a third party.
pub record Independent (d : Dispute) : Type 0 where
  pub reviewer :
      is_open d.status ≡ false → (d.reviewer ≢ d.creator) × (d.reviewer ≢ d.subject_owner)
  pub judged : All (IsFair d.creator d.subject_owner) d.events

module _ (k : Checks) where
  Turn-Independent :
      (d : Dispute) (now : ℕ) (d' : Dispute) → Turn k d now d' → Independent d → Independent d'
  unfolding append_event
  Turn-Independent d now _ stays i = i
  Turn-Independent d now _ (adds kind actor text replacement r s a) i = record {
    reviewer = third_party;
    judged = All-append (IsFair d.creator d.subject_owner) d.events _ i.judged (fair, tt);
  }
    where
      third_party : is_open s ≡ false → (r ≢ d.creator) × (r ≢ d.subject_owner)
      third_party closed = elim a.reviewer [
        | inl (same, opens, closes) ↦ ground (arith, same, closes, i.reviewer)
        | inr (self, not_creator, not_owner) ↦ (not_creator, not_owner)
      ]

      fair : is_judgement kind ≡ true → (actor ≢ d.creator) × (actor ≢ d.subject_owner)
      fair j = let (self, closed) = a.judged j in rw self (third_party closed)

  run-Independent : (d : Dispute) (calls : List Call) → Independent d → Independent (run k d calls)
  unfolding run
  run-Independent d [] i = i
  run-Independent d (c ∷ cs) i =
      run-Independent (step k d c) cs (Turn-Independent d (time c) (step k d c) (step-Turn k d c) i)

  -- A new dispute, and what has been checked of it.
  pub record Opens (p : Principal) (owner statement : String) (now : ℕ) (d : Dispute) : Type 0 where
    pub ids : k.is_instance d.id && k.is_digest d.observation_id && k.is_subject d.subject ≡ true
    pub people : is_principal k d.creator && is_principal k d.subject_owner ≡ true
    pub status : d.status ≡ Status.opened
    pub events :
        d.events
        ≡ record {
          sequence = 1;
          kind = EventKind.opened;
          actor = d.creator;
          at = now;
          statement = statement;
          replacement_id = "";
        }
          ∷ []
    pub written : is_reason k statement && not (eqb now 0) ≡ true

  pub new-Opens :
      (p : Principal) (id observation subject owner statement : String) (now : ℕ) (d : Dispute)
      → new_dispute k p id observation subject owner statement now ≡ ok d
      → Opens p owner statement now d
  unfolding new_dispute append_event require_scope
  new-Opens p id observation subject owner statement now d h = record {
    ids = ground arith;
    people = ground arith;
    status = ground arith;
    events = ground arith;
    written = ground arith;
  }

  new-Independent :
      (p : Principal) (owner statement : String) (now : ℕ) (d : Dispute)
      → Opens p owner statement now d
      → Independent d
  unfolding is_open
  new-Independent p owner statement now d o = record {
    reviewer = λ h. absurd (ground (arith, o.status));
    judged = rw o.events (ground arith, tt);
  }

  Turn-over :
      (d : Dispute) (now : ℕ) (d' : Dispute)
      → Turn k d now d'
      → is_open d.status || is_under_review d.status ≡ false
      → d' ≡ d
  Turn-over d now _ stays h = refl
  Turn-over d now _ (adds kind actor text replacement r s a) h = absurd (ground (arith, a.live))

  -- A dispute that is resolved or superseded is left as it is by every later history of calls.
  pub verdict_is_final :
      (d : Dispute) (calls : List Call)
      → is_open d.status || is_under_review d.status ≡ false
      → run k d calls ≡ d
  unfolding run
  verdict_is_final d [] h = refl
  verdict_is_final d (c ∷ cs) h =
      rw (Turn-over d (time c) (step k d c) (step-Turn k d c) h) (verdict_is_final d cs h)

  -- Whatever is called on a new dispute, its reviewer, once there is one, is neither its creator nor
  -- the owner of its subject, and neither is the author of an event that starts the review, resolves
  -- the dispute or supersedes the observation.
  pub run-new_dispute-Independent :
      (p : Principal) (id observation subject owner statement : String) (now : ℕ) (d : Dispute)
      (calls : List Call)
      → new_dispute k p id observation subject owner statement now ≡ ok d
      → Independent (run k d calls)
  run-new_dispute-Independent p id observation subject owner statement now d calls h =
      run-Independent d calls (
        new-Independent p owner statement now d
          (new-Opens p id observation subject owner statement now d h))
