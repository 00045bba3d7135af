-- ===== src/Registry/Restoration.antt =====
-- The store's checks of a dispute of internal/registry/dispute.go, and the disputes that the calls make.
use agentapi_doctor.Common.{
  ℕ, ◌+◌, ◌≤◌, ◌<◌, ◌≡◌, String, true, false, List, [], ◌∷◌, ◌++◌, none, string_eq, add64, length,
  ok, err, arith, Option-cases, refl, inl, inr, ◌&&◌, ◌||◌, sym,
}
use agentapi_doctor.Registry.{Checks, Error, Principal, is_principal, is_reason, require_scope}
use agentapi_doctor.Registry.Dispute.{
  Status, Event, Dispute, is_open, is_under_review, is_status, append_event, is_replacement,
  check_events, starts_with, restore_dispute, new_dispute,
}
use agentapi_doctor.Registry.Review.{
  Call, time, IsTimed, StandardText, step, run, Turn, stays, adds, step-Turn,
}
use agentapi_doctor.Registry.Verdict.{Opens, new-Opens}
use agentapi_doctor.Registry.Dispute.{begin_review, review_started, under_review}

-- The time of the last event.
abbrev pub last_time : ℕ → List Event → ℕ
last_time previous [] = previous
last_time previous (e ∷ es) = last_time e.at es

module _ (k : Checks) where
  -- What the store's checks ask of a dispute, up to the clock.
  record Stored (d : Dispute) (clock : ℕ) : Type 0 where
    pub ids : k.is_instance d.id && k.is_digest d.observation_id && k.is_subject d.subject ≡ true
    pub people : is_principal k d.creator && is_principal k d.subject_owner ≡ true
    pub status : is_status d.status && (is_open d.status || is_principal k d.reviewer) ≡ true
    pub events : check_events k 0 0 d.events ≡ true
    pub starts : starts_with k d.creator d.events ≡ true
    pub recent : last_time 0 d.events ≤ clock

  check_events-append :
      (n m previous : ℕ) (es : List Event) (e : Event)
      → check_events k n previous es ≡ true
      → m ≡ n + length es
      → check_events k m (last_time previous es) (e ∷ []) ≡ true
      → check_events k n previous (es ++ e ∷ []) ≡ true
  unfolding check_events
  check_events-append n m previous [] e h s g =
      let same : m ≡ n = omega (arith, s) in rw (sym same) g
  check_events-append n m previous (x ∷ es) e h s g =
      let next : m ≡ (n + 1) + length es = omega (arith, s) in
      ground (arith, check_events-append (n + 1) m x.at es e (ground (arith, h)) next g, h)

  starts_with-append :
      (creator : String) (es : List Event) (e : Event)
      → starts_with k creator es ≡ true
      → starts_with k creator (es ++ e ∷ []) ≡ true
  unfolding starts_with
  starts_with-append creator [] e h = absurd (ground arith)
  starts_with-append creator (x ∷ es) e h = h

  last_time-append :
      (previous : ℕ) (es : List Event) (e : Event) → last_time previous (es ++ e ∷ []) ≡ e.at
  last_time-append previous [] e = refl
  last_time-append previous (x ∷ es) e = last_time-append x.at es e

  review_started_reason : StandardText k → is_reason k "review_started" ≡ true
  unfolding is_reason
  review_started_reason s = ground (
    arith,
    s.trims,
    s.measures,
    string_eq.test_iff "review_started" (k.trim_space "review_started"),
    p 95 (omega arith) (omega arith),
    p 97 (omega arith) (omega arith),
    p 100 (omega arith) (omega arith),
    p 101 (omega arith) (omega arith),
    p 105 (omega arith) (omega arith),
    p 114 (omega arith) (omega arith),
    p 115 (omega arith) (omega arith),
    p 116 (omega arith) (omega arith),
    p 118 (omega arith) (omega arith),
    p 119 (omega arith) (omega arith),
  )
    where
      p : (c : ℕ) → 32 ≤ c → c < 127 → k.is_control c ≡ false
      p = s.prints

  module _ (std : StandardText k) where
    Turn-Stored :
        (d : Dispute) (clock now : ℕ) (d' : Dispute)
        → Turn k d now d'
        → clock ≤ now
        → Stored d clock
        → Stored d' now
    unfolding append_event check_events
    Turn-Stored d clock now _ stays later s = record {
      ids = s.ids;
      people = s.people;
      status = s.status;
      events = s.events;
      starts = s.starts;
      recent = omega (arith, s.recent, later);
    }
    Turn-Stored d clock now _ (adds kind actor text replacement r st a) later s = record {
      ids = s.ids;
      people = s.people;
      status = elim a.reviewer [
        | inl (same, opens, closes) ↦ ground (arith, a.status, same, closes, s.status)
        | inr (self, not_creator, not_owner) ↦ ground (arith, a.status, self, a.principal)
      ];
      events =
          check_events-append 0 (length d.events) 0 d.events _ s.events (omega arith)
            (ground (arith, a.timed, a.principal, a.replaces, written, s.recent, later));
      starts = starts_with-append d.creator d.events _ s.starts;
      recent =
          rw
            (last_time-append 0 d.events (record {
              sequence = add64 (length d.events) 1;
              kind = kind;
              actor = actor;
              at = now;
              statement = text;
              replacement_id = replacement;
            }))
            (omega arith);
    }
      where
        written : is_reason k text ≡ true
        written = elim a.written [ inl e ↦ rw e (review_started_reason std) | inr h ↦ h ]

    run-Stored :
        (d : Dispute) (clock : ℕ) (calls : List Call)
        → IsTimed clock calls
        → Stored d clock
        → (end : ℕ) × Stored (run k d calls) end
    unfolding run
    run-Stored d clock [] timed s = (clock, s)
    run-Stored d clock (c ∷ cs) timed s =
        run-Stored (step k d c) (time c) cs timed.1
          (Turn-Stored d clock (time c) (step k d c) (step-Turn k d c) timed.0 s)

    new-Stored :
        (p : Principal) (owner statement : String) (now : ℕ) (d : Dispute)
        → Opens k p owner statement now d
        → Stored d now
    unfolding check_events starts_with is_status is_open is_replacement
    new-Stored p owner statement now d o = record {
      ids = o.ids;
      people = o.people;
      status = ground (arith, o.status);
      events = rw o.events (ground (arith, o.people, o.written));
      starts = rw o.events (ground (arith, string_eq.test_iff d.creator d.creator));
      recent = rw o.events (omega arith);
    }

    -- A dispute whose calls come at times that never go back is accepted by the store's checks as it
    -- is, whatever is called on it and whoever calls.
    pub dispute_restores :
        (p : Principal) (id observation subject owner statement : String) (now : ℕ) (d : Dispute)
        (calls : List Call)
        → new_dispute k p id observation subject owner statement now ≡ ok d
        → IsTimed now calls
        → restore_dispute k (run k d calls) ≡ ok (run k d calls)
    unfolding restore_dispute
    dispute_restores p id observation subject owner statement now d calls h timed =
        let opens = new-Opens k p id observation subject owner statement now d h in
        let (end, s) = run-Stored d now calls timed (new-Stored p owner statement now d opens) in
        ground (arith, s.ids, s.people, s.status, s.events, s.starts)

  check_events_backward :
      (n previous : ℕ) (es : List Event) (e : Event)
      → e.at < last_time previous es
      → check_events k n previous (es ++ e ∷ []) ≡ false
  unfolding check_events
  check_events_backward n previous [] e h = ground arith
  check_events_backward n previous (x ∷ es) e h =
      ground (arith, check_events_backward (n + 1) x.at es e h)

  open_not_review : (s : Status) → is_open s ≡ true → is_under_review s ≡ false
  unfolding is_open is_under_review
  open_not_review Status.opened h = refl
  open_not_review under_review h = absurd (ground arith)
  open_not_review Status.resolved h = refl
  open_not_review Status.superseded h = refl
  open_not_review (Status.other s) h = refl

  begin_review_accepts :
      (d : Dispute) (p : Principal) (now : ℕ)
      → is_open d.status ≡ true
      → (begin_review k d p now).1 ≡ none
      → (begin_review k d p now).0
        ≡ append_event
            (record d { reviewer = p.id; status = under_review })
            review_started
            p.id
            "review_started"
            ""
            now
  unfolding begin_review
  begin_review_accepts d p now live h =
      elim (Option-cases (require_scope k p "moderation:review")) [
        | inr (e, f) ↦ absurd (ground arith)
        | inl f ↦ ground (arith, open_not_review d.status live)
      ]

  bad_events_refused :
      (d : Dispute) → check_events k 0 0 d.events ≡ false → restore_dispute k d ≡ err Error.invalid
  unfolding restore_dispute
  bad_events_refused d h = ground arith

  -- A review that an open dispute accepts, at a time before its last event, leaves a dispute that the
  -- store's checks refuse.
  pub backward_review_refused :
      (d : Dispute) (p : Principal) (now : ℕ)
      → is_open d.status ≡ true
      → (begin_review k d p now).1 ≡ none
      → now < last_time 0 d.events
      → restore_dispute k (begin_review k d p now).0 ≡ err Error.invalid
  unfolding append_event
  backward_review_refused d p now live h back = rw (begin_review_accepts d p now live h) (
      bad_events_refused _ (
        check_events_backward 0 0 d.events
          (record {
            sequence = add64 (length d.events) 1;
            kind = review_started;
            actor = p.id;
            at = now;
            statement = "review_started";
            replacement_id = "";
          })
          back))
