-- ===== src/Registry/Review.antt =====
-- Histories of a dispute of internal/registry/dispute.go, and what one call of them does.
use agentapi_doctor.Common.{
  ℕ, ◌≤◌, ◌<◌, ◌≡◌, ◌≢◌, ◌⊎◌, String, Bool, true, false, List, [], ◌∷◌, Option, none, ◌==◌,
  string_eq, eqb, arith, Option-cases, refl, inl, inr, not, ◌&&◌, ◌||◌, sym, ◌∙◌, if_split,
}
use agentapi_doctor.Registry.{Checks, Error, Principal, is_principal, is_reason, require_scope}
use agentapi_doctor.Registry.Ownership.{Ownership, authorize_manage}
use agentapi_doctor.Registry.Dispute.{
  Status, EventKind, Dispute, is_open, is_under_review, is_status, append_event, is_replacement,
  add_owner_response, begin_review, authorize_reviewer, resolve, supersede, under_review,
  owner_response, review_started,
}

-- The calls that may change a dispute.
pub data Call : Type 0 where
  responds : (p : Principal) (o : Ownership) (statement : String) (now : ℕ) → Call
  reviews : (p : Principal) (now : ℕ) → Call
  resolves : (p : Principal) (resolution : String) (now : ℕ) → Call
  supersedes : (p : Principal) (replacement reason : String) (now : ℕ) → Call

abbrev pub time : Call → ℕ
time (responds p o statement now) = now
time (reviews p now) = now
time (resolves p resolution now) = now
time (supersedes p replacement reason now) = now

-- The clock of the calls never goes back.
abbrev pub IsTimed : ℕ → List Call → Type 0
IsTimed clock [] = Unit
IsTimed clock (c ∷ cs) = (clock ≤ time c) × IsTimed (time c) cs

-- What Go documents of the text functions, at the text that `BeginReview` writes.
pub record StandardText (k : Checks) : Type 0 where
  pub trims : k.trim_space "review_started" ≡ "review_started"
  pub measures : k.byte_length "review_started" ≡ 14
  pub prints : (c : ℕ) → 32 ≤ c → c < 127 → k.is_control c ≡ false

abbrev pub is_judgement : EventKind → Bool
is_judgement review_started = true
is_judgement EventKind.resolved = true
is_judgement EventKind.superseded = true
is_judgement kind = false

module _ (k : Checks) where
  unfoldable pub step : Dispute → Call → Dispute
  step d (responds p o statement now) = (add_owner_response k d p o statement now).0
  step d (reviews p now) = (begin_review k d p now).0
  step d (resolves p resolution now) = (resolve k d p resolution now).0
  step d (supersedes p replacement reason now) = (supersede k d p replacement reason now).0

  unfoldable pub run : Dispute → List Call → Dispute
  run d [] = d
  run d (c ∷ cs) = run (step d c) cs

  -- What holds when a call adds an event and leaves the reviewer `r` and the status `s`.
  pub record Adds (d : Dispute) (kind : EventKind) (actor text replacement r : String) (s : Status)
      (now : ℕ) : Type 0 where
    pub live : is_open d.status || is_under_review d.status ≡ true
    pub timed : eqb now 0 ≡ false
    pub principal : is_principal k actor ≡ true
    pub written : text ≡ "review_started" ⊎ (is_reason k text ≡ true)
    pub replaces : is_replacement k kind replacement ≡ true
    pub status : is_status s ≡ true
    pub reviewer :
        ((r ≡ d.reviewer)
          × (is_open s ≡ true → is_open d.status ≡ true)
          × (is_open d.status ≡ true → is_open s ≡ true))
        ⊎ ((r ≡ actor) × (r ≢ d.creator) × (r ≢ d.subject_owner))
    pub judged : is_judgement kind ≡ true → (actor ≡ r) × (is_open s ≡ false)

  -- A call leaves the dispute, or adds one event.
  pub data Turn (d : Dispute) (now : ℕ) : Dispute → Type 0 where
    stays : Turn d now d
    adds :
        (kind : EventKind) (actor text replacement r : String) (s : Status)
        → Adds d kind actor text replacement r s now
        → Turn d now
            (append_event (record d { reviewer = r; status = s }) kind actor text replacement now)

  abbrev TurnOf : (d : Dispute) (now : ℕ) → Dispute × Option Error → Type 0
  TurnOf d now o = Turn d now o.0

  open_status : (s : Status) → is_open s || is_under_review s ≡ true → is_status s ≡ true
  unfolding is_open is_under_review is_status
  open_status Status.opened h = refl
  open_status under_review h = refl
  open_status Status.resolved h = refl
  open_status Status.superseded h = refl
  open_status (Status.other s) h = absurd (ground arith)

  review_not_open : (s : Status) → is_under_review s ≡ true → is_open s ≡ false
  unfolding is_open is_under_review
  review_not_open Status.opened h = absurd (ground arith)
  review_not_open under_review h = refl
  review_not_open Status.resolved h = refl
  review_not_open Status.superseded h = refl
  review_not_open (Status.other s) h = refl

  require_scope_principal :
      (p : Principal) (s : String) → require_scope k p s ≡ none → is_principal k p.id ≡ true
  unfolding require_scope
  require_scope_principal p s h = ground arith

  -- The reviewer and the status stay.
  kept :
      (d : Dispute) (s : Status) (actor : String)
      → is_open s ≡ is_open d.status
      → ((d.reviewer ≡ d.reviewer)
          × (is_open s ≡ true → is_open d.status ≡ true)
          × (is_open d.status ≡ true → is_open s ≡ true))
        ⊎ ((d.reviewer ≡ actor) × (d.reviewer ≢ d.creator) × (d.reviewer ≢ d.subject_owner))
  kept d s actor h = inl (refl, (λ e. sym h ∙ e), (λ e. h ∙ e))

  begin_review-Turn :
      (d : Dispute) (p : Principal) (now : ℕ) → Turn d now (begin_review k d p now).0
  unfolding begin_review is_replacement is_open is_under_review is_status
  begin_review-Turn d p now = elim (Option-cases (require_scope k p "moderation:review")) [
    | inr (e, h) ↦ rw (h, begin_review) stays
    | inl h ↦
        rw (h, begin_review)
          (if_split (TurnOf d now) (p.id == d.creator || p.id == d.subject_owner) _ _ (λ _. stays)
            (λ apart.
              if_split (TurnOf d now) (is_under_review d.status && d.reviewer == p.id) _ _
                (λ _. stays)
                (λ _.
                  if_split (TurnOf d now) (not (is_open d.status)) _ _ (λ _. stays)
                    (λ live.
                      if_split (TurnOf d now) (eqb now 0) _ _ (λ _. stays)
                        (λ timed.
                          adds review_started p.id "review_started" "" p.id under_review (record {
                            live = ground (arith, live);
                            timed = timed;
                            principal = require_scope_principal p "moderation:review" h;
                            written = inl refl;
                            replaces = ground arith;
                            status = ground arith;
                            reviewer = inr (
                              refl,
                              ground (arith, string_eq.test_iff p.id d.creator),
                              ground (arith, string_eq.test_iff p.id d.subject_owner),
                            );
                            judged = ground arith;
                          }))))))
  ]

  add_owner_response-Turn :
      (d : Dispute) (p : Principal) (o : Ownership) (statement : String) (now : ℕ)
      → Turn d now (add_owner_response k d p o statement now).0
  unfolding add_owner_response is_replacement
  add_owner_response-Turn d p o statement now =
      if_split (TurnOf d now) (eqb now 0) _ _ (λ _. stays)
        (λ timed. elim (Option-cases (require_scope k p "dispute:create")) [
          | inr (e, h) ↦ rw (h, add_owner_response) stays
          | inl h ↦ elim (Option-cases (authorize_manage k o p now)) [
            | inr (e, f) ↦ rw (h, f, add_owner_response) stays
            | inl f ↦
                rw (h, f, add_owner_response)
                  (if_split (TurnOf d now)
                    (not (o.subject == d.subject && o.owner == d.subject_owner)) _ _ (λ _. stays)
                    (λ _.
                      if_split (TurnOf d now) (not (is_reason k statement)) _ _ (λ _. stays)
                        (λ written.
                          if_split (TurnOf d now)
                            (not (is_open d.status || is_under_review d.status)) _ _ (λ _. stays)
                            (λ live.
                              adds owner_response p.id statement "" d.reviewer d.status (record {
                                live = ground (arith, live);
                                timed = timed;
                                principal = require_scope_principal p "dispute:create" h;
                                written = inr (ground arith);
                                replaces = ground arith;
                                status = open_status d.status (ground (arith, live));
                                reviewer = kept d d.status p.id refl;
                                judged = ground arith;
                              })))))
          ]
        ])

  authorize_reviewer_checks :
      (d : Dispute) (p : Principal)
      → authorize_reviewer k d p ≡ none
      → (is_principal k p.id ≡ true) × (p.id ≡ d.reviewer)
  unfolding authorize_reviewer
  authorize_reviewer_checks d p h = elim (Option-cases (require_scope k p "moderation:review")) [
    | inr (e, f) ↦ absurd (ground arith)
    | inl f ↦ (
      require_scope_principal p "moderation:review" f,
      ground (arith, string_eq.test_iff p.id d.reviewer),
    )
  ]

  -- What the reviewer's closing event adds.
  closing :
      (d : Dispute) (p : Principal) (kind : EventKind) (text replacement : String) (s : Status)
      (now : ℕ)
      → authorize_reviewer k d p ≡ none
      → is_under_review d.status ≡ true
      → eqb now 0 ≡ false
      → is_reason k text ≡ true
      → is_replacement k kind replacement ≡ true
      → is_status s ≡ true
      → is_open s ≡ false
      → Adds d kind p.id text replacement d.reviewer s now
  closing d p kind text replacement s now allowed live timed written replaces status ended =
      record {
        live = ground (arith, live);
        timed = timed;
        principal = (authorize_reviewer_checks d p allowed).0;
        written = inr written;
        replaces = replaces;
        status = status;
        reviewer = kept d s p.id (ended ∙ sym (review_not_open d.status live));
        judged = λ _. ((authorize_reviewer_checks d p allowed).1, ended);
      }

  resolve-Turn :
      (d : Dispute) (p : Principal) (resolution : String) (now : ℕ)
      → Turn d now (resolve k d p resolution now).0
  unfolding resolve is_replacement is_status is_open
  resolve-Turn d p resolution now = elim (Option-cases (authorize_reviewer k d p)) [
    | inr (e, h) ↦ rw (h, resolve) stays
    | inl h ↦
        rw (h, resolve)
          (if_split (TurnOf d now) (not (is_reason k resolution) || eqb now 0) _ _ (λ _. stays)
            (λ fine.
              if_split (TurnOf d now) (not (is_under_review d.status)) _ _ (λ _. stays)
                (λ live. adds EventKind.resolved p.id resolution "" d.reviewer Status.resolved (
                  closing d p EventKind.resolved resolution "" Status.resolved now h
                    (ground (arith, live)) (ground (arith, fine)) (ground (arith, fine))
                    (ground arith) refl refl))))
  ]

  supersede-Turn :
      (d : Dispute) (p : Principal) (replacement reason : String) (now : ℕ)
      → Turn d now (supersede k d p replacement reason now).0
  unfolding supersede is_replacement is_status is_open
  supersede-Turn d p replacement reason now = elim (Option-cases (authorize_reviewer k d p)) [
    | inr (e, h) ↦ rw (h, supersede) stays
    | inl h ↦
        rw (h, supersede)
          (if_split (TurnOf d now)
            (not (k.is_digest replacement) || replacement == d.observation_id) _ _ (λ _. stays)
            (λ names.
              if_split (TurnOf d now) (not (is_reason k reason) || eqb now 0) _ _ (λ _. stays)
                (λ fine.
                  if_split (TurnOf d now) (not (is_under_review d.status)) _ _ (λ _. stays)
                    (λ live.
                      adds EventKind.superseded p.id reason replacement d.reviewer Status.superseded
                        (closing d p EventKind.superseded reason replacement Status.superseded now h
                          (ground (arith, live)) (ground (arith, fine)) (ground (arith, fine))
                          (ground (arith, names)) refl refl)))))
  ]

  pub step-Turn : (d : Dispute) (c : Call) → Turn d (time c) (step d c)
  unfolding step
  step-Turn d (responds p o statement now) = add_owner_response-Turn d p o statement now
  step-Turn d (reviews p now) = begin_review-Turn d p now
  step-Turn d (resolves p resolution now) = resolve-Turn d p resolution now
  step-Turn d (supersedes p replacement reason now) = supersede-Turn d p replacement reason now
