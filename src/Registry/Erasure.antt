-- ===== src/Registry/Erasure.antt =====
-- Histories of a purge of internal/registry/purge.go.
use agentapi_doctor.Common.{
  any, ◌==◌, ℕ, ◌≡◌, ◌≢◌, String, Bool, true, false, not, ◌&&◌, ◌||◌, List, [], ◌∷◌, Option, none,
  some, string_eq, eqb, lookup, insert, subst, if◌then◌else◌, Result, ok, err, arith, Option-cases,
  refl, inl, inr, lookup-insert, if_split, Bool-cases, is_some,
}
use agentapi_doctor.Registry.{Checks, Error, Principal, require_scope}
use agentapi_doctor.Registry.Purge.{
  Reason, TargetStatus, Status, Request, pending, purged, not_applicable, requested, in_progress,
  completed, all_targets, is_pending, all_terminal, same_status, action_of, is_reason, append_event,
  finish_target, complete_known, new_purge, start, complete_target,
}

-- The calls on a request.
pub data Call : Type 0 where
  starts : (p : Principal) (now : ℕ) → Call
  completes : (p : Principal) (target : String) (status : TargetStatus) (now : ℕ) → Call

-- The places that serve an observation.
abbrev pub places : List String
places = "object_store" ∷ "cdn" ∷ "search" ∷ "cache" ∷ "public_page" ∷ []

abbrev pub is_place : String → Bool
is_place t = any (λ place. place == t) places

all_targets-is_place :
    (t : String) → lookup t all_targets ≡ (if is_place t then some pending else none)
unfolding lookup
all_targets-is_place t = ground arith

-- No place is named twice.
abbrev pub apart : List (String × TargetStatus) → Bool
apart [] = true
apart ((t, s) ∷ rest) = not (is_some (lookup t rest)) && apart rest

-- A request is complete exactly when no place's target is pending, and the places are always the same.
pub record Inv (r : Request) : Type 0 where
  pub complete : r.status ≡ completed → (t : String) → lookup t r.targets ≢ some pending
  pub incomplete : r.status ≢ completed → (t : String) × (lookup t r.targets ≡ some pending)
  pub waits :
      r.status ≡ requested → (t : String) → is_place t ≡ true → lookup t r.targets ≡ some pending
  pub named : (t : String) → is_some (lookup t r.targets) ≡ is_place t
  pub once : apart r.targets ≡ true

apart-insert :
    (t : String) (s : TargetStatus) (l : List (String × TargetStatus))
    → apart l ≡ true
    → apart (insert t s l) ≡ true
unfolding insert lookup
apart-insert t s [] h = refl
apart-insert t s ((u, old) ∷ rest) h = ground (
  arith,
  h,
  string_eq.test_iff u t,
  string_eq.test_iff t u,
  lookup-insert t u s rest,
  apart-insert t s rest,
)

-- What the loop over the targets tells of the single places.
all_terminal-none_pending :
    (l : List (String × TargetStatus)) (t : String)
    → all_terminal l ≡ true
    → lookup t l ≢ some pending
unfolding all_terminal lookup
all_terminal-none_pending [] t h = λ e. absurd (ground (arith, e))
all_terminal-none_pending ((u, s) ∷ rest) t h =
    λ e. ground (arith, h, e, all_terminal-none_pending rest t)

all_terminal-some_pending :
    (l : List (String × TargetStatus))
    → apart l ≡ true
    → all_terminal l ≡ false
    → (t : String) × (lookup t l ≡ some pending)
unfolding all_terminal lookup
all_terminal-some_pending [] a h = absurd (ground (arith, h))
all_terminal-some_pending ((u, s) ∷ rest) a h = elim (Bool-cases (is_pending s)) [
  | inl waiting ↦ (u, ground (arith, waiting, string_eq.test_iff u u))
  | inr over ↦
      let (t, found) =
        all_terminal-some_pending rest (ground (arith, a)) (ground (arith, h, over)) in
      (t, ground (arith, a, found, string_eq.test_iff u t))
]

module _ (k : Checks) where
  unfoldable pub step : Request → Call → Request
  step r (starts p now) = (start k r p now).0
  step r (completes p target status now) = (complete_target k r p target status now).0

  unfoldable pub run : Request → List Call → Request
  run r [] = r
  run r (c ∷ cs) = run (step r c) cs

  -- A target that has its status keeps it.
  pub record Settled (r : Request) (t : String) (s : TargetStatus) : Type 0 where
    pub status : lookup t r.targets ≡ some s
    pub terminal : is_pending s ≡ false

  finish_target-Settled :
      (r : Request) (t : String) (s : TargetStatus) (actor target : String)
      (status current : TargetStatus) (action : String) (now : ℕ)
      → lookup target r.targets ≡ some current
      → is_pending current ≡ true
      → Settled r t s
      → Settled (finish_target r actor target status action now) t s
  unfolding finish_target append_event
  finish_target-Settled r t s actor target status current action now found open_yet h = ground (
    arith,
    h.status,
    h.terminal,
    lookup-insert target t status r.targets,
    string_eq.test_iff target t,
  )

  -- A call leaves the request, starts it, or settles one pending target.
  data Turn (r : Request) : Request → Type 0 where
    stays : Turn r r
    begins :
        (actor : String) (now : ℕ)
        → r.status ≡ requested
        → Turn r (append_event (record r { status = in_progress }) actor "started" "" now)
    settles :
        (actor target : String) (status current : TargetStatus) (action : String) (now : ℕ)
        → r.status ≡ in_progress
        → lookup target r.targets ≡ some current
        → is_pending current ≡ true
        → is_pending status ≡ false
        → Turn r (finish_target r actor target status action now)

  abbrev TurnOf : (r : Request) → Request × Option Error → Type 0
  TurnOf r o = Turn r o.0

  start-Turn : (r : Request) (p : Principal) (now : ℕ) → Turn r (start k r p now).0
  unfolding start
  start-Turn r p now = elim (Option-cases (require_scope k p "moderation:review")) [
    | inr (e, h) ↦ rw (h, start) stays
    | inl h ↦ rw (h, start) (by_status r.status refl)
  ]
    where
      by_status :
          (s : Status)
          → r.status ≡ s
          → Turn r
              (elim r.status as (λ _. Request × Option Error) [
                | in_progress ↦ (r, none)
                | completed ↦ (r, some Error.invalid_transition)
                | requested ↦ if eqb now 0 then (r, some Error.invalid) else (
                  append_event (record r { status = in_progress }) p.id "started" "" now,
                  none,
                )
              ]).0
      by_status in_progress e = simp e stays
      by_status completed e = simp e stays
      by_status requested e =
          simp e (if_split (TurnOf r) (eqb now 0) _ _ (λ _. stays) (λ _. begins p.id now e))

  action_of-terminal : (s : TargetStatus) (a : String) → action_of s ≡ some a → is_pending s ≡ false
  unfolding action_of
  action_of-terminal pending a h = absurd (ground (arith, h))
  action_of-terminal purged a h = refl
  action_of-terminal not_applicable a h = refl
  action_of-terminal (TargetStatus.other s) a h = refl

  complete_known-Turn :
      (s : Status) (r : Request) (actor target : String) (current status : TargetStatus)
      (action : String) (now : ℕ)
      → r.status ≡ s
      → lookup target r.targets ≡ some current
      → is_pending status ≡ false
      → Turn r (complete_known r actor target current status action now).0
  unfolding complete_known
  complete_known-Turn completed r actor target current status action now e found terminal =
      simp (e, complete_known)
        (if_split (TurnOf r) (same_status current status) _ _ (λ _. stays) (λ _. stays))
  complete_known-Turn requested r actor target current status action now e found terminal =
      simp (e, complete_known) stays
  complete_known-Turn in_progress r actor target current status action now e found terminal =
      simp (e, complete_known)
        (if_split (TurnOf r) (same_status current status) _ _ (λ _. stays)
          (λ _.
            if_split (TurnOf r) (not (is_pending current)) _ _ (λ _. stays)
              (λ waiting.
                if_split (TurnOf r) (eqb now 0) _ _ (λ _. stays)
                  (λ _.
                    settles actor target status current action now e found (ground (arith, waiting))
                      terminal))))

  complete_target-Turn :
      (r : Request) (p : Principal) (target : String) (status : TargetStatus) (now : ℕ)
      → Turn r (complete_target k r p target status now).0
  unfolding complete_target
  complete_target-Turn r p target status now =
      elim (Option-cases (require_scope k p "moderation:review")) [
        | inr (e, h) ↦ rw (h, complete_target) stays
        | inl h ↦ elim (Option-cases (lookup target r.targets)) [
          | inl f ↦ rw (h, f, complete_target) stays
          | inr (current, f) ↦ elim (Option-cases (action_of status)) [
            | inl g ↦ rw (h, f, g, complete_target) stays
            | inr (action, g) ↦
                rw (h, f, g, complete_target)
                  (complete_known-Turn r.status r p.id target current status action now refl f
                    (action_of-terminal status action g))
          ]
        ]
      ]

  step-Turn : (r : Request) (c : Call) → Turn r (step r c)
  unfolding step
  step-Turn r (starts p now) = start-Turn r p now
  step-Turn r (completes p target status now) = complete_target-Turn r p target status now

  target_kept :
      (r : Request) (t target : String) (status current : TargetStatus)
      → Inv r
      → lookup target r.targets ≡ some current
      → is_some (lookup t (insert target status r.targets)) ≡ is_place t
  target_kept r t target status current i found = ground (
    arith,
    i.named t,
    found,
    lookup-insert target t status r.targets,
    string_eq.test_iff target t,
  )

  Turn-Inv : (r r' : Request) → Turn r r' → Inv r → Inv r'
  unfolding append_event finish_target
  Turn-Inv r _ stays i = i
  Turn-Inv r _ (begins actor now e) i = record {
    complete = λ h. absurd (ground (arith, h));
    incomplete = λ _. i.incomplete (λ h. ground (arith, e, h));
    waits = λ h. absurd (ground (arith, h));
    named = i.named;
    once = i.once;
  }
  Turn-Inv r _ (settles actor target status current action now e found open_yet terminal) i =
      let once = apart-insert target status r.targets i.once in
      if_split Inv (all_terminal (insert target status r.targets)) _ _
        (λ all_done. record {
          complete = λ _ t. all_terminal-none_pending (insert target status r.targets) t all_done;
          incomplete = λ h. absurd (h refl);
          waits = λ h. absurd (ground (arith, h));
          named = λ t. target_kept r t target status current i found;
          once = once;
        })
        (λ some_left. record {
          complete = λ h. absurd (ground (arith, h, e));
          incomplete =
              λ _. all_terminal-some_pending (insert target status r.targets) once some_left;
          waits = λ h. absurd (ground (arith, h, e));
          named = λ t. target_kept r t target status current i found;
          once = once;
        })

  Turn-Settled :
      (r r' : Request) (t : String) (s : TargetStatus) → Turn r r' → Settled r t s → Settled r' t s
  unfolding append_event
  Turn-Settled r _ t s stays h = h
  Turn-Settled r _ t s (begins actor now e) h = record { status = h.status; terminal = h.terminal }
  Turn-Settled r _ t s (settles actor target status current action now e found open_yet terminal)
        h =
      finish_target-Settled r t s actor target status current action now found open_yet h

  run-Inv : (r : Request) (calls : List Call) → Inv r → Inv (run r calls)
  unfolding run
  run-Inv r [] i = i
  run-Inv r (c ∷ cs) i = run-Inv (step r c) cs (Turn-Inv r (step r c) (step-Turn r c) i)

  data Opens : Result Error Request → Type 0 where
    opens : (r : Request) → Inv r → Opens (ok r)
    refuses : (e : Error) → Opens (err e)

  new_purge-Opens :
      (p : Principal) (event_id : String) (reason : Reason) (now : ℕ)
      → Opens (new_purge k p event_id reason now)
  unfolding new_purge append_event lookup
  new_purge-Opens p event_id reason now =
      elim (Option-cases (require_scope k p "moderation:review")) [
        | inr (e, h) ↦ rw (h, new_purge) (refuses e)
        | inl h ↦
            rw (h, new_purge)
              (if_split Opens (not (k.is_instance event_id && is_reason reason) || eqb now 0) _ _
                (λ _. refuses Error.invalid)
                (λ _. opens _ (record {
                  complete = λ e. absurd (ground (arith, e));
                  incomplete = λ _. ("cdn", refl);
                  waits = λ _ t h. ground (arith, h, all_targets-is_place t);
                  named = λ t. ground (arith, all_targets-is_place t);
                  once = refl;
                })))
      ]

  ok-injective : (r s : Request) → ◌≡◌ {A = Result Error Request} (ok r) (ok s) → r ≡ s
  ok-injective r s h = cc

  Opens-Inv : (o : Result Error Request) (r : Request) → Opens o → o ≡ ok r → Inv r
  Opens-Inv _ r (opens s i) h = subst Inv (ok-injective s r h) i
  Opens-Inv _ r (refuses e) h = absurd (ground (arith, h))

  -- After a purge is opened and any calls follow, in any order: when it is complete no place is found
  -- pending, when it is not some place is; before its start each place is pending; and its targets are
  -- always those of the five places (object store, CDN, search, cache and public page), each named
  -- once.
  pub run-new_purge-Inv :
      (p : Principal) (event_id : String) (reason : Reason) (now : ℕ) (r : Request)
      (calls : List Call)
      → new_purge k p event_id reason now ≡ ok r
      → Inv (run r calls)
  run-new_purge-Inv p event_id reason now r calls h =
      run-Inv r calls (Opens-Inv _ r (new_purge-Opens p event_id reason now) h)

  -- A target whose removal is recorded keeps its status through every later call.
  pub run-Settled :
      (r : Request) (calls : List Call) (t : String) (s : TargetStatus)
      → Settled r t s
      → Settled (run r calls) t s
  unfolding run
  run-Settled r [] t s h = h
  run-Settled r (c ∷ cs) t s h =
      run-Settled (step r c) cs t s (Turn-Settled r (step r c) t s (step-Turn r c) h)
