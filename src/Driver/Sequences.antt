-- ===== src/Driver/Sequences.antt =====
-- The observations of one invocation (pkg/driverprotocol/state.go): identities and sequence numbers.
use agentapi_doctor.Common.{
  ℕ, String, true, List, [], ◌∷◌, Option, none, some, string_eq, nat_eq, ◌<◌, ◌≡◌, ◌⊎◌,
  if◌then◌else◌, arith, refl, inl, inr, Option-cases, Bool-cases, ap, ◌∙◌,
}
use agentapi_doctor.Driver.{
  ActiveInvocation, Machine, Outcome, Wire, InvokeParams, CancelParams, ObservationParams,
  CompletedParams, begin_invocation, request_cancel, observe, observe_active, complete,
  complete_active, fresh_invocation, prepared, invoking,
}

module _ (w : Wire) where
  -- The frames of an invocation between its begin and its completion: observations and cancellations,
  -- fed until one is refused.
  unfoldable pub feed : Machine → List (ObservationParams ⊎ CancelParams) → Outcome
  feed m [] = (m, none)
  feed m (inl p ∷ fs) = elim (observe w m p).1 [
    | some c ↦ ((observe w m p).0, some c)
    | none ↦ feed (observe w m p).0 fs
  ]
  feed m (inr p ∷ fs) = elim (request_cancel w m p).1 [
    | some c ↦ ((request_cancel w m p).0, some c)
    | none ↦ feed (request_cancel w m p).0 fs
  ]

-- The sequence numbers of the observations.
abbrev pub sequences : List (ObservationParams ⊎ CancelParams) → List ℕ
sequences [] = []
sequences (inl p ∷ fs) = p.sequence ∷ sequences fs
sequences (inr p ∷ fs) = sequences fs

-- Every number is above the one before it, the first above `n` if there is such a number.
abbrev pub IsIncreasing : Option ℕ → List ℕ → Type 0
IsIncreasing last [] = Unit
IsIncreasing none (x ∷ xs) = IsIncreasing (some x) xs
IsIncreasing (some n) (x ∷ xs) = (n < x) × IsIncreasing (some x) xs

-- The last of the numbers, `last` if there are none.
abbrev pub last_from : Option ℕ → List ℕ → Option ℕ
last_from last [] = last
last_from last (x ∷ xs) = last_from (some x) xs

-- Every observation names the invocation and the attempt.
abbrev pub AllOf : String → String → List (ObservationParams ⊎ CancelParams) → Type 0
AllOf id attempt [] = Unit
AllOf id attempt (inl p ∷ fs) =
    (p.invocation_id ≡ id) × (p.attempt_id ≡ attempt) × AllOf id attempt fs
AllOf id attempt (inr p ∷ fs) = AllOf id attempt fs

-- What an active invocation has observed last.
abbrev pub observed : ActiveInvocation → Option ℕ
observed a = if a.has_observation then some a.last_sequence else none

module _ (w : Wire) where
  observe_accepted :
      (m : Machine) (a : ActiveInvocation) (p : ObservationParams)
      → m.state ≡ invoking
      → m.active ≡ some a
      → (observe w m p).1 ≡ none
      → (p.invocation_id ≡ a.invocation_id)
        × (p.attempt_id ≡ a.attempt_id)
        × ((observe w m p).0 ≡ record m {
          active = some (record a { last_sequence = p.sequence; has_observation = true });
        })
        × (a.has_observation ≡ true → a.last_sequence < p.sequence)
  unfolding observe observe_active
  observe_accepted m a p s h done = ground (
    arith,
    string_eq.test_iff a.invocation_id p.invocation_id,
    string_eq.test_iff a.attempt_id p.attempt_id,
  )

  cancel_accepted :
      (m : Machine) (a : ActiveInvocation) (p : CancelParams)
      → m.state ≡ invoking
      → m.active ≡ some a
      → (request_cancel w m p).1 ≡ none
      → (request_cancel w m p).0 ≡ record m { active = some (record a { cancel_requested = true }) }
  unfolding request_cancel
  cancel_accepted m a p s h done = ground arith

  -- What an accepted list of frames does to a machine whose active invocation is `a`.
  record Observes (m : Machine) (a : ActiveInvocation)
      (fs : List (ObservationParams ⊎ CancelParams)) : Type 0 where
    increasing : IsIncreasing (observed a) (sequences fs)
    named : AllOf a.invocation_id a.attempt_id fs
    end : ActiveInvocation
    reached : (feed w m fs).0 ≡ record m { active = some end }
    same_id : end.invocation_id ≡ a.invocation_id
    same_attempt : end.attempt_id ≡ a.attempt_id
    latest : observed end ≡ last_from (observed a) (sequences fs)

  observed-IsIncreasing :
      (a : ActiveInvocation) (n : ℕ) (ns : List ℕ)
      → (a.has_observation ≡ true → a.last_sequence < n)
      → IsIncreasing (some n) ns
      → IsIncreasing (observed a) (n ∷ ns)
  observed-IsIncreasing a n ns above rest = elim (Bool-cases a.has_observation) [
    | inl e ↦ rw e (above e, rest)
    | inr e ↦ rw e rest
  ]

  last_from-cons :
      (o : Option ℕ) (n : ℕ) (ns : List ℕ) → last_from (some n) ns ≡ last_from o (n ∷ ns)
  last_from-cons o n ns = refl

  feed-Observes :
      (m : Machine) (a : ActiveInvocation) (fs : List (ObservationParams ⊎ CancelParams))
      → m.state ≡ invoking
      → m.active ≡ some a
      → (feed w m fs).1 ≡ none
      → Observes m a fs
  unfolding feed
  feed-Observes m a [] s h done = record {
    increasing = tt;
    named = tt;
    end = a;
    reached = ground arith;
    same_id = refl;
    same_attempt = refl;
    latest = refl;
  }
  feed-Observes m a (inl p ∷ fs) s h done = elim (Option-cases (observe w m p).1) [
    | inr (c, e) ↦ absurd (ground arith)
    | inl e ↦
        let (id, attempt, step, above) = observe_accepted m a p s h e in
        let b : ActiveInvocation = record a {
          last_sequence = p.sequence;
          has_observation = true;
        } in
        let rest_done : (feed w (observe w m p).0 fs).1 ≡ none = ground arith in
        let rest = feed-Observes (observe w m p).0 b fs (rw step s) (rw step refl) rest_done in
        record {
          increasing = observed-IsIncreasing a p.sequence (sequences fs) above rest.increasing;
          named = (id, attempt, rest.named);
          end = rest.end;
          reached =
              rw (e, feed)
                (rest.reached ∙ ap (λ (k : Machine). record k { active = some rest.end }) step);
          same_id = rest.same_id;
          same_attempt = rest.same_attempt;
          latest = rest.latest;
        }
  ]
  feed-Observes m a (inr p ∷ fs) s h done = elim (Option-cases (request_cancel w m p).1) [
    | inr (c, e) ↦ absurd (ground arith)
    | inl e ↦
        let step = cancel_accepted m a p s h e in
        let b : ActiveInvocation = record a { cancel_requested = true } in
        let rest_done : (feed w (request_cancel w m p).0 fs).1 ≡ none = ground arith in
        let rest =
          feed-Observes (request_cancel w m p).0 b fs (rw step s) (rw step refl) rest_done in
        record {
          increasing = rest.increasing;
          named = rest.named;
          end = rest.end;
          reached =
              rw (e, feed)
                (rest.reached ∙ ap (λ (k : Machine). record k { active = some rest.end }) step);
          same_id = rest.same_id;
          same_attempt = rest.same_attempt;
          latest = rest.latest;
        }
  ]

  begin_accepted :
      (m : Machine) (p : InvokeParams)
      → (begin_invocation w m p).1 ≡ none
      → (begin_invocation w m p).0
        ≡ record m { active = some (fresh_invocation p); state = invoking }
  unfolding begin_invocation
  begin_accepted m p h = ground arith

  complete_accepted :
      (m : Machine) (a : ActiveInvocation) (p : CompletedParams)
      → m.state ≡ invoking
      → m.active ≡ some a
      → (complete w m p).1 ≡ none
      → (p.invocation_id ≡ a.invocation_id)
        × (p.attempt_id ≡ a.attempt_id)
        × (p.last_sequence ≡ observed a)
        × ((complete w m p).0.state ≡ prepared)
  unfolding complete complete_active
  complete_accepted m a p s h done = ground (
    arith,
    string_eq.test_iff a.invocation_id p.invocation_id,
    string_eq.test_iff a.attempt_id p.attempt_id,
  )

  -- Of an invocation that begins, is observed and possibly cancelled, and completes, all accepted:
  -- every observation names its invocation and attempt, the sequence numbers strictly increase, the
  -- completion names the same invocation and attempt and states the last sequence number, none
  -- without observations, and the machine is in PREPARED again.
  pub invocation_sequences :
      (m : Machine) (p : InvokeParams) (fs : List (ObservationParams ⊎ CancelParams))
      (q : CompletedParams)
      → let m₁ = (begin_invocation w m p).0 in
        let m₂ = (feed w m₁ fs).0 in
        (begin_invocation w m p).1 ≡ none
        → (feed w m₁ fs).1 ≡ none
        → (complete w m₂ q).1 ≡ none
        → AllOf p.invocation_id p.attempt_id fs
          × IsIncreasing none (sequences fs)
          × (q.invocation_id ≡ p.invocation_id)
          × (q.attempt_id ≡ p.attempt_id)
          × (q.last_sequence ≡ last_from none (sequences fs))
          × ((complete w m₂ q).0.state ≡ prepared)
  invocation_sequences m p fs q begun fed completed =
      let begin = begin_accepted m p begun in
      let o =
        feed-Observes (begin_invocation w m p).0 (fresh_invocation p) fs (rw begin refl)
          (rw begin refl) fed in
      let m₂ = (feed w (begin_invocation w m p).0 fs).0 in
      let (id, attempt, last, state) =
        complete_accepted m₂ o.end q (rw (o.reached, begin) refl) (rw o.reached refl) completed in
      (o.named, o.increasing, id ∙ o.same_id, attempt ∙ o.same_attempt, last ∙ o.latest, state)
