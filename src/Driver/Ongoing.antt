-- ===== src/Driver/Ongoing.antt =====
-- What the frames of a session leave of an invocation that is active (pkg/driverprotocol/state.go).
use agentapi_doctor.Common.{
  ◌≤◌, String, true, not, ◌||◌, List, [], ◌∷◌, none, some, string_eq, nat_eq, ◌≡◌, ◌≢◌, arith, refl,
  sym, ap, inl, inr, subst, All, leb, if_split, Option-cases, Result-cases, ◌==◌, ◌&&◌, ◌∙◌,
}
use agentapi_doctor.Driver.{
  Method, ActiveInvocation, Machine, Outcome, Wire, Message, CancelParams, ObservationParams,
  accept_hello, accept_prepare, check_capabilities, reset_session, shut_down, begin_invocation,
  request_cancel, observe, observe_active, is_valid_cancel, is_valid_observation, invoking,
  invalid_request,
}
use agentapi_doctor.Driver.Messages.{MessageKind, kind, dispatch, apply, apply_kind, run}

-- It is the same invocation and attempt, a cancellation that was asked for stays so, and what was
-- observed is not taken back.
pub record Continues (a b : ActiveInvocation) : Type 0 where
  pub invocation : b.invocation_id ≡ a.invocation_id
  pub attempt : b.attempt_id ≡ a.attempt_id
  pub asked : a.cancel_requested ≡ true → b.cancel_requested ≡ true
  pub observed :
      a.has_observation ≡ true → (b.has_observation ≡ true) × (a.last_sequence ≤ b.last_sequence)

-- The machine `m'` is still at the invocation that was active, as `a`, in `m`.
pub record Ongoing (m : Machine) (a : ActiveInvocation) (m' : Machine) : Type 0 where
  pub state : m'.state ≡ invoking
  pub finished : m'.finished ≡ m.finished
  pub active : (b : ActiveInvocation) × (m'.active ≡ some b) × Continues a b

Continues-self : (a : ActiveInvocation) → Continues a a
Continues-self a = record {
  invocation = refl;
  attempt = refl;
  asked = λ h. h;
  observed = λ h. (h, omega arith);
}

Continues-trans : (a b c : ActiveInvocation) → Continues a b → Continues b c → Continues a c
Continues-trans a b c p q = record {
  invocation = q.invocation ∙ p.invocation;
  attempt = q.attempt ∙ p.attempt;
  asked = λ h. q.asked (p.asked h);
  observed = λ h.
      let (seen, low) = p.observed h in
      let (seen', low') = q.observed seen in (seen', omega (arith, low, low'));
}

-- A machine with an active invocation.
abbrev pub at : ActiveInvocation → List (String × Unit {0}) → Machine
at a finished = record { state = invoking; active = some a; finished = finished }

pub is_at :
    (m : Machine) (a : ActiveInvocation)
    → m.state ≡ invoking
    → m.active ≡ some a
    → m ≡ at a m.finished
is_at m a e f = ground (arith, e, f)

module _ (w : Wire) (a : ActiveInvocation) (finished : List (String × Unit {0})) where
  abbrev Stays : Outcome → Type 0
  Stays o = Ongoing (at a finished) a o.0

  becomes : (b : ActiveInvocation) → Continues a b → Ongoing (at a finished) a (at b finished)
  becomes b c = record { state = refl; finished = refl; active = (b, refl, c) }

  same : Ongoing (at a finished) a (at a finished)
  same = becomes a (Continues-self a)

  unmoved : (m : Machine) → m ≡ at a finished → Ongoing (at a finished) a m
  unmoved m e = subst (Ongoing (at a finished) a) (sym e) same

  cancel-Stays : (p : CancelParams) → Stays (request_cancel w (at a finished) p)
  unfolding request_cancel
  cancel-Stays p =
      if_split Stays (not (is_valid_cancel w p)) _ _ (λ _. same)
        (λ _.
          if_split Stays (not (a.invocation_id == p.invocation_id)) _ _ (λ _. same)
            (λ _.
              becomes (record a { cancel_requested = true })
                (record {
                  invocation = refl;
                  attempt = refl;
                  asked = λ _. refl;
                  observed = λ h. (h, omega arith);
                })))

  observe-Stays : (p : ObservationParams) → Stays (observe w (at a finished) p)
  unfolding observe observe_active
  observe-Stays p =
      if_split Stays (not (is_valid_observation w p)) _ _ (λ _. same)
        (λ _.
          if_split Stays
            (not (a.invocation_id == p.invocation_id) || not (a.attempt_id == p.attempt_id)) _ _
            (λ _. same)
            (λ _.
              if_split Stays (a.has_observation && leb p.sequence a.last_sequence) _ _ (λ _. same)
                (λ later.
                  becomes (record a { last_sequence = p.sequence; has_observation = true })
                    (record {
                      invocation = refl;
                      attempt = refl;
                      asked = λ h. h;
                      observed = λ h. (refl, ground (arith, later, h));
                    }))))

  dispatch-Stays :
      (k : Method) (s : String) → k ≢ Method.completed → Stays (dispatch w k (at a finished) s)
  unfolding dispatch accept_hello accept_prepare check_capabilities reset_session shut_down
      begin_invocation
  dispatch-Stays Method.hello s n = unmoved _ (ground arith)
  dispatch-Stays Method.prepare s n = unmoved _ (ground arith)
  dispatch-Stays Method.capabilities s n = unmoved _ (ground arith)
  dispatch-Stays Method.invoke s n = unmoved _ (ground arith)
  dispatch-Stays Method.cancel s n = elim (Option-cases (w.decode_cancel s)) [
    | inl e ↦ rw (e, dispatch) same
    | inr (p, e) ↦ rw (e, dispatch) (cancel-Stays p)
  ]
  dispatch-Stays Method.reset s n = unmoved _ (ground arith)
  dispatch-Stays Method.shutdown s n = unmoved _ (ground arith)
  dispatch-Stays Method.observation s n = elim (Option-cases (w.decode_observation s)) [
    | inl e ↦ rw (e, dispatch) same
    | inr (p, e) ↦ rw (e, dispatch) (observe-Stays p)
  ]
  dispatch-Stays Method.completed s n = absurd (n refl)
  dispatch-Stays (Method.unknown t) s n = same

  apply-Stays : (f : Message) → f.method ≢ some Method.completed → Stays (apply w (at a finished) f)
  unfolding apply apply_kind
  apply-Stays f n = elim (Result-cases (kind w f)) [
    | inl (c, h) ↦ rw (h, apply) same
    | inr (MessageKind.response, h) ↦ rw (h, apply) same
    | inr (MessageKind.request, h) ↦ rw (h, apply) named
    | inr (MessageKind.notification, h) ↦ rw (h, apply) named
  ]
    where
      named : Stays (elim f.method [
        | none ↦ (at a finished, some invalid_request)
        | some k ↦ dispatch w k (at a finished) f.params
      ])
      named = elim (Option-cases f.method) [
        | inl e ↦ rw e same
        | inr (k, e) ↦ rw e (dispatch-Stays k f.params (λ q. n (e ∙ ap some q)))
      ]

-- The frame names no completion.
abbrev pub IsOther : Message → Type 0
IsOther f = f.method ≢ some Method.completed

module _ (w : Wire) where
  pub run_at :
      (a : ActiveInvocation) (finished : List (String × Unit {0})) (fs : List Message)
      → All IsOther fs
      → Ongoing (at a finished) a (run w (at a finished) fs)
  unfolding run
  run_at a finished [] n = same w a finished
  run_at a finished (f ∷ fs) (n, rest) =
      let o = apply-Stays w a finished f n in
      let (b, e, c) = o.active in
      let m = (apply w (at a finished) f).0 in
      let next : m ≡ at b finished = is_at m b o.state e ∙ ap (at b) o.finished in
      let later = run_at b finished fs rest in
      let (d, g, h) = later.active in
      subst (λ x. Ongoing (at a finished) a (run w x fs)) (sym next)
        (record {
          state = later.state;
          finished = later.finished;
          active = (d, g, Continues-trans a b d c h);
        })
