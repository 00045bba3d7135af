-- ===== src/Driver/Session.antt =====
-- The states of a driver session (pkg/driverprotocol/state.go).
use agentapi_doctor.Common.{
  String, true, false, List, [], ◌∷◌, none, some, string_eq, nat_eq, ◌≡◌, ◌≢◌, is_some, lookup, ok,
  arith, refl, inl, inr, Option-cases, All, subst, sym, lookup-insert, lookup-insert_self,
  Result-cases,
}
use agentapi_doctor.Driver.{
  State, Method, ErrorClass, ActiveInvocation, Machine, Outcome, Wire, Message, InvokeParams,
  CompletedParams, new_machine, accept_hello, accept_prepare, check_capabilities, reset_session,
  shut_down, begin_invocation, request_cancel, observe, observe_active, complete, complete_active,
  prepared, invoking, invalid_request,
}
use agentapi_doctor.Driver.Ongoing.{IsOther, Ongoing, is_at, run_at}
use agentapi_doctor.Driver.Messages.{MessageKind, kind, dispatch, apply, apply_kind, run}

-- The lifecycle of a session.
infix 40 ◌⟶◌
pub data ◌⟶◌ : State → State → Type 0 where
  stays : {s : State} → s ⟶ s
  greets : State.new ⟶ State.hello
  prepares : State.hello ⟶ prepared
  invokes : prepared ⟶ invoking
  completes : invoking ⟶ prepared
  shuts_down : prepared ⟶ State.shutdown

ruleset edges = (stays, greets, prepares, invokes, completes, shuts_down)

-- There is an active invocation exactly in INVOKING.
abbrev pub IsActive : Machine → Type 0
IsActive m = is_some m.active ≡ (elim m.state [ invoking ↦ true | _ ↦ false ])

module _ (w : Wire) where
  -- What a frame may do: an edge of the lifecycle, and nothing at all if it is refused.
  record Fair (m : Machine) (o : Outcome) : Type 0 where
    edge : m.state ⟶ o.0.state
    active : IsActive o.0
    unchanged : o.1 ≢ none → o.0 ≡ m

  refused : (m : Machine) (c : ErrorClass) → IsActive m → Fair m (m, some c)
  refused m c a = record { edge = stays; active = a; unchanged = λ _. refl }

  dispatch-Fair : (k : Method) (m : Machine) (s : String) → IsActive m → Fair m (dispatch w k m s)
  unfolding dispatch accept_hello accept_prepare check_capabilities reset_session shut_down
      begin_invocation request_cancel observe observe_active complete complete_active
  dispatch-Fair Method.hello m s a = record {
    edge = grind (arith, edges);
    active = ground arith;
    unchanged = ground arith;
  }
  dispatch-Fair Method.prepare m s a = record {
    edge = grind (arith, edges);
    active = ground arith;
    unchanged = ground arith;
  }
  dispatch-Fair Method.capabilities m s a = record {
    edge = grind (arith, edges);
    active = ground arith;
    unchanged = ground arith;
  }
  dispatch-Fair Method.invoke m s a = record {
    edge = grind (arith, edges);
    active = ground arith;
    unchanged = ground arith;
  }
  dispatch-Fair Method.cancel m s a = record {
    edge = grind (arith, edges);
    active = ground arith;
    unchanged = ground arith;
  }
  dispatch-Fair Method.reset m s a = record {
    edge = grind (arith, edges);
    active = ground arith;
    unchanged = ground arith;
  }
  dispatch-Fair Method.shutdown m s a = record {
    edge = grind (arith, edges);
    active = ground arith;
    unchanged = ground arith;
  }
  dispatch-Fair Method.observation m s a = record {
    edge = grind (arith, edges);
    active = ground arith;
    unchanged = ground arith;
  }
  dispatch-Fair Method.completed m s a = record {
    edge = grind (arith, edges);
    active = ground arith;
    unchanged = ground arith;
  }
  dispatch-Fair (Method.unknown t) m s a = refused m invalid_request a

  apply-Fair : (m : Machine) (f : Message) → IsActive m → Fair m (apply w m f)
  unfolding apply apply_kind
  apply-Fair m f a = elim (Result-cases (kind w f)) [
    | inl (c, h) ↦ rw (h, apply) (refused m c a)
    | inr (MessageKind.response, h) ↦ rw (h, apply) (refused m invalid_request a)
    | inr (MessageKind.request, h) ↦ rw (h, apply) (by_method h)
    | inr (MessageKind.notification, h) ↦ rw (h, apply) (by_method h)
  ]
    where
      by_method :
          {k : MessageKind}
          → kind w f ≡ ok k
          → Fair m (elim f.method [
            | none ↦ (m, some invalid_request)
            | some n ↦ dispatch w n m f.params
          ])
      by_method h = elim (Option-cases f.method) [
        | inl e ↦ rw e (refused m invalid_request a)
        | inr (n, e) ↦ rw e (dispatch-Fair n m f.params a)
      ]

  run-IsActive : (m : Machine) (fs : List Message) → IsActive m → IsActive (run w m fs)
  unfolding run
  run-IsActive m [] a = a
  run-IsActive m (f ∷ fs) a = run-IsActive (apply w m f).0 fs (apply-Fair m f a).active

  -- In any session from NEW, whatever frames came before, a frame moves the machine along an edge of
  -- the lifecycle or not at all, there is an active invocation exactly in INVOKING, and a frame that
  -- is refused changes nothing.
  pub session_follows_lifecycle :
      (fs : List Message) (f : Message)
      → let m = run w new_machine fs in
        (m.state ⟶ (apply w m f).0.state)
        × IsActive m
        × ((apply w m f).1 ≢ none → (apply w m f).0 ≡ m)
  unfolding new_machine
  session_follows_lifecycle fs f =
      let a = run-IsActive new_machine fs refl in
      let fair = apply-Fair (run w new_machine fs) f a in (fair.edge, a, fair.unchanged)

  -- While an invocation is active only its completion ends it: after any frames of other methods, a
  -- cancellation too, whether they are accepted or refused, the machine is in INVOKING, the same
  -- invocation and attempt are active, a cancellation that was asked for is still asked for, its last
  -- sequence number has not gone back, and no invocation has finished.
  pub only_completion_ends :
      (m : Machine) (a : ActiveInvocation) (fs : List Message)
      → m.state ≡ invoking
      → m.active ≡ some a
      → All IsOther fs
      → Ongoing m a (run w m fs)
  only_completion_ends m a fs i active others =
      subst (λ x. Ongoing x a (run w x fs)) (sym (is_at m a i active))
        (run_at w a m.finished fs others)

  -- An id that has finished stays finished.
  dispatch_finished :
      (id : String) (k : Method) (m : Machine) (s : String)
      → is_some (lookup id m.finished) ≡ true
      → is_some (lookup id (dispatch w k m s).0.finished) ≡ true
  unfolding dispatch accept_hello accept_prepare check_capabilities reset_session shut_down
      begin_invocation request_cancel observe observe_active complete complete_active
  dispatch_finished id Method.hello m s h = ground arith
  dispatch_finished id Method.prepare m s h = ground arith
  dispatch_finished id Method.capabilities m s h = ground arith
  dispatch_finished id Method.invoke m s h = ground arith
  dispatch_finished id Method.cancel m s h = ground arith
  dispatch_finished id Method.reset m s h = ground arith
  dispatch_finished id Method.shutdown m s h = ground arith
  dispatch_finished id Method.observation m s h = ground arith
  dispatch_finished id Method.completed m s h = elim (Option-cases (w.decode_completed s)) [
    | inl e ↦ ground arith
    | inr (p, e) ↦ ground (arith, lookup-insert p.invocation_id id tt m.finished)
  ]
  dispatch_finished id (Method.unknown t) m s h = ground arith

  apply_finished :
      (id : String) (m : Machine) (f : Message)
      → is_some (lookup id m.finished) ≡ true
      → is_some (lookup id (apply w m f).0.finished) ≡ true
  unfolding apply apply_kind
  apply_finished id m f h = elim (Option-cases f.method) [
    | inl e ↦ ground arith
    | inr (n, e) ↦ ground (arith, dispatch_finished id n m f.params h)
  ]

  run_finished :
      (id : String) (m : Machine) (fs : List Message)
      → is_some (lookup id m.finished) ≡ true
      → is_some (lookup id (run w m fs).finished) ≡ true
  unfolding run
  run_finished id m [] h = h
  run_finished id m (f ∷ fs) h = run_finished id (apply w m f).0 fs (apply_finished id m f h)

  begin_finished :
      (m : Machine) (p : InvokeParams)
      → is_some (lookup p.invocation_id m.finished) ≡ true
      → (begin_invocation w m p).1 ≢ none
  unfolding begin_invocation
  begin_finished m p h = ground arith

  complete_finished :
      (m : Machine) (p : CompletedParams)
      → (complete w m p).1 ≡ none
      → is_some (lookup p.invocation_id (complete w m p).0.finished) ≡ true
  unfolding complete complete_active
  complete_finished m p h = ground (arith, lookup-insert_self p.invocation_id tt m.finished)

  -- After an accepted completion, and any further frames, no invocation may begin under the same id.
  pub completed_id_never_reused :
      (m : Machine) (p : CompletedParams) (fs : List Message) (q : InvokeParams)
      → (complete w m p).1 ≡ none
      → q.invocation_id ≡ p.invocation_id
      → (begin_invocation w (run w (complete w m p).0 fs) q).1 ≢ none
  completed_id_never_reused m p fs q h same =
      begin_finished (run w (complete w m p).0 fs) q
        (rw same (run_finished p.invocation_id (complete w m p).0 fs (complete_finished m p h)))
