-- ===== src/StateMachine/Order.antt =====
-- Sequence numbers and the terminal event of an accepted stream (internal/statemachine/response.go).
use agentapi_doctor.Common.{
  ℕ, true, List, [], ◌∷◌, Option, none, some, is_some, add64, string_eq, ◌≡◌, arith, refl, inl, inr,
  Option-cases, nat_eq, ◌↔◌, subst,
}
use agentapi_doctor.StateMachine.{
  Event, EventType, Machine, Outcome, new, create, mark_in_progress, add_item, add_arguments,
  finish_arguments, finish_item, accept_tool_result, finish_response, dispatch, apply, apply_all,
  finish, response_created, response_in_progress, output_item_added, arguments_delta,
  arguments_done, output_item_done, tool_result, response_completed, response_failed,
  response_incomplete, unknown,
}

-- The terminal event types.
abbrev pub terminal_of : EventType → Option EventType
terminal_of response_completed = some response_completed
terminal_of response_failed = some response_failed
terminal_of response_incomplete = some response_incomplete
terminal_of _ = none

-- The events carry the sequence numbers from `n` on.
abbrev pub Numbered : ℕ → List Event → Type 0
Numbered n [] = Unit
Numbered n (e ∷ es) = (e.sequence ≡ n) × Numbered (add64 n 1) es

-- The terminal event is the last one, or there is none.
abbrev pub EndsWith : List Event → Option EventType → Type 0
EndsWith [] t = t ≡ none
EndsWith (e ∷ []) t = t ≡ terminal_of e.kind
EndsWith (e ∷ f ∷ es) t = (terminal_of e.kind ≡ none) × EndsWith (f ∷ es) t

-- An accepted event sets the terminal of its own type, from none.
abbrev SetsTerminal : EventType → Machine → Outcome → Type 0
SetsTerminal k m o =
    o.1 ≡ none
    → m.terminal ≡ none
    → (o.0.terminal ≡ terminal_of k) × (o.0.next_sequence ≡ m.next_sequence)

dispatch_terminal : (k : EventType) (m : Machine) (e : Event) → SetsTerminal k m (dispatch k m e)
unfolding dispatch create mark_in_progress add_item add_arguments finish_arguments finish_item
    accept_tool_result finish_response
dispatch_terminal response_created m e = ground arith
dispatch_terminal response_in_progress m e = ground arith
dispatch_terminal output_item_added m e = ground arith
dispatch_terminal arguments_delta m e = ground arith
dispatch_terminal arguments_done m e = ground arith
dispatch_terminal output_item_done m e = ground arith
dispatch_terminal tool_result m e = ground arith
dispatch_terminal response_completed m e = ground arith
dispatch_terminal response_failed m e = ground arith
dispatch_terminal response_incomplete m e = ground arith
dispatch_terminal (unknown s) m e = ground arith

-- What `Apply` guarantees of an event that it accepts.
apply_accepted :
    (m : Machine) (e : Event)
    → (apply m e).1 ≡ none
    → (e.sequence ≡ m.next_sequence)
      × (m.terminal ≡ none)
      × ((apply m e).0.terminal ≡ terminal_of e.kind)
      × ((apply m e).0.next_sequence ≡ add64 m.next_sequence 1)
unfolding apply
apply_accepted m e h = ground (arith, dispatch_terminal e.kind m e)

accepted-Numbered :
    (m : Machine) (es : List Event) → (apply_all m es).1 ≡ none → Numbered m.next_sequence es
unfolding apply_all
accepted-Numbered m [] h = tt
accepted-Numbered m (e ∷ es) h = elim (Option-cases (apply m e).1) [
  | inl a ↦
      let (numbered, _, _, next) = apply_accepted m e a in
      let rest : (apply_all (apply m e).0 es).1 ≡ none = ground arith in
      (numbered, subst (λ n. Numbered n es) next (accepted-Numbered (apply m e).0 es rest))
  | inr (f, a) ↦ ground arith
]

accepted_ends :
    (m : Machine) (es : List Event)
    → m.terminal ≡ none
    → (apply_all m es).1 ≡ none
    → EndsWith es (apply_all m es).0.terminal
unfolding apply_all
accepted_ends m [] going h = going
accepted_ends m (e ∷ []) going h = ground (arith, apply_accepted m e)
accepted_ends m (e ∷ f ∷ es) going h = elim (Option-cases (apply m e).1) [
  | inl a ↦
      let rest : (apply_all (apply m e).0 (f ∷ es)).1 ≡ none = ground arith in
      let still : (apply m e).0.terminal ≡ none = next_accepted (apply m e).0 rest in
      (
        ground (arith, apply_accepted m e),
        rw (a, apply_all) (accepted_ends (apply m e).0 (f ∷ es) still rest),
      )
  | inr (v, a) ↦ ground arith
]
  where
    next_accepted : (n : Machine) → (apply_all n (f ∷ es)).1 ≡ none → n.terminal ≡ none
    next_accepted n k = ground (arith, apply_accepted n f)

-- A stream that a new machine accepts is numbered 1, 2, 3 and so on (as uint64), with no gap and no repetition.
pub apply_all-Numbered : (es : List Event) → (apply_all new es).1 ≡ none → Numbered 1 es
unfolding new
apply_all-Numbered es h = accepted-Numbered new es h

-- A stream that a new machine accepts has at most one terminal event, as its last event, and `Finish`
-- succeeds exactly when that event is there.
pub apply_all-EndsWith :
    (es : List Event)
    → (apply_all new es).1 ≡ none
    → EndsWith es (apply_all new es).0.terminal
      × ((finish (apply_all new es).0 ≡ none) ↔ (is_some (apply_all new es).0.terminal ≡ true))
unfolding new finish
apply_all-EndsWith es h = (accepted_ends new es refl h, ground arith)
