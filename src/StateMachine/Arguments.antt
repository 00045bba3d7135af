-- ===== src/StateMachine/Arguments.antt =====
-- The arguments of a function call and its deltas (internal/statemachine/response.go).
use agentapi_doctor.Common.{
  String, Bool, true, false, ◌&&◌, List, [], ◌∷◌, none, some, ◌==◌, if◌then◌else◌, lookup, insert,
  string_eq, ◌≡◌, arith, refl, inl, inr, Bool-cases, Option-cases, ◌∙◌, Result-cases, nat_eq, sym,
  ap, lookup-insert,
}
use agentapi_doctor.StateMachine.{
  Event, EventType, Machine, ItemState, Outcome, new, create, mark_in_progress, put_item, add_item,
  add_arguments, finish_arguments, open_function_call, finish_item, accept_tool_result,
  finish_response, dispatch, apply, apply_all, response_created, response_in_progress,
  output_item_added, arguments_delta, arguments_done, output_item_done, tool_result,
  response_completed, response_failed, response_incomplete, unknown, reconstructed_arguments,
  write_item, fresh_item,
}
use Prim.Native.String.{◌++◌ as ◌+++◌}
use text.Mathlib.TextLemmas.{append_assoc, append-nil, nil-append}
use agentapi_doctor.StateMachine.Preservation.{open_function_call_ok}

-- The accumulated arguments of an item, the empty text if there is no such item.
abbrev pub arguments_of : Machine → String → String
arguments_of m id = elim (lookup id m.items) [ none ↦ "" | some x ↦ x.arguments ]

abbrev is_delta : EventType → Bool
is_delta arguments_delta = true
is_delta _ = false

-- What an event adds to the arguments of the item `id`.
abbrev pub delta_for : String → Event → String
delta_for id e = if is_delta e.kind && e.item_id == id then e.delta else ""

-- The deltas of the item `id` in a stream, joined.
abbrev pub deltas_for : String → List Event → String
deltas_for id [] = ""
deltas_for id (e ∷ es) = delta_for id e +++ deltas_for id es

arguments_of-write :
    (m : Machine) (j id : String) (y : ItemState)
    → arguments_of (write_item m j y) id ≡ (if j == id then y.arguments else arguments_of m id)
arguments_of-write m j id y = ground (arith, lookup-insert j id y m.items)

-- An item is written over by one with the same arguments.
write_same :
    (m : Machine) (j id : String) (x y : ItemState)
    → lookup j m.items ≡ some x
    → y.arguments ≡ x.arguments
    → arguments_of (write_item m j y) id ≡ arguments_of m id
write_same m j id x y h e = ground (arith, lookup-insert j id y m.items, string_eq.test_iff j id)

put_item_same :
    (m : Machine) (e : Event) (cs : List (String × String)) (id : String)
    → lookup e.item_id m.items ≡ none
    → arguments_of (put_item m e cs).0 id ≡ arguments_of m id
unfolding put_item
put_item_same m e cs id h =
    ground
      (arith, lookup-insert e.item_id id (fresh_item e) m.items, string_eq.test_iff e.item_id id)

abbrev Same : Machine → String → Outcome → Type 0
Same m id o = arguments_of o.0 id ≡ arguments_of m id

add_item-Same : (m : Machine) (e : Event) (id : String) → Same m id (add_item m e)
unfolding add_item
add_item-Same m e id = elim (Option-cases (lookup e.item_id m.items)) [
  | inr (x, h) ↦ ground arith
  | inl h ↦ ground (
    arith,
    put_item_same m e m.calls id h,
    put_item_same m e (insert e.call_id e.item_id m.calls) id h,
  )
]

finish_arguments-Same : (m : Machine) (e : Event) (id : String) → Same m id (finish_arguments m e)
unfolding finish_arguments
finish_arguments-Same m e id = elim (Result-cases (open_function_call m e)) [
  | inl (f, h) ↦ rw (h, finish_arguments) refl
  | inr (x, h) ↦
      let found = (open_function_call_ok m e x h).0 in
      rw (h, finish_arguments)
        (ground (arith, write_same m e.item_id id x (record x { is_arguments_done = true }) found))
]

finish_item-Same : (m : Machine) (e : Event) (id : String) → Same m id (finish_item m e)
unfolding finish_item
finish_item-Same m e id = elim (Option-cases (lookup e.item_id m.items)) [
  | inl h ↦ ground arith
  | inr (x, h) ↦
      rw (h, finish_item)
        (ground (arith, write_same m e.item_id id x (record x { is_done = true }) h))
]

add_arguments_joins :
    (m : Machine) (e : Event) (id : String)
    → (add_arguments m e).1 ≡ none
    → arguments_of (add_arguments m e).0 id
      ≡ arguments_of m id +++ (if e.item_id == id then e.delta else "")
unfolding add_arguments
add_arguments_joins m e id done = elim (Result-cases (open_function_call m e)) [
  | inl (f, h) ↦ ground arith
  | inr (x, h) ↦
      let found = (open_function_call_ok m e x h).0 in
      let y : ItemState = record x { arguments = x.arguments +++ e.delta } in
      elim (Bool-cases (e.item_id == id)) [
        | inl here ↦
            ground (arith, string_eq.test_iff e.item_id id, arguments_of-write m e.item_id id y)
        | inr there ↦
            ground (arith, append-nil (arguments_of m id), arguments_of-write m e.item_id id y)
      ]
]

-- What one event of the kind `k` does to the arguments of the item `id`.
abbrev Joins : EventType → Machine → Event → String → Outcome → Type 0
Joins k m e id o =
    o.1 ≡ none
    → arguments_of o.0 id
      ≡ arguments_of m id +++ (if is_delta k && e.item_id == id then e.delta else "")

Same-Joins :
    (k : EventType) (m : Machine) (e : Event) (id : String) (o : Outcome)
    → is_delta k ≡ false
    → Same m id o
    → Joins k m e id o
Same-Joins k m e id o other same done = ground (arith, append-nil (arguments_of m id))

dispatch-Joins :
    (k : EventType) (m : Machine) (e : Event) (id : String) → Joins k m e id (dispatch k m e)
unfolding dispatch
dispatch-Joins response_created m e id =
    Same-Joins response_created m e id (create m) refl (unfold create in ground arith)
dispatch-Joins response_in_progress m e id =
    Same-Joins response_in_progress m e id (mark_in_progress m) refl
      (unfold mark_in_progress in ground arith)
dispatch-Joins output_item_added m e id =
    Same-Joins output_item_added m e id (add_item m e) refl (add_item-Same m e id)
dispatch-Joins arguments_delta m e id = add_arguments_joins m e id
dispatch-Joins arguments_done m e id =
    Same-Joins arguments_done m e id (finish_arguments m e) refl (finish_arguments-Same m e id)
dispatch-Joins output_item_done m e id =
    Same-Joins output_item_done m e id (finish_item m e) refl (finish_item-Same m e id)
dispatch-Joins tool_result m e id =
    Same-Joins tool_result m e id (accept_tool_result m e) refl
      (unfold accept_tool_result in ground arith)
dispatch-Joins response_completed m e id =
    Same-Joins response_completed m e id (finish_response m response_completed) refl
      (unfold finish_response in ground arith)
dispatch-Joins response_failed m e id =
    Same-Joins response_failed m e id (finish_response m response_failed) refl
      (unfold finish_response in ground arith)
dispatch-Joins response_incomplete m e id =
    Same-Joins response_incomplete m e id (finish_response m response_incomplete) refl
      (unfold finish_response in ground arith)
dispatch-Joins (unknown s) m e id = λ done. ground arith

apply_joins :
    (m : Machine) (e : Event) (id : String)
    → (apply m e).1 ≡ none
    → arguments_of (apply m e).0 id ≡ arguments_of m id +++ delta_for id e
unfolding apply
apply_joins m e id h = ground (arith, dispatch-Joins e.kind m e id)

apply_all_joins :
    (m : Machine) (es : List Event) (id : String)
    → (apply_all m es).1 ≡ none
    → arguments_of (apply_all m es).0 id ≡ arguments_of m id +++ deltas_for id es
unfolding apply_all
apply_all_joins m [] id h = sym (append-nil (arguments_of m id))
apply_all_joins m (e ∷ es) id h = elim (Option-cases (apply m e).1) [
  | inl a ↦
      let rest : (apply_all (apply m e).0 es).1 ≡ none = ground arith in
      rw (a, apply_all)
        (apply_all_joins (apply m e).0 es id rest
          ∙ ap (λ s. s +++ deltas_for id es) (apply_joins m e id a)
          ∙ append_assoc (arguments_of m id) (delta_for id e) (deltas_for id es))
  | inr (f, a) ↦ ground arith
]

apply_done_states :
    (m : Machine) (e : Event)
    → e.kind ≡ arguments_done
    → (apply m e).1 ≡ none
    → e.arguments ≡ arguments_of m e.item_id
unfolding apply dispatch finish_arguments
apply_done_states m e k a = elim (Result-cases (open_function_call m e)) [
  | inl (f, h) ↦ ground arith
  | inr (x, h) ↦
      ground (arith, open_function_call_ok m e x h, string_eq.test_iff e.arguments x.arguments)
]

-- The arguments that a machine reports for an item, after a stream that it accepted, are the deltas
-- that the stream has for that item, joined in order.
pub reconstructed_arguments-deltas_for :
    (es : List Event) (id s : String)
    → (apply_all new es).1 ≡ none
    → reconstructed_arguments (apply_all new es).0 id ≡ some s
    → s ≡ deltas_for id es
unfolding reconstructed_arguments
reconstructed_arguments-deltas_for es id s h r = ground (arith, reported, fresh)
  where
    reported : arguments_of (apply_all new es).0 id ≡ arguments_of new id +++ deltas_for id es
    reported = apply_all_joins new es id h

    fresh : arguments_of new id +++ deltas_for id es ≡ deltas_for id es
    fresh = unfold new lookup in nil-append (deltas_for id es)

-- If a machine that accepted a stream then accepts `arguments.done`, the arguments which that event
-- states are the deltas of its item, joined in order.
pub arguments_done-deltas_for :
    (es : List Event) (e : Event)
    → (apply_all new es).1 ≡ none
    → e.kind ≡ arguments_done
    → (apply (apply_all new es).0 e).1 ≡ none
    → e.arguments ≡ deltas_for e.item_id es
unfolding apply
arguments_done-deltas_for es e h k a = stated (apply_all new es).0 a ∙ reported ∙ fresh
  where
    reported :
        arguments_of (apply_all new es).0 e.item_id
        ≡ arguments_of new e.item_id +++ deltas_for e.item_id es
    reported = apply_all_joins new es e.item_id h

    fresh : arguments_of new e.item_id +++ deltas_for e.item_id es ≡ deltas_for e.item_id es
    fresh = unfold new lookup in nil-append (deltas_for e.item_id es)

    stated : (m : Machine) → (apply m e).1 ≡ none → e.arguments ≡ arguments_of m e.item_id
    stated m b = apply_done_states m e k b
