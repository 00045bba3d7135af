-- ===== src/StateMachine/Lifecycle.antt =====
-- The order of events that the machine of internal/statemachine/response.go lets through.
use agentapi_doctor.Common.{
  String, true, List, [], ◌∷◌, none, some, lookup, string_eq, err, ◌≡◌, arith, refl, ◌≢◌, ◌⊎◌, inl,
  inr, Option-cases, ◌∙◌, nat_eq,
}
use agentapi_doctor.StateMachine.{
  Event, EventType, Machine, ItemState, Outcome, new, create, mark_in_progress, add_item,
  add_arguments, finish_arguments, open_function_call, finish_item, accept_tool_result,
  finish_response, dispatch, apply, apply_all, all_done, nil_dereference, response_created,
  response_in_progress, output_item_added, arguments_delta, arguments_done, output_item_done,
  tool_result, response_completed, response_failed, response_incomplete, unknown,
}
use agentapi_doctor.StateMachine.Invariant.{Inv}
use agentapi_doctor.StateMachine.Preservation.{apply-Inv, new-Inv, apply_all-Inv}

-- Whatever events a new machine is fed, every index and every call belongs to an item, every function
-- call that is done has its arguments, every result belongs to a finished call, and a completed
-- response has no open item.
pub apply_all-new-Inv : (es : List Event) → Inv (apply_all new es).0
apply_all-new-Inv es = apply_all-Inv new es new-Inv

-- What a refused event does to the machine: nothing.
abbrev Unchanged : Machine → Outcome → Type 0
Unchanged m o = (o.1 ≡ none) ⊎ (o.0 ≡ m)

dispatch-Unchanged : (k : EventType) (m : Machine) (e : Event) → Unchanged m (dispatch k m e)
unfolding dispatch create mark_in_progress add_item add_arguments finish_arguments finish_item
    accept_tool_result finish_response
dispatch-Unchanged response_created m e = ground arith
dispatch-Unchanged response_in_progress m e = ground arith
dispatch-Unchanged output_item_added m e = ground arith
dispatch-Unchanged arguments_delta m e = ground arith
dispatch-Unchanged arguments_done m e = ground arith
dispatch-Unchanged output_item_done m e = ground arith
dispatch-Unchanged tool_result m e = ground arith
dispatch-Unchanged response_completed m e = ground arith
dispatch-Unchanged response_failed m e = ground arith
dispatch-Unchanged response_incomplete m e = ground arith
dispatch-Unchanged (unknown s) m e = inr refl

-- An event that is refused, for any reason, leaves the machine as it was.
pub apply_refused_unchanged : (m : Machine) (e : Event) → (apply m e).1 ≢ none → (apply m e).0 ≡ m
unfolding apply
apply_refused_unchanged m e h = ground (arith, dispatch-Unchanged e.kind m e)

-- After a terminal event every event is refused and nothing changes.
pub apply_after_terminal :
    (m : Machine) (e : Event) → m.terminal ≢ none → ((apply m e).0 ≡ m) × ((apply m e).1 ≢ none)
unfolding apply
apply_after_terminal m e h = ground arith

lookup-all_done :
    (items : List (String × ItemState)) (i : String) (x : ItemState)
    → all_done items ≡ true
    → lookup i items ≡ some x
    → x.is_done ≡ true
unfolding all_done lookup
lookup-all_done [] i x d h = cc
lookup-all_done ((j, y) ∷ items) i x d h = ground (arith, lookup-all_done items i x)

-- When a stream has ended in `response.completed`, every item of it is done.
pub completed_items_done :
    (es : List Event) (i : String) (x : ItemState)
    → (apply_all new es).0.terminal ≡ some response_completed
    → lookup i (apply_all new es).0.items ≡ some x
    → x.is_done ≡ true
completed_items_done es i x h =
    lookup-all_done (apply_all new es).0.items i x ((apply_all-new-Inv es).completed_done h)

abbrev Fine : Outcome → Type 0
Fine o = o.1 ≢ some nil_dereference

open_function_call_fine : (m : Machine) (e : Event) → open_function_call m e ≢ err nil_dereference
unfolding open_function_call
open_function_call_fine m e = ground arith

accept_tool_result-Fine : (m : Machine) (e : Event) → Inv m → Fine (accept_tool_result m e)
unfolding accept_tool_result
accept_tool_result-Fine m e v = elim (Option-cases (lookup e.call_id m.calls)) [
  | inl h ↦ ground arith
  | inr (i, h) ↦ let (x, owned) = v.calls_owned e.call_id i h in found i x h owned.0
]
  where
    found :
        (i : String) (x : ItemState)
        → lookup e.call_id m.calls ≡ some i
        → lookup i m.items ≡ some x
        → Fine (accept_tool_result m e)
    found i x h k = ground arith

dispatch-Fine : (k : EventType) (m : Machine) (e : Event) → Inv m → Fine (dispatch k m e)
unfolding dispatch create mark_in_progress add_item add_arguments finish_arguments finish_item
    finish_response
dispatch-Fine response_created m e v = ground arith
dispatch-Fine response_in_progress m e v = ground arith
dispatch-Fine output_item_added m e v = ground arith
dispatch-Fine arguments_delta m e v = ground (arith, open_function_call_fine m e)
dispatch-Fine arguments_done m e v = ground (arith, open_function_call_fine m e)
dispatch-Fine output_item_done m e v = ground arith
dispatch-Fine tool_result m e v = accept_tool_result-Fine m e v
dispatch-Fine response_completed m e v = ground arith
dispatch-Fine response_failed m e v = ground arith
dispatch-Fine response_incomplete m e v = ground arith
dispatch-Fine (unknown s) m e v = ground arith

apply-Fine : (m : Machine) (e : Event) → Inv m → Fine (apply m e)
unfolding apply
apply-Fine m e v = ground (arith, dispatch-Fine e.kind m e v)

apply_all-Fine : (m : Machine) (es : List Event) → Inv m → Fine (apply_all m es)
unfolding apply_all
apply_all-Fine m [] v = ground arith
apply_all-Fine m (e ∷ es) v = elim (Option-cases (apply m e).1) [
  | inl h ↦ rw (h, apply_all) (apply_all-Fine (apply m e).0 es (apply-Inv m e v))
  | inr (f, h) ↦ rw (h, apply_all) (λ k. apply-Fine m e v (h ∙ k))
]

-- No stream makes the machine read through a missing item: the call that a result names has its item.
pub apply_all_never_panics : (es : List Event) → (apply_all new es).1 ≢ some nil_dereference
apply_all_never_panics es = apply_all-Fine new es new-Inv
