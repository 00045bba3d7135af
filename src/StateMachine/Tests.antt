-- ===== src/StateMachine/Tests.antt =====
-- Runs of the machine of internal/statemachine/response.go, and its theorems at concrete streams.
use agentapi_doctor.Common.{
  ℕ, String, true, List, [], ◌∷◌, none, some, ◌≡◌, refl, lookup, ◌↔◌, is_some, insert,
}
use agentapi_doctor.StateMachine.{
  Event, EventType, ItemState, function_call, new, apply, apply_all, response_created,
  output_item_added, arguments_delta, arguments_done, output_item_done, tool_result,
  response_completed, finish, reconstructed_arguments, completed_with_open_item, dispatch, create,
  add_item, add_arguments, finish_arguments, open_function_call, finish_item, accept_tool_result,
  finish_response, all_done,
}
use agentapi_doctor.StateMachine.Invariant.{Inv}
use agentapi_doctor.StateMachine.Lifecycle.{apply_all-new-Inv, completed_items_done}
use agentapi_doctor.StateMachine.Order.{EndsWith, apply_all-EndsWith}
use agentapi_doctor.StateMachine.Arguments.{deltas_for, reconstructed_arguments-deltas_for}

abbrev event : ℕ → EventType → Event
event n k = record {
  sequence = n;
  kind = k;
  item_id = "";
  item_kind = "";
  output_index = 0;
  call_id = "";
  delta = "";
  arguments = "";
}

abbrev on_call : Event → Event
on_call e = record e { item_id = "item"; call_id = "call"; item_kind = function_call }

abbrev opening : List Event
opening =
    event 1 response_created
    ∷ on_call (event 2 output_item_added)
    ∷ record (on_call (event 3 arguments_delta)) { delta = "{\"a\":" }
    ∷ record (on_call (event 4 arguments_delta)) { delta = "1}" }
    ∷ []

abbrev arguments_event : Event
arguments_event = record (on_call (event 5 arguments_done)) { arguments = "{\"a\":1}" }

abbrev tool_call : List Event
tool_call =
    event 1 response_created
    ∷ on_call (event 2 output_item_added)
    ∷ record (on_call (event 3 arguments_delta)) { delta = "1" }
    ∷ record (on_call (event 4 arguments_done)) { arguments = "1" }
    ∷ on_call (event 5 output_item_done)
    ∷ on_call (event 6 tool_result)
    ∷ event 7 response_completed
    ∷ []

abbrev left_open : List Event
left_open =
    event 1 response_created ∷ on_call (event 2 output_item_added) ∷ event 3 response_completed ∷ []

abbrev finished_item : ItemState
finished_item = record {
  kind = function_call;
  call_id = "call";
  arguments = "1";
  is_arguments_done = true;
  is_done = true;
}

left_open_refused : (apply_all new left_open).1 ≡ some completed_with_open_item
unfolding apply_all apply dispatch create add_item finish_response new lookup insert all_done
left_open_refused = refl

apply_all-new-Inv_example : Inv (apply_all new tool_call).0
apply_all-new-Inv_example = apply_all-new-Inv tool_call

completed_items_done_example : finished_item.is_done ≡ true
unfolding apply_all apply dispatch create add_item add_arguments finish_arguments open_function_call
    finish_item accept_tool_result finish_response new lookup insert all_done
completed_items_done_example = completed_items_done tool_call "item" finished_item refl refl

apply_all-EndsWith_example :
    EndsWith tool_call (apply_all new tool_call).0.terminal
    × ((finish (apply_all new tool_call).0 ≡ none)
        ↔ (is_some (apply_all new tool_call).0.terminal ≡ true))
unfolding apply_all apply dispatch create add_item add_arguments finish_arguments open_function_call
    finish_item accept_tool_result finish_response new lookup insert all_done
apply_all-EndsWith_example = apply_all-EndsWith tool_call refl

reconstructed_arguments-deltas_for_example :
    ◌≡◌ {A = String} "{\"a\":1}" (deltas_for "item" opening)
unfolding apply_all apply dispatch create add_item add_arguments open_function_call new lookup
    insert reconstructed_arguments
reconstructed_arguments-deltas_for_example =
    reconstructed_arguments-deltas_for opening "item" "{\"a\":1}" refl refl
