-- ===== src/StateMachine.antt =====
-- internal/statemachine/response.go: the lifecycle of one streamed response, as strict typed events.
-- A method that changes the machine returns the new machine and its error. The texts of an error
-- are left out, its code is kept; `nil_dereference` is the panic of a read through a missing item.
pub mod Invariant
pub mod Preservation
pub mod Lifecycle
pub mod Order
pub mod Arguments
pub mod Tests
use agentapi_doctor.Common.{
  ℕ, String, Bool, true, false, not, ◌&&◌, ◌||◌, List, [], ◌∷◌, Option, none, some, ◌==◌, Eq,
  if◌then◌else◌, is_some, is_negative, add64, lookup, insert, string_eq, nat_eq, Result, ok, err,
  length, ◌≡◌,
}
use Prim.Native.String.{◌++◌}

pub data EventType : Type 0 where
  response_created response_in_progress output_item_added arguments_delta arguments_done
        output_item_done tool_result response_completed response_failed response_incomplete :
      EventType
  unknown : String → EventType

pub record Event : Type 0 where
  pub sequence : ℕ
  pub kind : EventType
  pub item_id : String
  pub item_kind : String
  pub output_index : ℕ
  pub call_id : String
  pub delta : String
  pub arguments : String

pub data Violation : Type 0 where
  non_monotonic_sequence event_after_terminal unknown_semantic_event missing_terminal_event
        duplicate_response_created event_before_response_created duplicate_in_progress
        in_progress_after_output invalid_output_item duplicate_item_id duplicate_output_index
        missing_call_id duplicate_call_id call_id_for_non_function_item arguments_delta_after_done
        duplicate_arguments_done arguments_reconstruction_mismatch unknown_item_reference
        event_for_closed_item arguments_for_non_function_item call_id_changed
        duplicate_output_item_done function_item_done_before_arguments tool_result_unknown_call
        tool_result_before_call_done duplicate_tool_result completed_with_open_item :
      Violation
  nil_dereference : Violation

pub record ItemState : Type 0 where
  pub kind : String
  pub call_id : String
  pub arguments : String
  pub is_arguments_done : Bool
  pub is_done : Bool

pub record Machine : Type 0 where
  pub next_sequence : ℕ
  pub created : Bool
  pub in_progress : Bool
  pub terminal : Option EventType
  pub items : List (String × ItemState)
  pub indexes : List (ℕ × String)
  pub calls : List (String × String)
  pub tool_results : List (String × Unit {0})

-- The machine that a method leaves, and the error that it returns.
abbrev pub Outcome : Type 0
Outcome = Machine × Option Violation

unfoldable pub new : Machine
new = record {
  next_sequence = 1;
  created = false;
  in_progress = false;
  terminal = none;
  items = [];
  indexes = [];
  calls = [];
  tool_results = [];
}

abbrev pub function_call : String
function_call = "function_call"

unfoldable pub create : Machine → Outcome
create m =
    if m.created then (m, some duplicate_response_created) else (record m { created = true }, none)

-- `requireActive`, followed by the rest of the method.
abbrev pub require_active : Machine → Outcome → Outcome
require_active m rest = if m.created then rest else (m, some event_before_response_created)

abbrev pub is_empty {ℓ} : {A : Type ℓ} → List A → Bool
is_empty [] = true
is_empty (x ∷ xs) = false

unfoldable pub mark_in_progress : Machine → Outcome
mark_in_progress m = require_active m (
    if m.in_progress
    then (m, some duplicate_in_progress)
    else if not (is_empty m.items)
    then (m, some in_progress_after_output)
    else (record m { in_progress = true }, none))

-- The item that `addItem` makes of an event.
abbrev pub fresh_item : Event → ItemState
fresh_item e = record {
  kind = e.item_kind;
  call_id = e.call_id;
  arguments = "";
  is_arguments_done = false;
  is_done = false;
}

-- The end of `addItem`, with the calls as they are by then.
unfoldable pub put_item : Machine → Event → List (String × String) → Outcome
put_item m e calls = (
  record m {
    calls = calls;
    items = insert e.item_id (fresh_item e) m.items;
    indexes = insert e.output_index e.item_id m.indexes;
  },
  none,
)

unfoldable pub add_item : Machine → Event → Outcome
unfolding put_item
add_item m e = require_active m (
    if e.item_id == "" || e.item_kind == "" || is_negative e.output_index
    then (m, some invalid_output_item)
    else if is_some (lookup e.item_id m.items)
    then (m, some duplicate_item_id)
    else if is_some (lookup e.output_index m.indexes)
    then (m, some duplicate_output_index)
    else if e.item_kind == function_call
    then (if e.call_id == ""
        then (m, some missing_call_id)
        else if is_some (lookup e.call_id m.calls)
        then (m, some duplicate_call_id)
        else put_item m e (insert e.call_id e.item_id m.calls))
    else if not (e.call_id == "")
    then (m, some call_id_for_non_function_item)
    else put_item m e m.calls)

-- The checks of `openFunctionCall` on the item that it has found.
unfoldable pub check_open_call : Event → ItemState → Result Violation ItemState
check_open_call e item =
    if item.is_done
    then err event_for_closed_item
    else if not (item.kind == function_call)
    then err arguments_for_non_function_item
    else if not (e.call_id == "") && not (e.call_id == item.call_id)
    then err call_id_changed
    else ok item

unfoldable pub open_function_call : Machine → Event → Result Violation ItemState
unfolding check_open_call
open_function_call m e =
    if not m.created then err event_before_response_created else elim (lookup e.item_id m.items) [
      | none ↦ err unknown_item_reference
      | some item ↦ check_open_call e item
    ]

-- A write through the pointer that `machine.items` holds.
abbrev pub write_item : Machine → String → ItemState → Machine
write_item m id item = record m { items = insert id item m.items }

unfoldable pub add_arguments : Machine → Event → Outcome
add_arguments m e = elim (open_function_call m e) [
  | err v ↦ (m, some v)
  | ok item ↦
      if item.is_arguments_done
      then (m, some arguments_delta_after_done)
      else (write_item m e.item_id (record item { arguments = item.arguments ++ e.delta }), none)
]

unfoldable pub finish_arguments : Machine → Event → Outcome
finish_arguments m e = elim (open_function_call m e) [
  | err v ↦ (m, some v)
  | ok item ↦
      if item.is_arguments_done
      then (m, some duplicate_arguments_done)
      else if not (e.arguments == item.arguments)
      then (m, some arguments_reconstruction_mismatch)
      else (write_item m e.item_id (record item { is_arguments_done = true }), none)
]

unfoldable pub finish_item : Machine → Event → Outcome
finish_item m e = require_active m (elim (lookup e.item_id m.items) [
  | none ↦ (m, some unknown_item_reference)
  | some item ↦
      if item.is_done
      then (m, some duplicate_output_item_done)
      else if item.kind == function_call && not item.is_arguments_done
      then (m, some function_item_done_before_arguments)
      else if not (e.call_id == "") && not (e.call_id == item.call_id)
      then (m, some call_id_changed)
      else (write_item m e.item_id (record item { is_done = true }), none)
])

-- The part of `acceptToolResult` behind the lookup of the item.
unfoldable pub accept_result_for : Machine → Event → ItemState → Outcome
accept_result_for m e item =
    if not item.is_done
    then (m, some tool_result_before_call_done)
    else if is_some (lookup e.call_id m.tool_results)
    then (m, some duplicate_tool_result)
    else (record m { tool_results = insert e.call_id tt m.tool_results }, none)

unfoldable pub accept_tool_result : Machine → Event → Outcome
unfolding accept_result_for
accept_tool_result m e = require_active m (elim (lookup e.call_id m.calls) [
  | none ↦ (m, some tool_result_unknown_call)
  | some item_id ↦ elim (lookup item_id m.items) [
    | none ↦ (m, some nil_dereference)
    | some item ↦ accept_result_for m e item
  ]
])

-- The loop of `finishResponse` over the items.
unfoldable pub all_done : List (String × ItemState) → Bool
all_done [] = true
all_done ((id, item) ∷ items) = item.is_done && all_done items

abbrev pub is_completed : EventType → Bool
is_completed response_completed = true
is_completed _ = false

unfoldable pub finish_response : Machine → EventType → Outcome
finish_response m terminal = require_active m (
    if is_completed terminal && not (all_done m.items)
    then (m, some completed_with_open_item)
    else (record m { terminal = some terminal }, none))

-- The `switch` of `Apply`.
unfoldable pub dispatch : EventType → Machine → Event → Outcome
dispatch response_created m e = create m
dispatch response_in_progress m e = mark_in_progress m
dispatch output_item_added m e = add_item m e
dispatch arguments_delta m e = add_arguments m e
dispatch arguments_done m e = finish_arguments m e
dispatch output_item_done m e = finish_item m e
dispatch tool_result m e = accept_tool_result m e
dispatch response_completed m e = finish_response m response_completed
dispatch response_failed m e = finish_response m response_failed
dispatch response_incomplete m e = finish_response m response_incomplete
dispatch (unknown s) m e = (m, some unknown_semantic_event)

-- The end of `Apply`: an accepted event takes the next sequence number.
abbrev pub count_event : Outcome → Outcome
count_event (m, none) = (record m { next_sequence = add64 m.next_sequence 1 }, none)
count_event (m, some v) = (m, some v)

unfoldable pub apply : Machine → Event → Outcome
apply m e =
    if not (e.sequence == m.next_sequence)
    then (m, some non_monotonic_sequence)
    else if is_some m.terminal
    then (m, some event_after_terminal)
    else count_event (dispatch e.kind m e)

unfoldable pub finish : Machine → Option Violation
finish m = if is_some m.terminal then none else some missing_terminal_event

unfoldable pub reconstructed_arguments : Machine → String → Option String
reconstructed_arguments m id = elim (lookup id m.items) [
  | none ↦ none
  | some item ↦ some item.arguments
]

-- A stream of events up to the first error, as the callers of `Apply` feed it.
unfoldable pub apply_all : Machine → List Event → Outcome
apply_all m [] = (m, none)
apply_all m (e ∷ es) = elim (apply m e).1 [
  | some v ↦ ((apply m e).0, some v)
  | none ↦ apply_all (apply m e).0 es
]
