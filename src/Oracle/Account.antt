-- ===== src/Oracle/Account.antt =====
-- An account of the relations of an interaction that keeps no maps, for internal/oracle/relational.go.
use agentapi_doctor.Common.{
  String, Bool, true, false, not, ◌&&◌, ◌||◌, List, [], ◌∷◌, ◌==◌, string_eq, any,
}
use agentapi_doctor.Oracle.{Checks, IrItem, tool_call, tool_result, is_empty, is_valid_item}

abbrev pub is_call : String → IrItem → Bool
is_call id item = elim item.ir_type [ tool_call ↦ item.call_id == id | _ ↦ false ]

abbrev pub is_result : String → IrItem → Bool
is_result id item = elim item.ir_type [ tool_result ↦ item.call_id == id | _ ↦ false ]

abbrev pub has_id : String → IrItem → Bool
has_id id item = item.item_id == id

-- A call has an id of its own; a result has the id of an earlier call, and is its first.
unfoldable pub answers : List IrItem → IrItem → Bool
answers earlier item = elim item.ir_type [
  | tool_call ↦ not (item.call_id == "") && not (any (is_call item.call_id) earlier)
  | tool_result ↦
      not (item.call_id == "")
      && any (is_call item.call_id) earlier
      && not (any (is_result item.call_id) earlier)
  | _ ↦ true
]

unfoldable pub same_interaction : List IrItem → IrItem → Bool
same_interaction [] item = true
same_interaction (previous ∷ earlier) item = item.interaction_id == previous.interaction_id

-- The item fits to the ones before it, which stand in reverse order.
unfoldable pub connects : List IrItem → IrItem → Bool
connects earlier item =
    same_interaction earlier item
    && not (any (has_id item.item_id) earlier)
    && (item.parent_item_id == "" || any (has_id item.parent_item_id) earlier)
    && answers earlier item

module _ (k : Checks) where
  -- The item can be read: it is valid, its value is JSON, and nothing of it was lost.
  unfoldable pub is_readable : IrItem → Bool
  is_readable item =
      is_valid_item k item
      && (item.normalized_value == "" || k.is_json item.normalized_value)
      && is_empty item.loss_markers
      && is_empty item.unavailable

  -- Each item can be read and connects to the ones before it.
  unfoldable pub related : List IrItem → List IrItem → Bool
  related earlier [] = true
  related earlier (item ∷ rest) =
      is_readable item && connects earlier item && related (item ∷ earlier) rest

  -- The first item that does not connect is reached, and all up to it can be read.
  unfoldable pub broken : List IrItem → List IrItem → Bool
  broken earlier [] = false
  broken earlier (item ∷ rest) =
      is_readable item && (not (connects earlier item) || broken (item ∷ earlier) rest)
