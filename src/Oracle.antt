-- ===== src/Oracle.antt =====
-- internal/oracle: the verdict on a response from its evidence. The texts that an outcome shows
-- (`Expected`, `Observed`) are left out, its code is kept. The regular expressions of the ids and
-- digests and `json.Valid` are parameters.
pub mod Account
pub mod Turns
pub mod Relations
pub mod Streams
pub mod Tests
use agentapi_doctor.Common.{
  String, Bool, true, false, not, ◌&&◌, ◌||◌, List, [], ◌∷◌, Option, none, some, ◌==◌, string_eq,
  if◌then◌else◌, is_some, all, lookup, insert, Result, ok, err,
}
use agentapi_doctor.StateMachine.{Event, Violation, apply_all}
use agentapi_doctor.StateMachine.{new as new_machine}
use agentapi_doctor.StateMachine.{finish as finish_machine}

pub record Checks : Type 0 where
  pub is_kind : String → Bool
  pub is_instance : String → Bool
  pub is_digest : String → Bool
  pub is_json : String → Bool

pub data Verdict : Type 0 where
  pass fail inconclusive : Verdict

pub data ReasonCode : Type 0 where
  harness_error insufficient_samples not_observed : ReasonCode

-- The code of an outcome: the oracle's own, or the one of a violation.
pub data Code : Type 0 where
  named : String → Code
  violated : Violation → Code

pub record ObjectRef : Type 0 where
  pub kind : String
  pub instance_id : String
  pub content_digest : String

-- `failed` tells that the error is not nil.
pub record Input (A : Type 0) : Type 0 where
  pub value : A
  pub evidence_refs : List ObjectRef
  pub complete : Bool
  pub failed : Bool

pub record Outcome : Type 0 where
  pub verdict : Verdict
  pub reason : Option ReasonCode
  pub code : Code
  pub evidence_refs : List ObjectRef
  pub target_failure : Bool

pub data IrType : Type 0 where
  message content_part tool_call tool_result reasoning_artifact usage error_item lifecycle_event
        provider_extension :
      IrType
  other : String → IrType

pub record LossMarker : Type 0 where
  pub transform_id : String
  pub reason : String

pub record IrItem : Type 0 where
  pub item_id : String
  pub ir_type : IrType
  pub source_protocol : String
  pub source_type : String
  pub interaction_id : String
  pub parent_item_id : String
  pub call_id : String
  pub native_value : String
  pub normalized_value : String
  pub evidence_refs : List ObjectRef
  pub extension : String
  pub transform_id : String
  pub transform_version : String
  pub loss_markers : List LossMarker
  pub unavailable : List String

abbrev pub is_empty {ℓ} : {A : Type ℓ} → List A → Bool
is_empty [] = true
is_empty (x ∷ xs) = false

abbrev pub concludes : List ObjectRef → ReasonCode → String → Outcome
concludes refs reason code = record {
  verdict = inconclusive;
  reason = some reason;
  code = named code;
  evidence_refs = refs;
  target_failure = false;
}

unfoldable pub passes : List ObjectRef → Outcome
passes refs = record {
  verdict = pass;
  reason = none;
  code = named "assertion_satisfied";
  evidence_refs = refs;
  target_failure = false;
}

unfoldable pub target_fail : List ObjectRef → Code → Outcome
target_fail refs code = record {
  verdict = fail;
  reason = none;
  code = code;
  evidence_refs = refs;
  target_failure = true;
}

unfoldable pub insufficient : List ObjectRef → String → Outcome
insufficient refs code = concludes refs insufficient_samples code

unfoldable pub harness : List ObjectRef → String → Outcome
harness refs code = concludes refs harness_error code

-- The maps of the loop of `EvaluateRelations`, and the interaction of the first item.
pub record Seen : Type 0 where
  pub items : List (String × IrItem)
  pub calls : List (String × String)
  pub results : List (String × Unit {0})
  pub interaction_id : String

abbrev pub nothing_seen : Seen
nothing_seen = record { items = []; calls = []; results = []; interaction_id = "" }

unfoldable pub is_known : IrType → Bool
is_known (other s) = false
is_known t = true

abbrev pub is_extension : IrType → Bool
is_extension provider_extension = true
is_extension t = false

-- The switch on the type of an item, and the item's entry behind it.
unfoldable pub check_tools : List ObjectRef → Seen → IrItem → Result Outcome Seen
check_tools refs seen item = elim item.ir_type [
  | tool_call ↦
      if item.call_id == ""
      then err (target_fail refs (named "missing_call_id"))
      else if is_some (lookup item.call_id seen.calls)
      then err (target_fail refs (named "duplicate_call_id"))
      else ok (record seen {
        calls = insert item.call_id item.item_id seen.calls;
        items = insert item.item_id item seen.items;
      })
  | tool_result ↦
      if item.call_id == ""
      then err (target_fail refs (named "missing_tool_result_call_id"))
      else if not (is_some (lookup item.call_id seen.calls))
      then err (target_fail refs (named "tool_result_unknown_call"))
      else if is_some (lookup item.call_id seen.results)
      then err (target_fail refs (named "duplicate_tool_result"))
      else ok (record seen {
        results = insert item.call_id tt seen.results;
        items = insert item.item_id item seen.items;
      })
  | _ ↦ ok (record seen { items = insert item.item_id item seen.items })
]

-- The checks on the ids of an item that the loop makes before the switch.
unfoldable pub check_ids : List ObjectRef → Seen → IrItem → Result Outcome Seen
check_ids refs seen item =
    if not (seen.interaction_id == "") && not (item.interaction_id == seen.interaction_id)
    then err (target_fail refs (named "cross_interaction_reference"))
    else if is_some (lookup item.item_id seen.items)
    then err (target_fail refs (named "duplicate_item_id"))
    else if not (item.parent_item_id == "") && not (is_some (lookup item.parent_item_id seen.items))
    then err (target_fail refs (named "unknown_parent_item"))
    else check_tools refs (record seen { interaction_id = item.interaction_id }) item

module _ (k : Checks) where
  unfoldable pub is_valid_ref : ObjectRef → Bool
  is_valid_ref ref =
      k.is_kind ref.kind
      && (ref.instance_id == "" || k.is_instance ref.instance_id)
      && k.is_digest ref.content_digest

  unfoldable pub is_valid_item : IrItem → Bool
  is_valid_item item =
      not (
        item.item_id == ""
        || item.interaction_id == ""
        || item.source_protocol == ""
        || item.source_type == "")
      && is_known item.ir_type
      && not (item.native_value == "" || not (k.is_json item.native_value))
      && not
          (is_empty item.evidence_refs || item.transform_id == "" || item.transform_version == "")
      && all is_valid_ref item.evidence_refs
      && not (is_extension item.ir_type && item.extension == "")

  unfoldable pub preflight : {A : Type 0} → Input A → Option Outcome
  preflight input =
      if input.failed
      then some (harness input.evidence_refs "harness_precondition_failed")
      else if is_empty input.evidence_refs
      then some (concludes [] not_observed "missing_evidence")
      else if not (all is_valid_ref input.evidence_refs)
      then some (harness input.evidence_refs "invalid_evidence_reference")
      else none

  -- One turn of the loop of `EvaluateRelations`.
  unfoldable pub check_item : List ObjectRef → Seen → IrItem → Result Outcome Seen
  check_item refs seen item =
      if not (is_valid_item item)
      then err (harness refs "invalid_normalized_ir")
      else if not (item.normalized_value == "") && not (k.is_json item.normalized_value)
      then err (harness refs "invalid_normalized_ir")
      else if not (is_empty item.loss_markers) || not (is_empty item.unavailable)
      then err (insufficient refs "normalization_loss")
      else check_ids refs seen item

  unfoldable pub check_items : List ObjectRef → Seen → List IrItem → Outcome
  check_items refs seen [] = passes refs
  check_items refs seen (item ∷ rest) = elim (check_item refs seen item) [
    | err outcome ↦ outcome
    | ok after ↦ check_items refs after rest
  ]

  unfoldable pub evaluate_relations : Input (List IrItem) → Outcome
  evaluate_relations input = elim (preflight input) [
    | some outcome ↦ outcome
    | none ↦
        if not input.complete
        then insufficient input.evidence_refs "incomplete_relational_evidence"
        else if is_empty input.value
        then insufficient input.evidence_refs "empty_interaction"
        else check_items input.evidence_refs nothing_seen input.value
  ]

  -- Every error of the machine is a violation, so the branch of other errors is never taken.
  unfoldable pub evaluate_state_machine : Input (List Event) → Outcome
  evaluate_state_machine input = elim (preflight input) [
    | some outcome ↦ outcome
    | none ↦ elim (apply_all new_machine input.value).1 [
      | some v ↦ target_fail input.evidence_refs (violated v)
      | none ↦
          if not input.complete
          then insufficient input.evidence_refs "incomplete_stream_evidence"
          else elim (finish_machine (apply_all new_machine input.value).0) [
            | some v ↦ target_fail input.evidence_refs (violated v)
            | none ↦ passes input.evidence_refs
          ]
    ]
  ]
