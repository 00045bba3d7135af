-- ===== src/Oracle/Tests.antt =====
-- Verdicts of internal/oracle on short interactions and streams, and the theorems at them.
use agentapi_doctor.Common.{
  ℕ, ◌≡◌, true, false, not, ◌&&◌, List, [], ◌∷◌, ◌++◌, some, refl, ◌==◌, string_eq, lookup, insert,
}
use agentapi_doctor.StateMachine.{
  Event, EventType, response_created, response_in_progress, response_completed, apply, apply_all,
  dispatch, create, mark_in_progress, finish_response, all_done, finish, new,
}
use agentapi_doctor.StateMachine.Order.{Numbered, EndsWith}
use agentapi_doctor.Oracle.{
  Checks, ObjectRef, Input, IrItem, tool_call, tool_result, pass, fail, is_empty, passes,
  target_fail, preflight, is_valid_ref, evaluate_relations, evaluate_state_machine, is_valid_item,
  is_known, check_items, check_item, check_ids, check_tools,
}
use agentapi_doctor.Oracle.Account.{related, broken}
use agentapi_doctor.Oracle.Relations.{is_sound, Judges, evaluate_relations-Judges}
use agentapi_doctor.Oracle.Streams.{failed_part_fails, passed_stream_ends}

abbrev checks : Checks
checks = record {
  is_kind = λ s. not (s == "");
  is_instance = λ s. not (s == "");
  is_digest = λ s. not (s == "");
  is_json = λ s. not (s == "");
}

abbrev ref : ObjectRef
ref = record { kind = "Trace"; instance_id = ""; content_digest = "d" }

abbrev question : IrItem
question = record {
  item_id = "a";
  ir_type = tool_call;
  source_protocol = "p";
  source_type = "t";
  interaction_id = "i";
  parent_item_id = "";
  call_id = "c";
  native_value = "1";
  normalized_value = "";
  evidence_refs = ref ∷ [];
  extension = "";
  transform_id = "x";
  transform_version = "1";
  loss_markers = [];
  unavailable = [];
}

abbrev reply : IrItem
reply = record question { item_id = "b"; ir_type = tool_result; parent_item_id = "a" }

abbrev exchange : Input (List IrItem)
exchange = record {
  value = question ∷ reply ∷ [];
  evidence_refs = ref ∷ [];
  complete = true;
  failed = false;
}

exchange_passes : (evaluate_relations checks exchange).verdict ≡ pass
unfolding evaluate_relations preflight is_valid_ref check_items check_item is_valid_item is_known
    check_ids check_tools passes lookup insert
exchange_passes = refl

reversed_fails :
    (evaluate_relations checks (record exchange { value = reply ∷ question ∷ [] })).verdict ≡ fail
unfolding evaluate_relations preflight is_valid_ref check_items check_item is_valid_item is_known
    check_ids check_tools target_fail lookup insert
reversed_fails = refl

evaluate_relations-Judges_example :
    let judged = is_sound checks exchange && true in
    Judges
      (evaluate_relations checks exchange)
      (judged && not (is_empty exchange.value) && related checks [] exchange.value)
      (judged && broken checks [] exchange.value)
evaluate_relations-Judges_example = evaluate_relations-Judges checks exchange

abbrev event : ℕ → EventType → Event
event n k = record {
  sequence = n;
  kind = k;
  item_id = "";
  item_kind = "";
  output_index = 0;
  call_id = "";
  delta = "";
  arguments = "";
}

abbrev early : Input (List Event)
early = record {
  value = event 1 response_in_progress ∷ [];
  evidence_refs = ref ∷ [];
  complete = false;
  failed = false;
}

early_fails : (evaluate_state_machine checks early).verdict ≡ fail
unfolding evaluate_state_machine preflight is_valid_ref apply_all apply dispatch mark_in_progress
    new target_fail
early_fails = refl

failed_part_fails_example :
    evaluate_state_machine checks
      (record early { value = early.value ++ event 2 response_completed ∷ []; complete = true })
    ≡ evaluate_state_machine checks early
failed_part_fails_example =
    failed_part_fails checks early (event 2 response_completed ∷ []) true early_fails refl

abbrev short : Input (List Event)
short = record early {
  value = event 1 response_created ∷ event 2 response_completed ∷ [];
  complete = true;
}

short_passes : (evaluate_state_machine checks short).verdict ≡ pass
unfolding evaluate_state_machine preflight is_valid_ref apply_all apply dispatch create
    finish_response all_done new finish passes
short_passes = refl

passed_stream_ends_example :
    (short.complete ≡ true)
    × Numbered 1 short.value
    × ((t : EventType) × EndsWith short.value (some t))
passed_stream_ends_example = passed_stream_ends checks short short_passes
