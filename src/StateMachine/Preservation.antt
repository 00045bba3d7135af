-- ===== src/StateMachine/Preservation.antt =====
-- The events of internal/statemachine/response.go, one by one, and the machine's invariant.
use agentapi_doctor.Common.{
  ℕ, Bool, true, false, not, ◌&&◌, ◌||◌, List, [], ◌∷◌, none, some, ◌==◌, is_some, is_negative,
  lookup, insert, string_eq, nat_eq, ok, ◌≡◌, arith, refl, ◌≢◌, inl, inr, Option-cases, if_split,
  Result-cases,
}
use agentapi_doctor.StateMachine.{
  Event, EventType, Machine, ItemState, Outcome, function_call, response_completed, new, create,
  mark_in_progress, put_item, add_item, add_arguments, finish_arguments, open_function_call,
  finish_item, accept_tool_result, finish_response, dispatch, apply, apply_all, all_done,
  count_event, is_completed, is_empty, response_created, response_in_progress, output_item_added,
  arguments_delta, arguments_done, output_item_done, tool_result, response_failed,
  response_incomplete, unknown,
}
use agentapi_doctor.StateMachine.Invariant.{
  Inv, write_item-Inv, insert_index-Inv, insert_plain-Inv, insert_call-Inv, insert_result-Inv,
}

-- The invariant does not read the flags and the counter.
flags-Inv :
    (m : Machine) (n : ℕ) (c p : Bool)
    → Inv m
    → Inv (record m { next_sequence = n; created = c; in_progress = p })
flags-Inv m n c p v = record {
  calls_owned = v.calls_owned;
  indexes_owned = v.indexes_owned;
  items_called = v.items_called;
  done_complete = v.done_complete;
  results_done = v.results_done;
  completed_done = v.completed_done;
}

abbrev Keeps : Outcome → Type 0
Keeps o = Inv o.0

put_item-Inv :
    (m : Machine) (e : Event)
    → m.terminal ≡ none
    → lookup e.item_id m.items ≡ none
    → (e.item_kind ≢ function_call)
    → Inv m
    → Inv (put_item m e m.calls).0
unfolding put_item
put_item-Inv m e going fresh plain v =
    insert_index-Inv m e.item_id _ going fresh refl e.output_index
      (insert_plain-Inv m e.item_id _ going fresh refl plain v)

put_call-Inv :
    (m : Machine) (e : Event)
    → m.terminal ≡ none
    → lookup e.item_id m.items ≡ none
    → e.item_kind ≡ function_call
    → lookup e.call_id m.calls ≡ none
    → Inv m
    → Inv (put_item m e (insert e.call_id e.item_id m.calls)).0
unfolding put_item
put_call-Inv m e going fresh call unused v =
    insert_index-Inv (record m { calls = insert e.call_id e.item_id m.calls }) e.item_id _ going
      fresh refl e.output_index (insert_call-Inv m e.item_id _ going fresh refl call unused v)

add_item-Inv : (m : Machine) (e : Event) → m.terminal ≡ none → Inv m → Inv (add_item m e).0
unfolding add_item
add_item-Inv m e going v =
    if_split Keeps m.created _ _
      (λ _.
        if_split Keeps (e.item_id == "" || e.item_kind == "" || is_negative e.output_index) _ _
          (λ _. v)
          (λ _.
            if_split Keeps (is_some (lookup e.item_id m.items)) _ _ (λ _. v)
              (λ fresh.
                let fresh' : lookup e.item_id m.items ≡ none = ground arith in
                if_split Keeps (is_some (lookup e.output_index m.indexes)) _ _ (λ _. v)
                  (λ _.
                    if_split Keeps (e.item_kind == function_call) _ _
                      (λ call.
                        if_split Keeps (e.call_id == "") _ _ (λ _. v)
                          (λ _.
                            if_split Keeps (is_some (lookup e.call_id m.calls)) _ _ (λ _. v)
                              (λ unused.
                                put_call-Inv m e going fresh' ((string_eq.test_iff _ _).0 call)
                                  (ground arith) v)))
                      (λ plain.
                        if_split Keeps (not (e.call_id == "")) _ _ (λ _. v)
                          (λ _.
                            put_item-Inv m e going fresh'
                              (λ k. cc (plain, (string_eq.test_iff _ _).1 k)) v))))))
      (λ _. v)

-- The item that `openFunctionCall` hands out stands under the event's id, and is an open function call.
pub open_function_call_ok :
    (m : Machine) (e : Event) (x : ItemState)
    → open_function_call m e ≡ ok x
    → (lookup e.item_id m.items ≡ some x)
      × (x.is_done ≡ false)
      × (x.kind ≡ function_call)
      × (m.created ≡ true)
unfolding open_function_call
open_function_call_ok m e x h = ground (arith, string_eq.test_iff x.kind function_call)

module _ (m : Machine) (e : Event) (going : m.terminal ≡ none) (v : Inv m) where
  add_arguments-Inv : Inv (add_arguments m e).0
  unfolding add_arguments
  add_arguments-Inv = elim (Result-cases (open_function_call m e)) [
    | inl (f, h) ↦ rw (h, add_arguments) v
    | inr (x, h) ↦
        let (found, open_item, kind, _) = open_function_call_ok m e x h in
        rw (h, add_arguments)
          (if_split Keeps x.is_arguments_done _ _ (λ _. v)
            (λ _. write_item-Inv m e.item_id x _ going found refl refl (λ d. d) (λ _ d. cc) v))
  ]

  finish_arguments-Inv : Inv (finish_arguments m e).0
  unfolding finish_arguments
  finish_arguments-Inv = elim (Result-cases (open_function_call m e)) [
    | inl (f, h) ↦ rw (h, finish_arguments) v
    | inr (x, h) ↦
        let (found, open_item, kind, _) = open_function_call_ok m e x h in
        rw (h, finish_arguments)
          (if_split Keeps x.is_arguments_done _ _ (λ _. v)
            (λ _.
              if_split Keeps (not (e.arguments == x.arguments)) _ _ (λ _. v)
                (λ _.
                  write_item-Inv m e.item_id x _ going found refl refl (λ d. d) (λ _ _. refl) v)))
  ]

  finish_item-Inv : Inv (finish_item m e).0
  unfolding finish_item
  finish_item-Inv = elim (Option-cases (lookup e.item_id m.items)) [
    | inl h ↦ rw (h, finish_item) (if_split Keeps m.created _ _ (λ _. v) (λ _. v))
    | inr (x, h) ↦
        rw (h, finish_item)
          (if_split Keeps m.created _ _
            (λ _.
              if_split Keeps x.is_done _ _ (λ _. v)
                (λ _.
                  if_split Keeps (x.kind == function_call && not x.is_arguments_done) _ _ (λ _. v)
                    (λ complete.
                      if_split Keeps (not (e.call_id == "") && not (e.call_id == x.call_id)) _ _
                        (λ _. v)
                        (λ _.
                          write_item-Inv m e.item_id x _ going h refl refl (λ _. refl)
                            (λ k _. ground (arith, string_eq.test_iff x.kind function_call)) v))))
            (λ _. v))
  ]

  accept_tool_result-Inv : Inv (accept_tool_result m e).0
  unfolding accept_tool_result
  accept_tool_result-Inv = elim (Option-cases (lookup e.call_id m.calls)) [
    | inl h ↦ rw (h, accept_tool_result) (if_split Keeps m.created _ _ (λ _. v) (λ _. v))
    | inr (i, h) ↦
        let (x, owned) = v.calls_owned e.call_id i h in
        rw (h, accept_tool_result, owned.0, accept_tool_result)
          (if_split Keeps m.created _ _
            (λ _.
              if_split Keeps (not x.is_done) _ _ (λ _. v)
                (λ done.
                  if_split Keeps (is_some (lookup e.call_id m.tool_results)) _ _ (λ _. v)
                    (λ _. insert_result-Inv m e.call_id i x h owned.0 (ground arith) v)))
            (λ _. v))
  ]

  terminal-Inv :
      (t : EventType)
      → (t ≡ response_completed → all_done m.items ≡ true)
      → Inv (record m { terminal = some t })
  terminal-Inv t closed = record {
    calls_owned = v.calls_owned;
    indexes_owned = v.indexes_owned;
    items_called = v.items_called;
    done_complete = v.done_complete;
    results_done = v.results_done;
    completed_done = λ h. closed (cc);
  }

  finish_response-Inv : (t : EventType) → Inv (finish_response m t).0
  unfolding finish_response
  finish_response-Inv t =
      if_split Keeps m.created _ _
        (λ _.
          if_split Keeps (is_completed t && not (all_done m.items)) _ _ (λ _. v)
            (λ h. terminal-Inv t (λ c. completed_guard t c h)))
        (λ _. v)
    where
      completed_guard :
          (t : EventType)
          → t ≡ response_completed
          → (is_completed t && not (all_done m.items)) ≡ false
          → all_done m.items ≡ true
      completed_guard t c h = ground arith

  dispatch-Inv : (k : EventType) → Inv (dispatch k m e).0
  unfolding dispatch create mark_in_progress
  dispatch-Inv response_created =
      if_split Keeps m.created _ _ (λ _. v) (λ _. flags-Inv m _ true _ v)
  dispatch-Inv response_in_progress =
      if_split Keeps m.created _ _
        (λ _.
          if_split Keeps m.in_progress _ _ (λ _. v)
            (λ _.
              if_split Keeps (not (is_empty m.items)) _ _ (λ _. v) (λ _. flags-Inv m _ _ true v)))
        (λ _. v)
  dispatch-Inv output_item_added = add_item-Inv m e going v
  dispatch-Inv arguments_delta = add_arguments-Inv
  dispatch-Inv arguments_done = finish_arguments-Inv
  dispatch-Inv output_item_done = finish_item-Inv
  dispatch-Inv tool_result = accept_tool_result-Inv
  dispatch-Inv response_completed = finish_response-Inv response_completed
  dispatch-Inv response_failed = finish_response-Inv response_failed
  dispatch-Inv response_incomplete = finish_response-Inv response_incomplete
  dispatch-Inv (unknown s) = v

count_event-Inv : (o : Outcome) → Inv o.0 → Inv (count_event o).0
count_event-Inv (m, none) v = flags-Inv m _ _ _ v
count_event-Inv (m, some f) v = v

-- Every event, accepted or refused, keeps the invariant.
pub apply-Inv : (m : Machine) (e : Event) → Inv m → Inv (apply m e).0
unfolding apply
apply-Inv m e v =
    if_split Keeps (not (e.sequence == m.next_sequence)) _ _ (λ _. v)
      (λ _.
        if_split Keeps (is_some m.terminal) _ _ (λ _. v)
          (λ going.
            count_event-Inv (dispatch e.kind m e) (dispatch-Inv m e (ground arith) v e.kind)))

pub new-Inv : Inv new
unfolding new lookup
new-Inv = record {
  calls_owned = λ c i h. cc;
  indexes_owned = λ n i h. cc;
  items_called = λ i x h k. cc;
  done_complete = λ i x h k d. cc;
  results_done = λ c h. cc;
  completed_done = λ h. cc;
}

-- Whatever events are fed to a new machine, up to the first error, the invariant holds in the end.
pub apply_all-Inv : (m : Machine) (es : List Event) → Inv m → Inv (apply_all m es).0
unfolding apply_all
apply_all-Inv m [] v = v
apply_all-Inv m (e ∷ es) v = elim (Option-cases (apply m e).1) [
  | inl h ↦ rw (h, apply_all) (apply_all-Inv (apply m e).0 es (apply-Inv m e v))
  | inr (f, h) ↦ rw (h, apply_all) (apply-Inv m e v)
]
