-- ===== src/StateMachine/Invariant.antt =====
-- What holds of the machine of internal/statemachine/response.go between two events.
use agentapi_doctor.Common.{
  ℕ, String, true, false, none, some, ◌==◌, is_some, lookup, insert, string_eq, nat_eq, ◌≡◌, arith,
  refl, ◌≢◌, inl, inr, lookup-insert, Bool-cases, ◌∙◌, lookup-insert_cases, lookup-insert_self,
  subst, ap,
}
use agentapi_doctor.StateMachine.{
  Machine, ItemState, function_call, response_completed, all_done, write_item,
}

-- The item `x` stands under the id `i` and is the function call `c`.
abbrev pub Owns : Machine → String → String → ItemState → Type 0
Owns m c i x = (lookup i m.items ≡ some x) × (x.call_id ≡ c) × (x.kind ≡ function_call)

pub record Inv (m : Machine) : Type 0 where
  pub calls_owned : (c i : String) → lookup c m.calls ≡ some i → (x : ItemState) × Owns m c i x
  pub indexes_owned :
      (n : ℕ) (i : String)
      → lookup n m.indexes ≡ some i
      → (x : ItemState) × (lookup i m.items ≡ some x)
  pub items_called :
      (i : String) (x : ItemState)
      → lookup i m.items ≡ some x
      → x.kind ≡ function_call
      → lookup x.call_id m.calls ≡ some i
  pub done_complete :
      (i : String) (x : ItemState)
      → lookup i m.items ≡ some x
      → x.kind ≡ function_call
      → x.is_done ≡ true
      → x.is_arguments_done ≡ true
  pub results_done :
      (c : String)
      → is_some (lookup c m.tool_results) ≡ true
      → (i : String) × (x : ItemState) × (lookup c m.calls ≡ some i)
        × Owns m c i x
        × (x.is_done ≡ true)
  pub completed_done : m.terminal ≡ some response_completed → all_done m.items ≡ true

-- An item of the same kind and call, done if the old one was, is written over the item `id`.
module _ (m : Machine) (id : String) (x y : ItemState) (open_still : m.terminal ≡ none)
    (found : lookup id m.items ≡ some x) (same_kind : y.kind ≡ x.kind)
    (same_call : y.call_id ≡ x.call_id) (stays : x.is_done ≡ true → y.is_done ≡ true)
    (complete : y.kind ≡ function_call → y.is_done ≡ true → y.is_arguments_done ≡ true) where
  write_item_keeps :
      (i : String) (z : ItemState)
      → lookup i m.items ≡ some z
      → (w : ItemState) × (lookup i (insert id y m.items) ≡ some w)
        × (w.kind ≡ z.kind)
        × (w.call_id ≡ z.call_id)
        × (z.is_done ≡ true → w.is_done ≡ true)
  write_item_keeps i z h = elim (Bool-cases (id == i)) [
    | inl e ↦
        let x≡z : x ≡ z = ground (arith, string_eq.test_iff id i) in
        (
          y,
          ground (arith, lookup-insert id i y m.items),
          ground arith,
          ground arith,
          λ d. ground (arith, stays),
        )
    | inr e ↦ (z, ground (arith, lookup-insert id i y m.items), refl, refl, λ d. d)
  ]

  pub write_item-Inv : Inv m → Inv (write_item m id y)
  write_item-Inv v = record {
    calls_owned = λ c i h.
        let (z, owned) = v.calls_owned c i h in
        let (w, at_w, w_kind, w_call, w_done) = write_item_keeps i z owned.0 in
        (w, (at_w, w_call ∙ owned.1, w_kind ∙ owned.2));
    indexes_owned = λ n i h.
        let (z, at_i) = v.indexes_owned n i h in
        let (w, at_w, _, _, _) = write_item_keeps i z at_i in (w, at_w);
    items_called = λ i z h k. elim (lookup-insert_cases id i y z m.items h) [
      | inl (e, f) ↦ ground (arith, v.items_called id x found)
      | inr (_, old) ↦ v.items_called i z old k
    ];
    done_complete = λ i z h k d. elim (lookup-insert_cases id i y z m.items h) [
      | inl (e, f) ↦ ground (arith, complete)
      | inr (_, old) ↦ v.done_complete i z old k d
    ];
    results_done = λ c h.
        let (i, z, called, owned, done) = v.results_done c h in
        let (w, at_w, w_kind, w_call, w_done) = write_item_keeps i z owned.0 in
        (i, w, called, (at_w, w_call ∙ owned.1, w_kind ∙ owned.2), w_done done);
    completed_done = λ h. cc;
  }

-- An item that was not there before is put under the id `id`.
module _ (m : Machine) (id : String) (y : ItemState) (open_still : m.terminal ≡ none)
    (fresh : lookup id m.items ≡ none) (undone : y.is_done ≡ false) where
  insert_item_keeps :
      (i : String) (z : ItemState)
      → lookup i m.items ≡ some z
      → lookup i (insert id y m.items) ≡ some z
  insert_item_keeps i z h = ground (arith, lookup-insert id i y m.items, string_eq.test_iff id i)

  pub insert_index-Inv :
      (n : ℕ)
      → Inv (record m { items = insert id y m.items })
      → Inv (record m { items = insert id y m.items; indexes = insert n id m.indexes })
  insert_index-Inv n v = record {
    calls_owned = v.calls_owned;
    indexes_owned = λ k i h. elim (lookup-insert_cases n k id i m.indexes h) [
      | inl (_, f) ↦ (
        y,
        subst (λ j. lookup j (insert id y m.items) ≡ some y) f (lookup-insert_self id y m.items),
      )
      | inr (_, old) ↦ v.indexes_owned k i old
    ];
    items_called = v.items_called;
    done_complete = v.done_complete;
    results_done = v.results_done;
    completed_done = v.completed_done;
  }

  pub insert_plain-Inv :
      y.kind ≢ function_call → Inv m → Inv (record m { items = insert id y m.items })
  insert_plain-Inv plain v = record {
    calls_owned = λ c i h.
        let (z, owned) = v.calls_owned c i h in
        (z, (insert_item_keeps i z owned.0, owned.1, owned.2));
    indexes_owned =
        λ n i h. let (z, at_i) = v.indexes_owned n i h in (z, insert_item_keeps i z at_i);
    items_called = λ i z h k. elim (lookup-insert_cases id i y z m.items h) [
      | inl (e, f) ↦ absurd (plain (ap (λ (t : ItemState). t.kind) f ∙ k))
      | inr (_, old) ↦ v.items_called i z old k
    ];
    done_complete = λ i z h k d. elim (lookup-insert_cases id i y z m.items h) [
      | inl (e, f) ↦ ground arith
      | inr (_, old) ↦ v.done_complete i z old k d
    ];
    results_done = λ c h.
        let (i, z, called, owned, done) = v.results_done c h in
        (i, z, called, (insert_item_keeps i z owned.0, owned.1, owned.2), done);
    completed_done = λ h. cc;
  }

  pub insert_call-Inv :
      y.kind ≡ function_call
      → lookup y.call_id m.calls ≡ none
      → Inv m
      → Inv (record m { items = insert id y m.items; calls = insert y.call_id id m.calls })
  insert_call-Inv kind unused v = record {
    calls_owned = λ c i h. elim (lookup-insert_cases y.call_id c id i m.calls h) [
      | inl (e, f) ↦ (
        y,
        (
          subst (λ j. lookup j (insert id y m.items) ≡ some y) f (lookup-insert_self id y m.items),
          e,
          kind,
        ),
      )
      | inr (_, old) ↦
          let (z, owned) = v.calls_owned c i old in
          (z, (insert_item_keeps i z owned.0, owned.1, owned.2))
    ];
    indexes_owned =
        λ n i h. let (z, at_i) = v.indexes_owned n i h in (z, insert_item_keeps i z at_i);
    items_called = λ i z h k. elim (lookup-insert_cases id i y z m.items h) [
      | inl (e, f) ↦
          subst (λ (t : ItemState). lookup t.call_id (insert y.call_id id m.calls) ≡ some i) f
            (lookup-insert_self y.call_id id m.calls ∙ ap some e)
      | inr (_, old) ↦ keep_call z.call_id i (v.items_called i z old k)
    ];
    done_complete = λ i z h k d. elim (lookup-insert_cases id i y z m.items h) [
      | inl (e, f) ↦ ground arith
      | inr (_, old) ↦ v.done_complete i z old k d
    ];
    results_done = λ c h.
        let (i, z, called, owned, done) = v.results_done c h in
        (i, z, keep_call c i called, (insert_item_keeps i z owned.0, owned.1, owned.2), done);
    completed_done = λ h. cc;
  }
    where
      keep_call :
          (c i : String)
          → lookup c m.calls ≡ some i
          → lookup c (insert y.call_id id m.calls) ≡ some i
      keep_call c i h =
          ground (arith, lookup-insert y.call_id c id m.calls, string_eq.test_iff y.call_id c)

-- A result is recorded for a call that is done.
pub insert_result-Inv :
    (m : Machine) (c i : String) (x : ItemState)
    → lookup c m.calls ≡ some i
    → lookup i m.items ≡ some x
    → x.is_done ≡ true
    → Inv m
    → Inv (record m { tool_results = insert c tt m.tool_results })
insert_result-Inv m c i x called found done v = record {
  calls_owned = v.calls_owned;
  indexes_owned = v.indexes_owned;
  items_called = v.items_called;
  done_complete = v.done_complete;
  results_done = λ d h. elim (Bool-cases (c == d)) [
    | inl e ↦
        let (z, owned) = v.calls_owned c i called in
        let c≡d : c ≡ d = (string_eq.test_iff c d).0 e in
        (
          i,
          z,
          subst (λ t. lookup t m.calls ≡ some i) c≡d called,
          (owned.0, owned.1 ∙ c≡d, owned.2),
          ground arith,
        )
    | inr e ↦ v.results_done d (ground (arith, lookup-insert c d tt m.tool_results))
  ];
  completed_done = v.completed_done;
}
