-- ===== src/Oracle/Turns.antt =====
-- One turn of the loop of `EvaluateRelations` in internal/oracle/relational.go.
use agentapi_doctor.Common.{
  ◌≡◌, String, Bool, true, false, not, ◌&&◌, ◌||◌, List, ◌∷◌, ◌==◌, string_eq, is_some, any, lookup,
  insert, Result, ok, err, arith, refl, if_split, lookup-insert,
}
use agentapi_doctor.Oracle.{
  Code, ObjectRef, Outcome, IrType, IrItem, Seen, tool_call, tool_result, target_fail, check_tools,
  check_ids,
}
use agentapi_doctor.Oracle.Account.{is_call, is_result, has_id, answers, same_interaction, connects}

-- What the maps of the loop know of the items before.
pub record Knows (earlier : List IrItem) (seen : Seen) : Type 0 where
  pub ids : (id : String) → is_some (lookup id seen.items) ≡ any (has_id id) earlier
  pub calls : (id : String) → is_some (lookup id seen.calls) ≡ any (is_call id) earlier
  pub results : (id : String) → is_some (lookup id seen.results) ≡ any (is_result id) earlier
  pub interaction :
      (item : IrItem)
      → not (seen.interaction_id == "") && not (item.interaction_id == seen.interaction_id)
        ≡ not (same_interaction earlier item)

-- The verdict of one turn on an item that can be read, and what is known after it.
pub data Turn (earlier : List IrItem) (item : IrItem) : Result Outcome Seen → Type 0 where
  goes :
      (seen : Seen)
      → connects earlier item ≡ true
      → Knows (item ∷ earlier) seen
      → Turn earlier item (ok seen)
  breaks :
      (refs : List ObjectRef) (code : Code)
      → connects earlier item ≡ false
      → Turn earlier item (err (target_fail refs code))

inserted {ℓ} :
    {A : Type ℓ} (id key : String) (value : A) (entries : List (String × A)) (known : Bool)
    → is_some (lookup id entries) ≡ known
    → is_some (lookup id (insert key value entries)) ≡ key == id || known
inserted id key value entries known h = ground (arith, h, lookup-insert key id value entries)

module _ (refs : List ObjectRef) (earlier : List IrItem) (seen : Seen) (item : IrItem)
    (valid : not (item.interaction_id == "") ≡ true)
    (fits : connects earlier item ≡ answers earlier item) (knows : Knows earlier seen) where
  met : Seen
  met = record seen {
    interaction_id = item.interaction_id;
    items = insert item.item_id item seen.items;
  }

  call_known :
      item.ir_type ≡ tool_call
      → Knows (item ∷ earlier) (record met { calls = insert item.call_id item.item_id seen.calls })
  unfolding same_interaction met
  call_known e = record {
    ids = λ id. inserted id item.item_id item seen.items _ (knows.ids id);
    calls = λ id. ground (
      arith,
      e,
      knows.calls id,
      inserted id item.call_id item.item_id seen.calls _ (knows.calls id),
    );
    results = λ id. ground (arith, e, knows.results id);
    interaction = λ other. ground (arith, valid);
  }

  result_known :
      item.ir_type ≡ tool_result
      → Knows (item ∷ earlier) (record met { results = insert item.call_id tt seen.results })
  unfolding same_interaction met
  result_known e = record {
    ids = λ id. inserted id item.item_id item seen.items _ (knows.ids id);
    calls = λ id. ground (arith, e, knows.calls id);
    results = λ id.
        ground (
          arith,
          e,
          knows.results id,
          inserted id item.call_id tt seen.results _ (knows.results id),
        );
    interaction = λ other. ground (arith, valid);
  }

  plain_known :
      ((id : String) → is_call id item ≡ false)
      → ((id : String) → is_result id item ≡ false)
      → Knows (item ∷ earlier) met
  unfolding same_interaction met
  plain_known no_call no_result = record {
    ids = λ id. inserted id item.item_id item seen.items _ (knows.ids id);
    calls = λ id. ground (arith, no_call id, knows.calls id);
    results = λ id. ground (arith, no_result id, knows.results id);
    interaction = λ other. ground (arith, valid);
  }

  check_call-Turn :
      item.ir_type ≡ tool_call
      → Turn earlier item
          (check_tools refs (record seen { interaction_id = item.interaction_id }) item)
  unfolding check_tools answers met
  check_call-Turn e =
      simp (e, check_tools)
        (if_split (Turn earlier item) (item.call_id == "") _ _
          (λ nameless. breaks refs _ (ground (arith, fits, e, nameless)))
          (λ named_.
            if_split (Turn earlier item) (is_some (lookup item.call_id seen.calls)) _ _
              (λ twice. breaks refs _ (ground (arith, fits, e, twice, knows.calls item.call_id)))
              (λ once.
                goes _ (ground (arith, fits, e, named_, once, knows.calls item.call_id))
                  (call_known e))))

  check_result-Turn :
      item.ir_type ≡ tool_result
      → Turn earlier item
          (check_tools refs (record seen { interaction_id = item.interaction_id }) item)
  unfolding check_tools answers met
  check_result-Turn e =
      simp (e, check_tools)
        (if_split (Turn earlier item) (item.call_id == "") _ _
          (λ nameless. breaks refs _ (ground (arith, fits, e, nameless)))
          (λ named_.
            if_split (Turn earlier item) (not (is_some (lookup item.call_id seen.calls))) _ _
              (λ stray. breaks refs _ (ground (arith, fits, e, stray, knows.calls item.call_id)))
              (λ called.
                if_split (Turn earlier item) (is_some (lookup item.call_id seen.results)) _ _
                  (λ twice.
                    breaks refs _ (ground (arith, fits, e, twice, knows.results item.call_id)))
                  (λ once.
                    goes _
                      (ground (
                        arith,
                        fits,
                        e,
                        named_,
                        called,
                        once,
                        knows.calls item.call_id,
                        knows.results item.call_id,
                      ))
                      (result_known e)))))

  check_tools-Turn :
      (t : IrType)
      → item.ir_type ≡ t
      → Turn earlier item
          (check_tools refs (record seen { interaction_id = item.interaction_id }) item)
  unfolding check_tools answers met
  check_tools-Turn tool_call e = check_call-Turn e
  check_tools-Turn tool_result e = check_result-Turn e
  check_tools-Turn IrType.message e =
      simp (e, check_tools)
        (goes _ (ground (arith, fits, e))
          (plain_known (λ id. ground (arith, e)) (λ id. ground (arith, e))))
  check_tools-Turn IrType.content_part e =
      simp (e, check_tools)
        (goes _ (ground (arith, fits, e))
          (plain_known (λ id. ground (arith, e)) (λ id. ground (arith, e))))
  check_tools-Turn IrType.reasoning_artifact e =
      simp (e, check_tools)
        (goes _ (ground (arith, fits, e))
          (plain_known (λ id. ground (arith, e)) (λ id. ground (arith, e))))
  check_tools-Turn IrType.usage e =
      simp (e, check_tools)
        (goes _ (ground (arith, fits, e))
          (plain_known (λ id. ground (arith, e)) (λ id. ground (arith, e))))
  check_tools-Turn IrType.error_item e =
      simp (e, check_tools)
        (goes _ (ground (arith, fits, e))
          (plain_known (λ id. ground (arith, e)) (λ id. ground (arith, e))))
  check_tools-Turn IrType.lifecycle_event e =
      simp (e, check_tools)
        (goes _ (ground (arith, fits, e))
          (plain_known (λ id. ground (arith, e)) (λ id. ground (arith, e))))
  check_tools-Turn IrType.provider_extension e =
      simp (e, check_tools)
        (goes _ (ground (arith, fits, e))
          (plain_known (λ id. ground (arith, e)) (λ id. ground (arith, e))))
  check_tools-Turn (IrType.other name) e =
      simp (e, check_tools)
        (goes _ (ground (arith, fits, e))
          (plain_known (λ id. ground (arith, e)) (λ id. ground (arith, e))))

pub check_ids-Turn :
    (refs : List ObjectRef) (earlier : List IrItem) (seen : Seen) (item : IrItem)
    → not (item.interaction_id == "") ≡ true
    → Knows earlier seen
    → Turn earlier item (check_ids refs seen item)
unfolding check_ids connects
check_ids-Turn refs earlier seen item valid knows =
    if_split (Turn earlier item)
      (not (seen.interaction_id == "") && not (item.interaction_id == seen.interaction_id)) _ _
      (λ apart. breaks refs _ (apart_breaks apart))
      (λ together.
        if_split (Turn earlier item) (is_some (lookup item.item_id seen.items)) _ _
          (λ twice. breaks refs _ (twice_breaks twice))
          (λ once.
            if_split (Turn earlier item)
              (not (item.parent_item_id == "")
                && not (is_some (lookup item.parent_item_id seen.items)))
              _ _ (λ orphan. breaks refs _ (orphan_breaks orphan))
              (λ child.
                check_tools-Turn refs earlier seen item valid (fits together once child) knows
                  item.ir_type refl)))
  where
    apart_breaks :
        not (seen.interaction_id == "") && not (item.interaction_id == seen.interaction_id) ≡ true
        → connects earlier item ≡ false
    apart_breaks apart = ground (arith, apart, knows.interaction item)

    twice_breaks : is_some (lookup item.item_id seen.items) ≡ true → connects earlier item ≡ false
    twice_breaks twice = ground (arith, twice, knows.ids item.item_id)

    orphan_breaks :
        not (item.parent_item_id == "") && not (is_some (lookup item.parent_item_id seen.items))
          ≡ true
        → connects earlier item ≡ false
    orphan_breaks orphan = ground (arith, orphan, knows.ids item.parent_item_id)

    fits :
        not (seen.interaction_id == "") && not (item.interaction_id == seen.interaction_id) ≡ false
        → is_some (lookup item.item_id seen.items) ≡ false
        → not (item.parent_item_id == "") && not (is_some (lookup item.parent_item_id seen.items))
          ≡ false
        → connects earlier item ≡ answers earlier item
    fits together once child = ground (
      arith,
      together,
      once,
      child,
      knows.interaction item,
      knows.ids item.item_id,
      knows.ids item.parent_item_id,
    )
