-- ===== src/Oracle/Relations.antt =====
-- The relations between the items of an interaction, of internal/oracle/relational.go.
use agentapi_doctor.Common.{
  ◌≡◌, ◌↔◌, String, Bool, true, false, not, ◌&&◌, ◌||◌, List, [], ◌∷◌, Option, none, some, ◌==◌,
  string_eq, all, lookup, Result, ok, err, arith, refl, if_split, Bool-cases, inl, inr,
}
use agentapi_doctor.Oracle.{
  Checks, ReasonCode, Code, ObjectRef, Input, Outcome, IrItem, Seen, pass, fail, is_empty,
  concludes, passes, target_fail, insufficient, harness, nothing_seen, check_ids, is_valid_ref,
  is_valid_item, preflight, check_item, check_items, evaluate_relations,
}
use agentapi_doctor.Oracle.Account.{same_interaction, connects, is_readable, related, broken}
use agentapi_doctor.Oracle.Turns.{Knows, Turn, goes, breaks, check_ids-Turn}

-- The outcome passes exactly when `good`, fails exactly when `bad`, and blames the target exactly when it fails.
pub record Judges (o : Outcome) (good bad : Bool) : Type 0 where
  pub on_pass : (o.verdict ≡ pass) ↔ (good ≡ true)
  pub on_fail : (o.verdict ≡ fail) ↔ (bad ≡ true)
  pub on_blame : (o.target_failure ≡ true) ↔ (o.verdict ≡ fail)

judges_pass : (refs : List ObjectRef) → Judges (passes refs) true false
unfolding passes
judges_pass refs = record {
  on_pass = ground arith;
  on_fail = ground arith;
  on_blame = ground arith;
}

judges_fail : (refs : List ObjectRef) (code : Code) → Judges (target_fail refs code) false true
unfolding target_fail
judges_fail refs code = record {
  on_pass = ground arith;
  on_fail = ground arith;
  on_blame = ground arith;
}

judges_nothing :
    (refs : List ObjectRef) (reason : ReasonCode) (code : String)
    → Judges (concludes refs reason code) false false
judges_nothing refs reason code = record {
  on_pass = ground arith;
  on_fail = ground arith;
  on_blame = ground arith;
}

abbrev Stops : List ObjectRef → Result Outcome Seen → Type 0
Stops refs r = (reason : ReasonCode) × (code : String) × (r ≡ err (concludes refs reason code))

abbrev pub Halts : Option Outcome → Type 0
Halts o =
    (refs : List ObjectRef) × (reason : ReasonCode) × (code : String) × (o
      ≡ some (concludes refs reason code))

module _ (k : Checks) where
  -- The evidence can be judged: the harness worked, there are references, and each is valid.
  unfoldable pub is_sound : {A : Type 0} → Input A → Bool
  is_sound input =
      not input.failed
      && not (is_empty input.evidence_refs)
      && all (is_valid_ref k) input.evidence_refs

  readable_goes :
      (refs : List ObjectRef) (seen : Seen) (item : IrItem)
      → is_readable k item ≡ true
      → check_item k refs seen item ≡ check_ids refs seen item
  unfolding is_readable check_item
  readable_goes refs seen item h = ground (arith, h)

  unreadable-Stops :
      (refs : List ObjectRef) (seen : Seen) (item : IrItem)
      → is_readable k item ≡ false
      → Stops refs (check_item k refs seen item)
  unfolding is_readable check_item harness insufficient
  unreadable-Stops refs seen item h =
      if_split (Stops refs) (not (is_valid_item k item)) _ _
        (λ _. (ReasonCode.harness_error, "invalid_normalized_ir", refl))
        (λ valid.
          if_split (Stops refs)
            (not (item.normalized_value == "") && not (k.is_json item.normalized_value)) _ _
            (λ _. (ReasonCode.harness_error, "invalid_normalized_ir", refl))
            (λ json.
              if_split (Stops refs)
                (not (is_empty item.loss_markers) || not (is_empty item.unavailable)) _ _
                (λ _. (ReasonCode.insufficient_samples, "normalization_loss", refl))
                (λ whole. absurd (ground (arith, h, valid, json, whole)))))

  readable_named :
      (item : IrItem) → is_readable k item ≡ true → not (item.interaction_id == "") ≡ true
  unfolding is_readable is_valid_item
  readable_named item h = ground (arith, h)

  judged :
      (refs : List ObjectRef) (earlier : List IrItem) (item : IrItem) (rest : List IrItem)
      (r : Result Outcome Seen)
      → Turn earlier item r
      → ((after : Seen)
          → Knows (item ∷ earlier) after
          → Judges
              (check_items k refs after rest)
              (related k (item ∷ earlier) rest)
              (broken k (item ∷ earlier) rest))
      → Judges
          (elim r [ err outcome ↦ outcome | ok after ↦ check_items k refs after rest ])
          (connects earlier item && related k (item ∷ earlier) rest)
          (not (connects earlier item) || broken k (item ∷ earlier) rest)
  judged refs earlier item rest _ (goes after fits knows_more) next =
      rw fits (next after knows_more)
  judged refs earlier item rest _ (breaks at code apart) next = rw apart (judges_fail at code)

  none_broken : (items : List IrItem) → is_empty items ≡ true → broken k [] items ≡ false
  unfolding broken
  none_broken [] h = refl
  none_broken (item ∷ items) h = absurd (ground (arith, h))

  check_items-Judges :
      (refs : List ObjectRef) (earlier : List IrItem) (seen : Seen) (items : List IrItem)
      → Knows earlier seen
      → Judges (check_items k refs seen items) (related k earlier items) (broken k earlier items)
  unfolding check_items related broken passes target_fail
  check_items-Judges refs earlier seen [] knows = judges_pass refs
  check_items-Judges refs earlier seen (item ∷ rest) knows =
      elim (Bool-cases (is_readable k item)) [
        | inr dark ↦
            let stop : Stops refs (check_item k refs seen item) =
              unreadable-Stops refs seen item dark in
            rw (dark, stop.2, check_items) (judges_nothing refs stop.0 stop.1)
        | inl clear ↦
            rw (clear, readable_goes refs seen item clear, check_items)
              (judged refs earlier item rest (check_ids refs seen item)
                (check_ids-Turn refs earlier seen item (readable_named item clear) knows)
                (λ after more. check_items-Judges refs (item ∷ earlier) after rest more))
      ]

  pub sound_goes : {A : Type 0} (input : Input A) → is_sound input ≡ true → preflight k input ≡ none
  unfolding is_sound preflight
  sound_goes input h = ground (arith, h)

  pub unsound-Halts :
      {A : Type 0} (input : Input A) → is_sound input ≡ false → Halts (preflight k input)
  unfolding is_sound preflight harness
  unsound-Halts input h =
      if_split Halts input.failed _ _ (λ _. (_, _, _, refl))
        (λ worked.
          if_split Halts (is_empty input.evidence_refs) _ _ (λ _. (_, _, _, refl))
            (λ present.
              if_split Halts (not (all (is_valid_ref k) input.evidence_refs)) _ _
                (λ _. (_, _, _, refl))
                (λ valid. absurd (ground (arith, h, worked, present, valid)))))

  nothing_known : Knows [] nothing_seen
  unfolding same_interaction lookup
  nothing_known = record {
    ids = λ id. refl;
    calls = λ id. refl;
    results = λ id. refl;
    interaction = λ item. refl;
  }

  -- The relations of an interaction pass exactly when the evidence is sound and complete, there are
  -- items, and each can be read and connects to those before it; they are a failure exactly when the
  -- evidence is sound and complete and some item does not connect, where it and all before it can be
  -- read and those before it connect; and the target is blamed for nothing else.
  pub evaluate_relations-Judges :
      (input : Input (List IrItem))
      → let judged = is_sound input && input.complete in
        Judges
          (evaluate_relations k input)
          (judged && not (is_empty input.value) && related k [] input.value)
          (judged && broken k [] input.value)
  unfolding evaluate_relations insufficient
  evaluate_relations-Judges input = elim (Bool-cases (is_sound input)) [
    | inr unsound ↦
        let halt : Halts (preflight k input) = unsound-Halts input unsound in
        simp (evaluate_relations, unsound, halt.3) (judges_nothing halt.0 halt.1 halt.2)
    | inl sound ↦ elim (Bool-cases input.complete) [
      | inr partial ↦
          simp (evaluate_relations, sound, sound_goes input sound, partial) (judges_nothing _ _ _)
      | inl whole ↦ elim (Bool-cases (is_empty input.value)) [
        | inr some_items ↦
            simp (evaluate_relations, sound, sound_goes input sound, whole, some_items)
              (check_items-Judges input.evidence_refs [] nothing_seen input.value nothing_known)
        | inl no_items ↦
            simp
              (
                evaluate_relations,
                sound,
                sound_goes input sound,
                whole,
                no_items,
                none_broken input.value no_items,
              )
              (judges_nothing _ _ _)
      ]
    ]
  ]
