-- ===== src/Minimizer/Minimal.antt =====
-- The outer loop of `DDMin` (internal/minimizer/minimizer.go): it ends, and what its result is.
use agentapi_doctor.Common.{
  ℕ, zero, suc, ◌+◌, ◌-◌, ◌*◌, ◌/◌, min, max, ◌≤◌, ◌<◌, ◌≡◌, ◌≢◌, ◌⊎◌, inl, inr, Bool, true, false,
  List, Option, some, refl, arith, subst, if_split, eqb, leb, ltb, Option-cases, Bool-cases, length,
  Result, ok, err,
}
use agentapi_doctor.Minimizer.{
  Options, Sweep, Reason, Outcome, Error, reproduces, fails, check, sweep, without, is_empty,
  minimized, unchanged, inconclusive, no_reason, insufficient_samples, budget_exhausted,
  budget_error, not_reproduced, cancelled, out_of_fuel, outcome, conclude, sweep, minimize,
  ddmin_with, ddmin, normalize_options,
}
use agentapi_doctor.Minimizer.Evaluation.{
  normalize_options-IsNormal, check-bound, steady, check-steady,
}
use agentapi_doctor.Minimizer.Reduction.{
  IsSublist, IsSublist-self, IsSublist-trans, Answered, Reduces, Swept, sweep-Swept, chunk_pos,
  chunk_one, length-without, is_empty-length, Answer-cases, Sweep-cases,
}

ok_injective {ℓ} : {A : Type ℓ} (r s : A) → ◌≡◌ {A = Result Error A} (ok r) (ok s) → r ≡ s
ok_injective r s h = cc

err_injective {ℓ} : {A : Type ℓ} (d e : Error) → ◌≡◌ {A = Result Error A} (err d) (err e) → d ≡ e
err_injective d e h = cc

module _ {ℓ} {A : Type ℓ} (predicate : ℕ → List A → Option Bool) (o : Options)
    (input : List A) where
  -- What a result says of the input, and of the evaluations that were made.
  pub record Found (r : Outcome A) : Type ℓ where
    pub sublist : IsSublist r.items input
    pub within_budget : r.evaluations ≤ o.max_evaluations
    pub reproduced : r.reason ≢ insufficient_samples → Answered predicate o r.items reproduces
    pub minimal :
        r.status ≢ inconclusive
        → 2 ≤ length r.items
        → (i : ℕ) → i < length r.items
        → Answered predicate o (without i (i + 1) r.items) fails
    pub unclear_input : r.reason ≡ insufficient_samples → r.status ≡ inconclusive
    pub not_emptied : is_empty input ≡ false → is_empty r.items ≡ false
    pub shortened :
        (r.status ≡ minimized → length r.items ≢ length input)
        × (r.status ≡ unchanged → length r.items ≡ length input)

  -- A run ends with such a result, or with an error of the code.
  data Ends : Result Error (Outcome A) → Type ℓ where
    finds : (r : Outcome A) → Found r → Ends (ok r)
    refuses : (e : Error) → e ≢ out_of_fuel → Ends (err e)

  Ends-ok : (s : Result Error (Outcome A)) → Ends s → (r : Outcome A) → s ≡ ok r → Found r
  Ends-ok _ (finds r' f) r h = subst Found (ok_injective r' r h) f
  Ends-ok _ (refuses e n) r h = absurd (ground (arith, h))

  Ends-returns : (s : Result Error (Outcome A)) → Ends s → s ≢ err out_of_fuel
  Ends-returns _ (finds r f) h = absurd (ground (arith, h))
  Ends-returns _ (refuses e n) h = n (err_injective e out_of_fuel h)

  -- What is left of the input; not nothing, unless nothing was there.
  abbrev IsPart : List A → Type ℓ
  IsPart xs = IsSublist xs input × (is_empty input ≡ false → is_empty xs ≡ false)

  concluded :
      (xs : List A) (count : ℕ) (saw : Bool)
      → IsPart xs
      → Answered predicate o xs reproduces
      → count ≤ o.max_evaluations
      → (saw ≡ false
          → 2 ≤ length xs
          → (i : ℕ) → i < length xs
          → Answered predicate o (without i (i + 1) xs) fails)
      → Found (conclude o xs (length input) count saw)
  unfolding conclude outcome
  concluded xs count true sub rep low small = record {
    sublist = sub.0;
    not_emptied = sub.1;
    within_budget = low;
    reproduced = λ _. rep;
    minimal = λ h. absurd (ground (arith, h));
    unclear_input = ground arith;
    shortened = ground arith;
  }
  concluded xs count false sub rep low small =
      if_split Found (eqb (length xs) (length input)) _ _
        (λ same. record {
          sublist = sub.0;
          not_emptied = sub.1;
          within_budget = low;
          reproduced = λ _. rep;
          minimal = λ _. small refl;
          unclear_input = ground arith;
          shortened = ground (arith, same);
        })
        (λ other. record {
          sublist = sub.0;
          not_emptied = sub.1;
          within_budget = low;
          reproduced = λ _. rep;
          minimal = λ _. small refl;
          unclear_input = ground arith;
          shortened = ground (arith, other);
        })

  gave_up :
      (xs : List A) (count : ℕ) (why : Reason)
      → IsPart xs
      → count ≤ o.max_evaluations
      → (why ≢ insufficient_samples → Answered predicate o xs reproduces)
      → Found (outcome o xs inconclusive why count)
  unfolding outcome
  gave_up xs count why sub low rep = record {
    sublist = sub.0;
    not_emptied = sub.1;
    within_budget = low;
    reproduced = rep;
    minimal = λ h. absurd (ground (arith, h));
    unclear_input = ground arith;
    shortened = ground arith;
  }

  module _ (is_cancelled : ℕ → Bool) where
    minimize-Ends :
        (shorter rounds : ℕ) (xs : List A) (g count : ℕ) (saw : Bool)
        → length xs < shorter
        → length xs - g < rounds
        → 2 ≤ g
        → count ≤ o.max_evaluations
        → IsPart xs
        → Answered predicate o xs reproduces
        → Ends (minimize predicate is_cancelled shorter rounds o (length input) xs g count saw)
    unfolding minimize
    minimize-Ends zero rounds xs g count saw fuel turns two low sub rep =
        absurd (omega (arith, fuel))
    minimize-Ends (suc shorter) zero xs g count saw fuel turns two low sub rep =
        absurd (omega (arith, turns))
    minimize-Ends (suc shorter) (suc rounds) xs g count saw fuel turns two low sub rep =
        if_split Ends (ltb (length xs) 2) _ _
          (λ short.
            finds _
              (concluded xs count saw sub rep low (λ _ long. absurd (ground (arith, short, long)))))
          (λ long.
            if_split Ends (is_cancelled count) _ _ (λ _. refuses cancelled (ground arith))
              (λ _.
                let two_items : 2 ≤ length xs = ground (arith, long) in
                let s : Swept predicate o xs chunk 0 saw swept_to = all two_items in
                elim (Sweep-cases swept_to.1) [
                  | inl e ↦ absurd (s.returns e)
                  | inr (inl e) ↦
                      rw e
                        (finds _ (gave_up xs swept_to.0.0 budget_exhausted sub s.bound (λ _. rep)))
                  | inr (inr (inl e)) ↦ elim (Bool-cases (leb (length xs) g)) [
                    | inl fine ↦
                        rw (e, fine)
                          (finds _ (
                            concluded xs swept_to.0.0 swept_to.0.1 sub rep s.bound
                              (λ unseen long' i inside. refused i inside two_items (
                                s.refused
                                  (chunk_one (length xs) g (omega (arith, two_items))
                                    (ground (arith, fine)))
                                  e unseen i (omega arith) inside))))
                    | inr coarse ↦
                        rw (e, coarse)
                          (minimize-Ends (suc shorter) rounds xs (min (length xs) (g * 2))
                            swept_to.0.0 swept_to.0.1 fuel (ground (arith, coarse, turns, two))
                            (omega (arith, two, two_items)) s.bound sub rep)
                  ]
                  | inr (inr (inr (ys, e))) ↦
                      let r : Reduces predicate o ys xs = s.reduces ys e in
                      rw e (
                        minimize-Ends shorter (suc (length ys)) ys (max 2 (g - 1)) swept_to.0.0
                          swept_to.0.1 (omega (arith, r.shorter, fuel)) (omega arith) (omega arith)
                          s.bound (IsSublist-trans ys xs input sub.0 r.sublist, λ _. r.not_empty)
                          r.reproduced)
                ]))
      where
        chunk : ℕ
        chunk = (length xs + g - 1) / g

        swept_to : (ℕ × Bool) × Sweep A
        swept_to = sweep predicate (suc (length xs)) o xs chunk 0 count saw

        all : 2 ≤ length xs → Swept predicate o xs chunk 0 saw swept_to
        all two_items =
            sweep-Swept predicate o (suc (length xs)) xs chunk 0 count saw
              (chunk_pos (length xs) g (omega (arith, two_items)) (omega (arith, two)))
              (omega arith) low

        -- No single item is all that there is.
        refused :
            (i : ℕ)
            → i < length xs
            → 2 ≤ length xs
            → (is_empty (without i (i + 1) xs) ≡ true)
              ⊎ Answered predicate o (without i (i + 1) xs) fails
            → Answered predicate o (without i (i + 1) xs) fails
        refused i inside two_items (inr a) = a
        refused i inside two_items (inl e) = absurd (
            omega (
              arith,
              is_empty-length (without i (i + 1) xs) e,
              length-without i (i + 1) xs (omega arith) (omega (arith, inside)),
            ))

    ddmin_with-Ends : 0 < o.required_passes → Ends (ddmin_with predicate is_cancelled o input)
    unfolding ddmin_with outcome
    ddmin_with-Ends pos =
        let first = check predicate o input 0 in
        let low = check-bound predicate o input 0 (omega arith) in
        elim (Answer-cases first.1) [
          | inl e ↦
              rw (e, ddmin_with)
                (if_split Ends (ltb (length input) 2) _ _
                  (λ short. finds _ (single first.0 low short (0, e)))
                  (λ long.
                    minimize-Ends (suc (length input)) (suc (length input)) input 2 first.0 false
                      (omega arith) (omega arith) (omega arith) low whole (0, e)))
          | inr (inl e) ↦ rw (e, ddmin_with) (refuses not_reproduced (ground arith))
          | inr (inr (inl e)) ↦
              rw (e, ddmin_with)
                (finds _
                  (gave_up input first.0 insufficient_samples whole low (λ h. absurd (h refl))))
          | inr (inr (inr e)) ↦ rw (e, ddmin_with) (refuses budget_error (ground arith))
        ]
      where
        whole : IsPart input
        whole = (IsSublist-self input, λ h. h)

        single :
            (count : ℕ)
            → count ≤ o.max_evaluations
            → ltb (length input) 2 ≡ true
            → Answered predicate o input reproduces
            → Found (outcome o input unchanged no_reason count)
        single count low short rep = record {
          sublist = IsSublist-self input;
          not_emptied = λ h. h;
          within_budget = low;
          reproduced = λ _. rep;
          minimal = λ _ long. absurd (ground (arith, short, long));
          unclear_input = ground arith;
          shortened = (λ h. absurd (ground (arith, h)), λ _. refl);
        }

module _ {ℓ} {A : Type ℓ} (predicate : ℕ → List A → Option Bool) (is_cancelled : ℕ → Bool) where
  -- Minimization always ends, with a result or with an error of the code: the bounds on its loops are
  -- never used up, whatever the predicate answers.
  pub ddmin_returns :
      (options : Options) (xs : List A) → ddmin predicate is_cancelled options xs ≢ err out_of_fuel
  unfolding ddmin
  ddmin_returns options xs = elim (Option-cases (normalize_options options)) [
    | inl e ↦ rw (e, ddmin) (λ h. absurd (ground (arith, h)))
    | inr (o, e) ↦
        rw (e, ddmin)
          (Ends-returns predicate o xs _ (
            ddmin_with-Ends predicate o xs is_cancelled
              (normalize_options-IsNormal options o e).required))
  ]

  -- When minimization returns a result, the options are valid and, whatever the predicate answers: the
  -- result is the input with some items left out, in order, within the budget of evaluations, and not
  -- empty unless the input is; unless the input itself got no clear answer, the result was found to
  -- reproduce; of a result that is not inconclusive and has two items or more, each list with one more
  -- item left out was found to fail; and a result is marked minimized only if its length is not
  -- that of the input, and unchanged only if it is.
  pub ddmin-Found :
      (options : Options) (xs : List A) (r : Outcome A)
      → ddmin predicate is_cancelled options xs ≡ ok r
      → (o : Options) × (normalize_options options ≡ some o) × Found predicate o xs r
  unfolding ddmin
  ddmin-Found options xs r h = elim (Option-cases (normalize_options options)) [
    | inl e ↦ absurd (ground (arith, h, e))
    | inr (o, e) ↦ (
      o,
      e,
      Ends-ok predicate o xs (ddmin_with predicate is_cancelled o xs)
          (ddmin_with-Ends predicate o xs is_cancelled
            (normalize_options-IsNormal options o e).required)
          r (ground (arith, h, e)),
    )
  ]

module _ {ℓ} {A : Type ℓ} (p : List A → Bool) (is_cancelled : ℕ → Bool) where
  -- With a predicate that answers `p` for each list, and never an error: a result that is not
  -- inconclusive satisfies `p`, and if it has two items or more, leaving out any one of them does not.
  -- Of a result of one item nothing is said here: the code never tries the empty list.
  pub ddmin-steady :
      (options : Options) (xs : List A) (r : Outcome A)
      → ddmin (steady p) is_cancelled options xs ≡ ok r
      → r.status ≢ inconclusive
      → (p r.items ≡ true)
        × ((i : ℕ)
            → 2 ≤ length r.items
            → i < length r.items
            → p (without i (i + 1) r.items) ≡ false)
  ddmin-steady options xs r h done =
      let (o, e, found) = ddmin-Found (steady p) is_cancelled options xs r h in
      let pos = (normalize_options-IsNormal options o e).required in
      let (n, yes_then) = found.reproduced (λ e. done (found.unclear_input e)) in
      (
        (check-steady p o r.items n pos).0 yes_then,
        λ i long inside.
            let (m, no_then) = found.minimal done long i inside in
            (check-steady p o (without i (i + 1) r.items) m pos).1 no_then,
      )
