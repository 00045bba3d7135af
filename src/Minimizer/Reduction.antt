-- ===== src/Minimizer/Reduction.antt =====
-- The loop of internal/minimizer/minimizer.go over the chunks of a list, and what it leaves out.
use native.Mathlib.Nat.{div-eq-sub-div, div-eq_of_lt}
use agentapi_doctor.Common.{
  ℕ, zero, suc, ◌+◌, ◌-◌, ◌/◌, min, ◌≤◌, ◌<◌, ◌≡◌, ◌≢◌, ◌⊎◌, inl, inr, Bool, true, false, not, List,
  [], ◌∷◌, Option, refl, arith, subst, if_split, eqb, ltb, Bool-cases, length, take, drop,
  length-append, length-take, length-drop,
}
use agentapi_doctor.Minimizer.{
  Options, Answer, Sweep, reproduces, fails, unclear, spent, reduced, kept, exhausted, stuck, check,
  sweep, without, is_empty,
}
use agentapi_doctor.Minimizer.Evaluation.{check-bound}

-- A list with some entries left out, the others in order.
pub data IsSublist {ℓ} {A : Type ℓ} : List A → List A → Type ℓ where
  nothing : IsSublist [] []
  keeps : (x : A) (xs ys : List A) → IsSublist xs ys → IsSublist (x ∷ xs) (x ∷ ys)
  skips : (y : A) (xs ys : List A) → IsSublist xs ys → IsSublist xs (y ∷ ys)

module _ {ℓ} {A : Type ℓ} where
  pub IsSublist-self : (xs : List A) → IsSublist xs xs
  IsSublist-self [] = nothing
  IsSublist-self (x ∷ xs) = keeps x xs xs (IsSublist-self xs)

  pub IsSublist-trans : (xs ys zs : List A) → IsSublist ys zs → IsSublist xs ys → IsSublist xs zs
  IsSublist-trans xs _ _ nothing h = h
  IsSublist-trans xs _ _ (skips y ys zs g) h = skips y xs zs (IsSublist-trans xs ys zs g h)
  IsSublist-trans _ _ _ (keeps x ys zs g) (keeps _ xs _ h) =
      keeps x xs zs (IsSublist-trans xs ys zs g h)
  IsSublist-trans xs _ _ (keeps y ys zs g) (skips _ _ _ h) =
      skips y xs zs (IsSublist-trans xs ys zs g h)

  drop-IsSublist : (n : ℕ) (xs : List A) → IsSublist (drop n xs) xs
  drop-IsSublist zero xs = IsSublist-self xs
  drop-IsSublist (suc n) [] = nothing
  drop-IsSublist (suc n) (x ∷ xs) = skips x (drop n xs) xs (drop-IsSublist n xs)

  without-IsSublist :
      (start end : ℕ) (xs : List A) → start ≤ end → IsSublist (without start end xs) xs
  without-IsSublist zero end xs h = drop-IsSublist end xs
  without-IsSublist (suc start) zero xs h = absurd (omega (arith, h))
  without-IsSublist (suc start) (suc end) [] h = nothing
  without-IsSublist (suc start) (suc end) (x ∷ xs) h =
      keeps x (without start end xs) xs (without-IsSublist start end xs (omega (arith, h)))

  pub length-without :
      (start end : ℕ) (xs : List A)
      → start ≤ end
      → end ≤ length xs
      → length (without start end xs) + (end - start) ≡ length xs
  length-without start end xs h g =
      omega (
        arith,
        length-append (take start xs) (drop end xs),
        length-take start xs,
        length-drop end xs,
      )

  pub is_empty-length : (xs : List A) → is_empty xs ≡ true → length xs ≡ 0
  is_empty-length [] h = refl
  is_empty-length (x ∷ xs) h = absurd (ground arith)

-- The size of a chunk: at least one, and one when there are as many chunks as items.
pub chunk_pos : (n g : ℕ) → 0 < n → 0 < g → 0 < (n + g - 1) / g
chunk_pos n g h k = omega (arith, div-eq-sub-div {m = g} {n = n + g - 1} k (omega (arith, h, k)))

pub chunk_one : (n g : ℕ) → 0 < n → n ≤ g → (n + g - 1) / g ≡ 1
chunk_one n g h k = omega (
  arith,
  div-eq-sub-div {m = g} {n = n + g - 1} (omega (arith, h, k)) (omega (arith, h, k)),
  div-eq_of_lt {n = n + g - 1 - g} {m = g} (omega (arith, h, k)),
)

pub Sweep-cases {ℓ} :
    {A : Type ℓ} (s : Sweep A)
    → (s ≡ stuck) ⊎ (s ≡ exhausted) ⊎ (s ≡ kept) ⊎ ((ys : List A) × (s ≡ reduced ys))
Sweep-cases stuck = inl refl
Sweep-cases exhausted = inr (inl refl)
Sweep-cases kept = inr (inr (inl refl))
Sweep-cases (reduced ys) = inr (inr (inr (ys, refl)))

pub Answer-cases : (a : Answer) → (a ≡ reproduces) ⊎ (a ≡ fails) ⊎ (a ≡ unclear) ⊎ (a ≡ spent)
Answer-cases reproduces = inl refl
Answer-cases fails = inr (inl refl)
Answer-cases unclear = inr (inr (inl refl))
Answer-cases spent = inr (inr (inr refl))

reduced_injective {ℓ} : {A : Type ℓ} (xs ys : List A) → reduced xs ≡ reduced ys → xs ≡ ys
reduced_injective xs ys h = cc

module _ {ℓ} {A : Type ℓ} (predicate : ℕ → List A → Option Bool) (o : Options) where
  -- A list has been found to reproduce, or not to, at some count of evaluations.
  abbrev pub Answered : List A → Answer → Type 0
  Answered xs a = (count : ℕ) × ((check predicate o xs count).1 ≡ a)

  -- A reduction of a list.
  pub record Reduces (ys xs : List A) : Type ℓ where
    pub sublist : IsSublist ys xs
    pub shorter : length ys < length xs
    pub not_empty : is_empty ys ≡ false
    pub reproduced : Answered ys reproduces

  -- What the loop over the chunks of `xs` from `start` leaves.
  pub record Swept (xs : List A) (chunk start : ℕ) (saw : Bool) (r : (ℕ × Bool) × Sweep A)
      : Type ℓ where
    pub bound : r.0.0 ≤ o.max_evaluations
    pub saw_stays : saw ≡ true → r.0.1 ≡ true
    pub returns : r.1 ≢ stuck
    pub reduces : (ys : List A) → r.1 ≡ reduced ys → Reduces ys xs
    pub refused :
        chunk ≡ 1
        → r.1 ≡ kept
        → r.0.1 ≡ false
        → (i : ℕ) → start ≤ i
        → i < length xs
        → (is_empty (without i (i + 1) xs) ≡ true) ⊎ Answered (without i (i + 1) xs) fails

  abbrev cut_at : List A → ℕ → ℕ → List A
  cut_at xs chunk start = without start (min (start + chunk) (length xs)) xs

  -- The rest of a loop whose first candidate was passed over, or conclusively refused.
  Swept-on :
      (xs : List A) (chunk start : ℕ) (saw saw' : Bool) (r : (ℕ × Bool) × Sweep A)
      → (saw ≡ true → saw' ≡ true)
      → (saw' ≡ false
          → (is_empty (cut_at xs chunk start) ≡ true) ⊎ Answered (cut_at xs chunk start) fails)
      → start < length xs
      → Swept xs chunk (start + chunk) saw' r
      → Swept xs chunk start saw r
  Swept-on xs chunk start saw saw' r later here inside s = record {
    bound = s.bound;
    saw_stays = λ h. s.saw_stays (later h);
    returns = s.returns;
    reduces = s.reduces;
    refused = λ one is_kept unseen i low high. elim (Bool-cases (eqb i start)) [
      | inr e ↦ s.refused one is_kept unseen i (ground (arith, e, low, one)) high
      | inl e ↦ elim (Bool-cases saw') [
        | inl f ↦ absurd (ground (arith, s.saw_stays f, unseen))
        | inr f ↦
            let at : start ≡ i = ground (arith, e) in
            let next : min (start + chunk) (length xs) ≡ i + 1 = omega (arith, at, one, high) in
            subst (λ n. (is_empty (without i n xs) ≡ true) ⊎ Answered (without i n xs) fails) next
              (subst
                (λ n.
                  (is_empty (without n (min (start + chunk) (length xs)) xs) ≡ true)
                  ⊎ Answered (without n (min (start + chunk) (length xs)) xs) fails)
                at (here f))
      ]
    ];
  }

  cut_at-Reduces :
      (xs : List A) (chunk start count : ℕ)
      → 0 < chunk
      → start < length xs
      → is_empty (cut_at xs chunk start) ≡ false
      → (check predicate o (cut_at xs chunk start) count).1 ≡ reproduces
      → Reduces (cut_at xs chunk start) xs
  cut_at-Reduces xs chunk start count pos inside full e = record {
    sublist = without-IsSublist start (min (start + chunk) (length xs)) xs (omega (arith, inside));
    shorter = omega (
      arith,
      pos,
      inside,
      length-without start (min (start + chunk) (length xs)) xs (omega (arith, inside))
          (omega arith),
    );
    not_empty = full;
    reproduced = (count, e);
  }

  abbrev SweptOf : List A → ℕ → ℕ → Bool → (ℕ × Bool) × Sweep A → Type ℓ
  SweptOf xs chunk start saw r = Swept xs chunk start saw r

  -- A loop that ends here.
  Swept-here :
      (xs : List A) (chunk start count : ℕ) (saw : Bool) (s : Sweep A)
      → count ≤ o.max_evaluations
      → s ≢ stuck
      → ((ys : List A) → s ≡ reduced ys → Reduces ys xs)
      → (s ≡ kept → length xs ≤ start)
      → Swept xs chunk start saw ((count, saw), s)
  Swept-here xs chunk start count saw s low fine reduces over = record {
    bound = low;
    saw_stays = λ h. h;
    returns = fine;
    reduces = reduces;
    refused = λ one is_kept unseen i lo hi. absurd (omega (arith, over is_kept, lo, hi));
  }

  pub sweep-Swept :
      (fuel : ℕ) (xs : List A) (chunk start count : ℕ) (saw : Bool)
      → 0 < chunk
      → length xs - start < fuel
      → count ≤ o.max_evaluations
      → Swept xs chunk start saw (sweep predicate fuel o xs chunk start count saw)
  unfolding sweep
  sweep-Swept zero xs chunk start count saw pos enough low = absurd (omega (arith, enough))
  sweep-Swept (suc fuel) xs chunk start count saw pos enough low =
      if_split (SweptOf xs chunk start saw) (not (ltb start (length xs))) _ _
        (λ over.
          Swept-here xs chunk start count saw kept low (ground arith)
            (λ ys h. absurd (ground (arith, h))) (λ _. ground (arith, over)))
        (λ inside.
          let is_inside : start < length xs = ground (arith, inside) in
          let candidate = cut_at xs chunk start in
          let answer = check predicate o candidate count in
          let low' = check-bound predicate o candidate count low in
          if_split (SweptOf xs chunk start saw) (is_empty candidate) _ _
            (λ none_left.
              Swept-on xs chunk start saw saw _ (λ h. h) (λ _. inl none_left) is_inside
                (sweep-Swept fuel xs chunk (start + chunk) count saw pos (omega (arith, is_inside))
                  low))
            (λ full. elim (Answer-cases answer.1) [
              | inl e ↦ rw e (
                  Swept-here xs chunk start answer.0 saw (reduced candidate) low' (ground arith)
                    (λ ys h.
                      subst (λ zs. Reduces zs xs) (reduced_injective candidate ys h)
                        (cut_at-Reduces xs chunk start count pos is_inside full e))
                    (λ h. absurd (ground (arith, h))))
              | inr (inl e) ↦ rw e (
                  Swept-on xs chunk start saw saw _ (λ h. h) (λ _. inr (count, e)) is_inside
                    (sweep-Swept fuel xs chunk (start + chunk) answer.0 saw pos
                      (omega (arith, is_inside)) low'))
              | inr (inr (inl e)) ↦ rw e (
                  Swept-on xs chunk start saw true _ (λ _. refl) (λ h. absurd (ground (arith, h)))
                    is_inside
                    (sweep-Swept fuel xs chunk (start + chunk) answer.0 true pos
                      (omega (arith, is_inside)) low'))
              | inr (inr (inr e)) ↦ rw e (
                  Swept-here xs chunk start answer.0 saw exhausted low' (ground arith)
                    (λ ys h. absurd (ground (arith, h))) (λ h. absurd (ground (arith, h))))
            ]))
