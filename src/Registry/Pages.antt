-- ===== src/Registry/Pages.antt =====
-- Walking through the pages of `ListObservations` of internal/registry/store/memory.go.
use agentapi_doctor.Common.{
  ℕ, zero, suc, ◌≡◌, ◌≢◌, ◌<◌, ◌≤◌, String, Bool, true, false, not, ◌&&◌, ◌||◌, List, [], ◌∷◌, ◌++◌,
  Option, none, some, ◌==◌, string_eq, ltb, if◌then◌else◌, is_some, all, any, Result, ok, err,
  length, take, drop, last?, arith, refl, sym, ap, ◌∙◌, subst, Bool-cases, Option-cases, inl, inr,
  length-take, length-drop,
}
use mathlib.Core.List.{append_assoc}
use agentapi_doctor.Schema.{parse_digest}
use agentapi_doctor.Registry.Sift.{
  sift, sift-all, sift-sift, split_full, last-append, take_all, take-take, take-drop,
}
use agentapi_doctor.Registry.Store.{
  StoreError, ObservationFilter, ObservationIndex, ObservationPage, Observations, Cursors, matches,
  select, page_of, decode_cursor, list_observations,
}

-- A part of a filter that is empty asks for nothing.
abbrev pub asks_for : String × String → Bool
asks_for (wanted, found) = wanted == "" || wanted == found

-- An index is what a filter asks for: each text, and the trust label among its labels.
abbrev pub suits : ObservationFilter → ObservationIndex → Bool
suits f index =
    all asks_for (
      (f.subject, index.subject)
      ∷ (f.version, index.version)
      ∷ (f.pack, index.pack)
      ∷ (f.profile, index.profile)
      ∷ (f.fresh, index.freshness)
      ∷ [])
    && (f.trust == "" || any (λ label. label == f.trust) index.trust_labels)

matches-suits : (f : ObservationFilter) (index : ObservationIndex) → matches f index ≡ suits f index
unfolding matches
matches-suits f index = ground arith

module _ {O : Type 0} (api : Observations O) (precedes : String → String → Bool) where
  -- The observations stand in the order of their ids, and no id comes twice.
  unfoldable pub ascending : List O → Bool
  ascending [] = true
  ascending (x ∷ xs) = all (λ y. precedes (api.id x) (api.id y)) xs && ascending xs

  unfoldable pub fits : ObservationFilter → O → Bool
  fits f o = elim (api.index o) [ none ↦ false | some index ↦ suits f index ]

  matches-fits :
      (f : ObservationFilter) (o : O)
      → (elim (api.index o) as (λ _. Bool) [ none ↦ false | some index ↦ matches f index ])
        ≡ fits f o
  unfolding fits
  matches-fits f o = elim (Option-cases (api.index o)) [
    | inl e ↦ rw (e, fits) refl
    | inr (index, e) ↦ rw (e, fits) (matches-suits f index)
  ]

  abbrev pub is_later : String → O → Bool
  is_later after o = after == "" || precedes after (api.id o)

  select-sift :
      (f : ObservationFilter) (after : String) (room : ℕ) (items : List O)
      → all (λ o. is_some (api.index o)) items ≡ true
      → select api precedes f after room items
        ≡ ok (take room (sift (λ o. is_later after o && fits f o) items))
  unfolding select fits
  select-sift f after zero items h = refl
  select-sift f after (suc room) [] h = refl
  select-sift f after (suc room) (o ∷ rest) h =
      let i : all (λ x. is_some (api.index x)) rest ≡ true = ground (arith, h) in
      ground (
        arith,
        h,
        matches-fits f o,
        select-sift f after (suc room) rest i,
        select-sift f after room rest i,
      )

  all_middle :
      (p : O → Bool) (pre : List O) (x : O) (rest : List O)
      → all p (pre ++ x ∷ rest) ≡ true
      → p x ≡ true
  all_middle p [] x rest h = ground (arith, h)
  all_middle p (y ∷ pre) x rest h = all_middle p pre x rest (ground (arith, h))

  all-sift : (p q : O → Bool) (xs : List O) → all p xs ≡ true → all p (sift q xs) ≡ true
  all-sift p q [] h = refl
  all-sift p q (x ∷ xs) h = ground (arith, h, all-sift p q xs)

  ascending-sift : (q : O → Bool) (xs : List O) → ascending xs ≡ true → ascending (sift q xs) ≡ true
  unfolding ascending
  ascending-sift q [] h = refl
  ascending-sift q (x ∷ xs) h =
      ground (arith, h, ascending-sift q xs, all-sift (λ y. precedes (api.id x) (api.id y)) q xs)

  -- The order of ids: strict, and each step of it can be taken twice.
  pub record Order : Type 0 where
    pub trans : (a b d : String) → precedes a b ≡ true → precedes b d ≡ true → precedes a d ≡ true
    pub irrefl : (a : String) → precedes a a ≡ false

  behind :
      (order : Order) (pre : List O) (x : O) (rest : List O)
      → ascending (pre ++ x ∷ rest) ≡ true
      → sift (λ o. precedes (api.id x) (api.id o)) (pre ++ x ∷ rest) ≡ rest
  unfolding ascending
  behind order [] x rest h =
      ground
        (arith, h, order.irrefl (api.id x), sift-all (λ o. precedes (api.id x) (api.id o)) rest)
  behind order (y ∷ pre) x rest h =
      let before : precedes (api.id y) (api.id x) ≡ true =
        all_middle (λ o. precedes (api.id y) (api.id o)) pre x rest (ground (arith, h)) in
      ground (
        arith,
        h,
        before,
        order.trans (api.id y) (api.id x) (api.id y),
        order.irrefl (api.id y),
        behind order pre x rest,
      )

  later_named :
      (id : String) (xs : List O)
      → not (id == "") ≡ true
      → sift (is_later id) xs ≡ sift (λ o. precedes id (api.id o)) xs
  later_named id [] h = refl
  later_named id (x ∷ xs) h = ground (arith, h, later_named id xs h)

-- What is encoded decodes to itself again, and only the empty text is encoded as the empty text.
pub record Faithful (c : Cursors) : Type 0 where
  pub decodes : (id : String) → c.decode (c.encode id) ≡ some id
  pub shows : (id : String) → id ≢ "" → c.encode id ≢ ""

parse_digest-some : (id : String) → is_some (parse_digest id) ≡ true → parse_digest id ≡ some id
unfolding parse_digest
parse_digest-some id h = ground (arith, h)

-- A digest is not the empty text.
digest_named : (id : String) → is_some (parse_digest id) ≡ true → not (id == "") ≡ true
unfolding parse_digest
digest_named id h = elim (Bool-cases (id == "")) [
  | inr e ↦ rw e refl
  | inl e ↦
      let empty : id ≡ "" = ground (arith, e, string_eq.test_iff id "") in
      absurd (ground (arith, subst (λ t. is_some (parse_digest t) ≡ true) empty h))
]

module _ {O : Type 0} (api : Observations O) (c : Cursors) (precedes : String → String → Bool)
    (items : List O) (f : ObservationFilter) (limit : ℕ) where
  abbrev page_at : String → Result StoreError (ObservationPage O)
  page_at cursor = list_observations api c precedes items f cursor limit

  -- A client that follows the cursors, from one on, and joins the pages; `none` when its fuel is spent or a page is refused.
  unfoldable pub walk : ℕ → String → Option (List O)
  walk zero cursor = none
  walk (suc fuel) cursor = elim (page_at cursor) [
    | err e ↦ none
    | ok page ↦
        let more = walk fuel page.next_cursor in
        if page.next_cursor == ""
        then some page.items
        else elim more [ none ↦ none | some rest ↦ some (page.items ++ rest) ]
  ]

  module _ (faithful : Faithful c) (order : Order api precedes) (low : 1 ≤ limit)
      (high : limit ≤ 100) (indexed : all (λ o. is_some (api.index o)) items ≡ true)
      (digests : all (λ o. is_some (parse_digest (api.id o))) items ≡ true)
      (sorted : ascending api precedes items ≡ true) where
    abbrev fitting : List O
    fitting = sift (fits api precedes f) items

    -- The page at a cursor, from what stands behind it.
    page_rest :
        (cursor after : String) (rest : List O)
        → decode_cursor c cursor ≡ some after
        → sift (is_later api precedes after) fitting ≡ rest
        → page_at cursor ≡ ok (page_of api c limit (take (suc limit) rest))
    unfolding list_observations
    page_rest cursor after rest e behind_it = ground (
      arith,
      low,
      high,
      e,
      behind_it,
      select-sift api precedes f after (suc limit) items indexed,
      sift-sift (is_later api precedes after) (fits api precedes f) items,
    )

    page_last :
        (rest : List O)
        → ltb limit (length rest) ≡ false
        → page_of api c limit (take (suc limit) rest) ≡ record { items = rest; next_cursor = "" }
    unfolding page_of
    page_last rest fit =
        let whole : take (suc limit) rest ≡ rest =
          take_all (suc limit) rest (ground (arith, fit)) in
        rw (whole, page_of) (ground (arith, fit))

    full_length : (rest : List O) → ltb limit (length rest) ≡ true → limit < length rest
    full_length rest h = ground (arith, h)

    page_full :
        (rest : List O) (x : O)
        → ltb limit (length rest) ≡ true
        → last? (take limit rest) ≡ some x
        → page_of api c limit (take (suc limit) rest)
          ≡ record { items = take limit rest; next_cursor = c.encode (api.id x) }
    unfolding page_of
    page_full rest x full ends =
        ground (arith, full, ends, take-take limit rest, length-take (suc limit) rest)

    next_decoded :
        (id : String)
        → is_some (parse_digest id) ≡ true
        → (decode_cursor c (c.encode id) ≡ some id) × ((c.encode id == "") ≡ false)
    unfolding decode_cursor
    next_decoded id h =
        let shown : c.encode id ≢ "" =
          faithful.shows id (ground (arith, digest_named id h, string_eq.test_iff id "")) in
        ground (
          arith,
          shown,
          faithful.decodes id,
          parse_digest-some id h,
          string_eq.test_iff (c.encode id) "",
        )

    -- Behind the last observation of a full page stands what the page leaves.
    next_behind :
        (pre front : List O) (x : O) (rest : List O)
        → fitting ≡ (pre ++ front) ++ x ∷ rest
        → (is_some (parse_digest (api.id x)) ≡ true)
          × (sift (is_later api precedes (api.id x)) fitting ≡ rest)
    next_behind pre front x rest whole =
        let known : is_some (parse_digest (api.id x)) ≡ true =
          all_middle api precedes (λ o. is_some (parse_digest (api.id o))) (pre ++ front) x rest
            (subst (λ zs. all (λ o. is_some (parse_digest (api.id o))) zs ≡ true) whole
              (all-sift api precedes (λ o. is_some (parse_digest (api.id o))) (fits api precedes f)
                items digests)) in
        let up : ascending api precedes ((pre ++ front) ++ x ∷ rest) ≡ true =
          subst (λ zs. ascending api precedes zs ≡ true) whole
            (ascending-sift api precedes (fits api precedes f) items sorted) in
        (
          known,
          later_named api precedes (api.id x) fitting (digest_named (api.id x) known)
              ∙ ap (sift (λ o. precedes (api.id x) (api.id o))) whole
              ∙ behind api precedes order (pre ++ front) x rest up,
        )

    walk-rest :
        (fuel : ℕ) (cursor after : String) (pre rest : List O)
        → decode_cursor c cursor ≡ some after
        → fitting ≡ pre ++ rest
        → sift (is_later api precedes after) fitting ≡ rest
        → length rest < fuel
        → walk fuel cursor ≡ some rest
    unfolding walk page_of
    walk-rest zero cursor after pre rest e whole behind_it enough = absurd (omega (arith, enough))
    walk-rest (suc fuel) cursor after pre rest e whole behind_it enough =
        elim (Bool-cases (ltb limit (length rest))) [
          | inr fit ↦
              let same : page_at cursor ≡ ok (record { items = rest; next_cursor = "" }) =
                page_rest cursor after rest e behind_it ∙ ap ok (page_last rest fit) in
              rw (same, walk) refl
          | inl full ↦
              let split = split_full limit rest low (ground (arith, full)) in
              let front = split.0 in
              let x = split.1 in
              let left = drop limit rest in
              let same : page_at cursor
                  ≡ ok (record { items = take limit rest; next_cursor = c.encode (api.id x) }) =
                page_rest cursor after rest e behind_it
                ∙ ap ok (page_full rest x full (ap last? split.2 ∙ last-append front x)) in
              let joined : fitting ≡ (pre ++ front) ++ x ∷ left =
                whole ∙ ap (λ zs. pre ++ zs) split.3 ∙ sym (append_assoc pre front (x ∷ left)) in
              let next = next_behind pre front x left joined in
              let decoded = next_decoded (api.id x) next.0 in
              let more : walk fuel (c.encode (api.id x)) ≡ some left =
                walk-rest fuel (c.encode (api.id x)) (api.id x) ((pre ++ front) ++ x ∷ []) left
                  decoded.0 (joined ∙ sym (append_assoc (pre ++ front) (x ∷ []) left)) next.1
                  (omega (arith, enough, low, length-drop limit rest, full_length rest full)) in
              rw (same, walk) (rw (decoded.1, more) (ap some (take-drop limit rest)))
        ]

    -- A client that starts without a cursor and follows the cursors gets, in the order of their ids,
    -- all published observations that fit to the filter, each once, and comes to an end: of the order
    -- of ids, that it is strict and transitive; of base64, that what is encoded decodes to itself
    -- again, and is empty only for the empty text; where every published observation has a digest, by
    -- `ParseDigest`, as its id, and an index, they are sorted, and the limit is between 1 and 100.
    pub walk-fitting : walk (suc (length items)) "" ≡ some fitting
    unfolding decode_cursor
    walk-fitting =
        walk-rest (suc (length items)) "" "" [] fitting refl refl
          (sift-all (is_later api precedes "") fitting (every fitting)) (length-sift items)
      where
        every : (xs : List O) → all (is_later api precedes "") xs ≡ true
        every [] = refl
        every (x ∷ xs) = every xs

        length-sift : (xs : List O) → length (sift (fits api precedes f) xs) < suc (length xs)
        length-sift [] = omega arith
        length-sift (x ∷ xs) = ground (arith, length-sift xs)
