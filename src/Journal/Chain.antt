-- ===== src/Journal/Chain.antt =====
-- The chain of events of internal/provenance/journal.go: `Append` against `Verify`, and its digests.
use agentapi_doctor.Common.{
  ℕ, ◌+◌, ◌≡◌, ◌≢◌, ◌⊎◌, String, Bool, true, false, ◌&&◌, List, [], ◌∷◌, ◌++◌, some, ◌==◌,
  string_eq, eqb, length, arith, refl, sym, ◌∙◌, any, inl, inr, Option-cases, Bool-cases, nat_eq,
  ap,
}
use agentapi_doctor.Journal.{
  Event, EventInput, Journal, Hash, journal_schema, zero_digest, before_start, projection,
  is_transition, new_journal, is_event_fields, is_next, verify_from, verify, last_digest,
  last_status, last_offset, next_event, append, append_all,
}

-- The status of a run that is over.
abbrev pub IsOver : String → Type 0
IsOver status = (status ≡ "completed") ⊎ (status ≡ "cancelled") ⊎ (status ≡ "errored")

abbrev pub same_event : Event → Event → Bool
same_event e f =
    e.schema_version == f.schema_version
    && e.run_id == f.run_id
    && eqb e.sequence f.sequence
    && e.previous_digest == f.previous_digest
    && e.event_type == f.event_type
    && e.status == f.status
    && eqb e.occurred_at f.occurred_at
    && eqb e.monotonic_offset f.monotonic_offset
    && e.payload_digest == f.payload_digest
    && e.event_digest == f.event_digest

same_event-holds : (e f : Event) → same_event e f ≡ true → e ≡ f
same_event-holds e f h = ground (
  arith,
  string_eq.test_iff e.schema_version f.schema_version,
  string_eq.test_iff e.run_id f.run_id,
  string_eq.test_iff e.previous_digest f.previous_digest,
  string_eq.test_iff e.event_type f.event_type,
  string_eq.test_iff e.status f.status,
  string_eq.test_iff e.payload_digest f.payload_digest,
  string_eq.test_iff e.event_digest f.event_digest,
)

same_event_self : (e : Event) → same_event e e ≡ true
same_event_self e = ground (
  arith,
  string_eq.test_iff e.schema_version e.schema_version,
  string_eq.test_iff e.run_id e.run_id,
  string_eq.test_iff e.previous_digest e.previous_digest,
  string_eq.test_iff e.event_type e.event_type,
  string_eq.test_iff e.status e.status,
  string_eq.test_iff e.payload_digest e.payload_digest,
  string_eq.test_iff e.event_digest e.event_digest,
)

same_event-fails : (e f : Event) → same_event e f ≡ false → e ≢ f
same_event-fails e f h q = ground (arith, h, ap (same_event e) q, same_event_self e)

module _ (k : Hash) where
  verify_from-append :
      (run_id : String) (n m : ℕ) (previous status : String) (before : ℕ) (es : List Event)
      (e : Event)
      → verify_from k run_id n previous status before es ≡ true
      → m ≡ n + length es
      → is_next k run_id m
          (last_digest previous es)
          (last_status status es)
          (last_offset before es)
          e
        ≡ true
      → verify_from k run_id n previous status before (es ++ e ∷ []) ≡ true
  unfolding verify_from
  verify_from-append run_id n m previous status before [] e h s g =
      let same : m ≡ n = omega (arith, s) in ground (arith, g, same)
  verify_from-append run_id n m previous status before (x ∷ es) e h s g =
      let next : m ≡ (n + 1) + length es = omega (arith, s) in
      ground (
        arith,
        h,
        verify_from-append run_id (n + 1) m x.event_digest x.status x.monotonic_offset es e
            (ground (arith, h)) next g,
      )

  -- An event that `Append` accepts is one that `Verify` accepts next.
  appended :
      (j : Journal) (i : EventInput) (d : String)
      → is_transition (last_status "" j.events) i.status ≡ true
      → is_event_fields k
          (last_offset before_start j.events)
          i.event_type
          i.occurred_at
          i.monotonic_offset
        ≡ true
      → k.is_digest i.payload_digest ≡ true
      → k.digest (next_event j i) ≡ some d
      → is_next k j.run_id
          (length j.events)
          (last_digest zero_digest j.events)
          (last_status "" j.events)
          (last_offset before_start j.events)
          (record (next_event j i) { event_digest = d })
        ≡ true
  unfolding is_next next_event
  appended j i d moves fields payload digests = ground (
    arith,
    moves,
    fields,
    payload,
    digests,
    string_eq.test_iff journal_schema journal_schema,
    string_eq.test_iff j.run_id j.run_id,
    string_eq.test_iff d d,
    string_eq.test_iff (last_digest zero_digest j.events) (last_digest zero_digest j.events),
  )

  append-verify :
      (j : Journal) (i : EventInput) → verify k j ≡ true → verify k (append k j i).0 ≡ true
  unfolding append verify
  append-verify j i h = elim (Bool-cases (is_transition (last_status "" j.events) i.status)) [
    | inr e ↦ ground (arith, h)
    | inl moves ↦
        elim (Bool-cases (
          is_event_fields k (last_offset before_start j.events) i.event_type i.occurred_at
            i.monotonic_offset)) [
              | inr e ↦ ground (arith, h)
              | inl fields ↦ elim (Bool-cases (k.is_digest i.payload_digest)) [
                | inr e ↦ ground (arith, h)
                | inl payload ↦ elim (Option-cases (k.digest (next_event j i))) [
                  | inl e ↦ ground (arith, h)
                  | inr (d, digests) ↦ ground (
                    arith,
                    verify_from-append j.run_id 0 (length j.events) zero_digest "" before_start
                        j.events (record (next_event j i) { event_digest = d }) h (omega arith)
                        (appended j i d moves fields payload digests),
                  )
                ]
              ]
            ]
  ]

  append_all-verify :
      (j : Journal) (inputs : List EventInput)
      → verify k j ≡ true
      → verify k (append_all k j inputs) ≡ true
  unfolding append_all
  append_all-verify j [] h = h
  append_all-verify j (i ∷ rest) h = append_all-verify (append k j i).0 rest (append-verify j i h)

  -- Whatever is appended to a new journal, the refused inputs left out, the journal verifies.
  pub new_journal-verify :
      (run_id : String) (j : Journal) (inputs : List EventInput)
      → new_journal k run_id ≡ some j
      → verify k (append_all k j inputs) ≡ true
  unfolding new_journal verify verify_from
  new_journal-verify run_id j inputs h = append_all-verify j inputs (ground arith)

  over_no_transition : (status next : String) → IsOver status → is_transition status next ≡ false
  unfolding is_transition
  over_no_transition status next (inl e) = rw e refl
  over_no_transition status next (inr (inl e)) = rw e refl
  over_no_transition status next (inr (inr e)) = rw e refl

  append_over :
      (j : Journal) (i : EventInput) → IsOver (last_status "" j.events) → (append k j i).0 ≡ j
  unfolding append
  append_over j i h = ground (arith, over_no_transition (last_status "" j.events) i.status h)

  -- Nothing can be appended to the journal of a run that has completed, was cancelled or failed.
  pub append_all_over :
      (j : Journal) (inputs : List EventInput)
      → IsOver (last_status "" j.events)
      → append_all k j inputs ≡ j
  unfolding append_all
  append_all_over j [] h = refl
  append_all_over j (i ∷ rest) h = rw (append_over j i h) (append_all_over j rest h)

  -- An event of each list: they differ in what is digested, and have the same digest.
  pub record Collision (es fs : List Event) : Type 0 where
    pub left : Event
    pub right : Event
    pub of_first : any (same_event left) es ≡ true
    pub of_second : any (same_event right) fs ≡ true
    pub differ : projection left ≢ projection right
    pub digest : String
    pub of_left : k.digest (projection left) ≡ some digest
    pub of_right : k.digest (projection right) ≡ some digest

  later-Collision :
      (e f : Event) (es fs : List Event) → Collision es fs → Collision (e ∷ es) (f ∷ fs)
  later-Collision e f es fs c = record {
    left = c.left;
    right = c.right;
    of_first = ground (arith, c.of_first);
    of_second = ground (arith, c.of_second);
    differ = c.differ;
    digest = c.digest;
    of_left = c.of_left;
    of_right = c.of_right;
  }

  event_cases : (e f : Event) → (e ≡ f) ⊎ (e ≢ f)
  event_cases e f = elim (Bool-cases (same_event e f)) [
    | inl h ↦ inl (same_event-holds e f h)
    | inr h ↦ inr (λ q. same_event-fails e f h q)
  ]

  is_next_links :
      (run_id : String) (n : ℕ) (previous status : String) (before : ℕ) (e : Event)
      → is_next k run_id n previous status before e ≡ true
      → (e.previous_digest ≡ previous) × (k.digest (projection e) ≡ some e.event_digest)
  unfolding is_next
  is_next_links run_id n previous status before e h =
      elim (Option-cases (k.digest (projection e))) [
        | inl g ↦ absurd (ground (arith, h))
        | inr (d, g) ↦ ground (
          arith,
          h,
          string_eq.test_iff e.previous_digest previous,
          string_eq.test_iff d e.event_digest,
        )
      ]

  -- Two chains of as many events that end in the same digest are the same from their first link on,
  -- or an event of one collides with an event of the other.
  chains_agree :
      (run_id run_id' : String) (n n' : ℕ) (previous previous' status status' : String)
      (before before' : ℕ) (es fs : List Event)
      → verify_from k run_id n previous status before es ≡ true
      → verify_from k run_id' n' previous' status' before' fs ≡ true
      → length es ≡ length fs
      → last_digest previous es ≡ last_digest previous' fs
      → ((es ≡ fs) × (previous ≡ previous')) ⊎ Collision es fs
  unfolding verify_from
  chains_agree run_id run_id' n n' previous previous' status status' before before' [] [] h g l
        last =
      inl (refl, last)
  chains_agree run_id run_id' n n' previous previous' status status' before before' [] (f ∷ fs) h g
        l last =
      absurd (omega (arith, l))
  chains_agree run_id run_id' n n' previous previous' status status' before before' (e ∷ es) [] h g
        l last =
      absurd (omega (arith, l))
  chains_agree run_id run_id' n n' previous previous' status status' before before' (e ∷ es)
        (f ∷ fs) h g l last =
      let (link, digest) = is_next_links run_id n previous status before e (ground (arith, h)) in
      let (link', digest') =
        is_next_links run_id' n' previous' status' before' f (ground (arith, g)) in
      elim (chains_agree run_id run_id' (n + 1) (n' + 1) e.event_digest f.event_digest e.status
        f.status e.monotonic_offset f.monotonic_offset es fs (ground (arith, h)) (ground (arith, g))
        (omega (arith, l)) last) [
          | inr c ↦ inr (later-Collision e f es fs c)
          | inl (rest, same) ↦ elim (event_cases (projection e) (projection f)) [
            | inl q ↦ inl (ground (arith, rest, same, q), ground (arith, link, link', q))
            | inr q ↦ inr (record {
              left = e;
              right = f;
              of_first = ground (arith, same_event_self e);
              of_second = ground (arith, same_event_self f);
              differ = q;
              digest = e.event_digest;
              of_left = digest;
              of_right = digest' ∙ ap some (sym same);
            })
          ]
        ]

  -- Two journals that verify, have as many events and end in the same digest have the same events,
  -- or an event of the first collides with an event of the second: the two differ in what is
  -- digested, and have the same digest.
  pub last_digest_commits :
      (j i : Journal)
      → verify k j ≡ true
      → verify k i ≡ true
      → length j.events ≡ length i.events
      → last_digest zero_digest j.events ≡ last_digest zero_digest i.events
      → (j.events ≡ i.events) ⊎ Collision j.events i.events
  unfolding verify
  last_digest_commits j i h g l last =
      elim (chains_agree j.run_id i.run_id 0 0 zero_digest zero_digest "" "" before_start
        before_start j.events i.events h g l last) [ inl (same, _) ↦ inl same | inr c ↦ inr c ]
