-- ===== src/Registry/Archive.antt =====
-- What the store of internal/registry/store/memory.go never loses.
use agentapi_doctor.Common.{
  ◌≡◌, String, true, List, [], ◌∷◌, some, string_eq, is_some, lookup, Result, ok, err, arith, refl,
  Option-cases, inl, inr, lookup-insert,
}
use agentapi_doctor.Registry.Store.{
  StoreError, add_bearer_token, set_bearer_token, put_staged_observation, put_published_observation,
}
use agentapi_doctor.Registry.Memory.{
  Artifact, Memory, Reads, Call, adds_token, sets_token, creates_ingest, updates_ingest, stages,
  publishes, challenges_owner, owns, disputes_with, installs, artifact_key, stored, new_memory,
  put_new, create_ingest, update_ingest, put_artifact, write, run,
}

-- Every entry is still there, with the same value.
abbrev pub Grows {ℓ} : {A : Type ℓ} → List (String × A) → List (String × A) → Type ℓ
Grows {A = A} entries after =
    (key : String) (x : A) → lookup key entries ≡ some x → lookup key after ≡ some x

put_new-Grows {ℓ} :
    {A : Type ℓ} (new : String) (value : A) (entries after : List (String × A))
    → put_new new value entries ≡ ok after
    → Grows entries after
put_new-Grows new value entries after h key x known =
    ground (arith, h, known, lookup-insert new key value entries, string_eq.test_iff new key)

module _ {O Session Ownership Challenge Dispute : Type 0}
    (k : Reads O Session Ownership Challenge Dispute) where
  -- What stays of a store.
  pub record Kept (m m' : Memory O Session Ownership Challenge Dispute) : Type 0 where
    pub staged : Grows m.staged m'.staged
    pub observed : Grows m.observed m'.observed
    pub challenges : Grows m.challenges m'.challenges
    pub disputes : Grows m.disputes m'.disputes
    pub artifacts : Grows m.artifacts m'.artifacts

  -- Each published observation stands under its own id, is valid and has an index; the digest of each artifact is that of its document.
  pub record Sound (m : Memory O Session Ownership Challenge Dispute) : Type 0 where
    pub observed :
        (id : String) (o : O)
        → lookup id m.observed ≡ some o
        → (k.observations.id o ≡ id)
          × (k.observations.is_valid o ≡ true)
          × (is_some (k.observations.index o) ≡ true)
    pub artifacts :
        (key : String) (a : Artifact)
        → lookup key m.artifacts ≡ some a
        → k.new_digest a.document ≡ a.digest

  put_staged-Grows :
      (staged after : List (String × O)) (id : String) (o : O)
      → put_staged_observation k.observations staged id o ≡ ok after
      → Grows staged after
  unfolding put_staged_observation
  put_staged-Grows staged after id o h key x known =
      ground (arith, h, known, lookup-insert id key o staged, string_eq.test_iff id key)

  put_published-Grows :
      (observed after : List (String × O)) (o : O)
      → put_published_observation k.observations observed o ≡ ok after
      → Grows observed after
  unfolding put_published_observation
  put_published-Grows observed after o h key x known = ground (
    arith,
    h,
    known,
    lookup-insert (k.observations.id o) key o observed,
    string_eq.test_iff (k.observations.id o) key,
  )

  put_artifact-Grows :
      (artifacts after : List (String × Artifact)) (a : Artifact)
      → put_artifact k artifacts a ≡ ok after
      → Grows artifacts after
  unfolding put_artifact
  put_artifact-Grows artifacts after a h key x known =
      elim (Option-cases (k.canonical a.document)) [
        | inl unreadable ↦ absurd (ground (arith, h, unreadable))
        | inr (text, e) ↦ ground (
          arith,
          h,
          e,
          known,
          lookup-insert (artifact_key a.kind a.name a.version) key (record a { document = text })
              artifacts,
          string_eq.test_iff (artifact_key a.kind a.name a.version) key,
        )
      ]

  -- A write is refused, or puts its map back.
  stored_split {ℓ κ} :
      {A : Type ℓ} (Goal : Memory O Session Ownership Challenge Dispute → Type κ)
      (m : Memory O Session Ownership Challenge Dispute)
      (put : A → Memory O Session Ownership Challenge Dispute) (r : Result StoreError A)
      → Goal m
      → ((after : A) → r ≡ ok after → Goal (put after))
      → Goal (stored k m put r).0
  stored_split Goal m put (err e) same changed = same
  stored_split Goal m put (ok entries) same changed = changed entries refl

  same-Kept : (m : Memory O Session Ownership Challenge Dispute) → Kept m m
  same-Kept m = record {
    staged = λ key x h. h;
    observed = λ key x h. h;
    challenges = λ key x h. h;
    disputes = λ key x h. h;
    artifacts = λ key x h. h;
  }

  write-Kept :
      (m : Memory O Session Ownership Challenge Dispute)
      (c : Call O Session Ownership Challenge Dispute)
      → Kept m (write k m c).0
  unfolding write
  write-Kept m (adds_token token p at) =
      stored_split (Kept m) m (λ entries. record m { tokens = entries })
        (add_bearer_token k.is_token k.is_principal k.hash m.tokens token p at) (same-Kept m)
        (λ after e. record {
          staged = λ key x h. h;
          observed = λ key x h. h;
          challenges = λ key x h. h;
          disputes = λ key x h. h;
          artifacts = λ key x h. h;
        })
  write-Kept m (sets_token token p at) =
      stored_split (Kept m) m (λ entries. record m { tokens = entries })
        (set_bearer_token k.is_token k.is_principal k.hash m.tokens token p at) (same-Kept m)
        (λ after e. record {
          staged = λ key x h. h;
          observed = λ key x h. h;
          challenges = λ key x h. h;
          disputes = λ key x h. h;
          artifacts = λ key x h. h;
        })
  write-Kept m (creates_ingest r) =
      stored_split (Kept m) m (λ entries. record m { ingests = entries })
        (create_ingest k m.ingests r) (same-Kept m)
        (λ after e. record {
          staged = λ key x h. h;
          observed = λ key x h. h;
          challenges = λ key x h. h;
          disputes = λ key x h. h;
          artifacts = λ key x h. h;
        })
  write-Kept m (updates_ingest r) =
      stored_split (Kept m) m (λ entries. record m { ingests = entries })
        (update_ingest k m.ingests r) (same-Kept m)
        (λ after e. record {
          staged = λ key x h. h;
          observed = λ key x h. h;
          challenges = λ key x h. h;
          disputes = λ key x h. h;
          artifacts = λ key x h. h;
        })
  write-Kept m (stages id o) =
      stored_split (Kept m) m (λ entries. record m { staged = entries })
        (put_staged_observation k.observations m.staged id o) (same-Kept m)
        (λ after e. record {
          staged = put_staged-Grows m.staged after id o e;
          observed = λ key x h. h;
          challenges = λ key x h. h;
          disputes = λ key x h. h;
          artifacts = λ key x h. h;
        })
  write-Kept m (publishes o) =
      stored_split (Kept m) m (λ entries. record m { observed = entries })
        (put_published_observation k.observations m.observed o) (same-Kept m)
        (λ after e. record {
          staged = λ key x h. h;
          observed = put_published-Grows m.observed after o e;
          challenges = λ key x h. h;
          disputes = λ key x h. h;
          artifacts = λ key x h. h;
        })
  write-Kept m (challenges_owner c) =
      stored_split (Kept m) m (λ entries. record m { challenges = entries })
        (put_new (k.challenge_id c) c m.challenges) (same-Kept m)
        (λ after e. record {
          staged = λ key x h. h;
          observed = λ key x h. h;
          challenges = put_new-Grows (k.challenge_id c) c m.challenges after e;
          disputes = λ key x h. h;
          artifacts = λ key x h. h;
        })
  write-Kept m (owns o) = record {
    staged = λ key x h. h;
    observed = λ key x h. h;
    challenges = λ key x h. h;
    disputes = λ key x h. h;
    artifacts = λ key x h. h;
  }
  write-Kept m (disputes_with d) =
      stored_split (Kept m) m (λ entries. record m { disputes = entries })
        (put_new (k.dispute_id d) d m.disputes) (same-Kept m)
        (λ after e. record {
          staged = λ key x h. h;
          observed = λ key x h. h;
          challenges = λ key x h. h;
          disputes = put_new-Grows (k.dispute_id d) d m.disputes after e;
          artifacts = λ key x h. h;
        })
  write-Kept m (installs a) =
      stored_split (Kept m) m (λ entries. record m { artifacts = entries })
        (put_artifact k m.artifacts a) (same-Kept m)
        (λ after e. record {
          staged = λ key x h. h;
          observed = λ key x h. h;
          challenges = λ key x h. h;
          disputes = λ key x h. h;
          artifacts = put_artifact-Grows m.artifacts after a e;
        })

  run-Kept :
      (m : Memory O Session Ownership Challenge Dispute)
      (cs : List (Call O Session Ownership Challenge Dispute))
      → Kept m (run k m cs)
  unfolding run
  run-Kept m [] = same-Kept m
  run-Kept m (c ∷ cs) =
      let first = write-Kept m c in
      let rest = run-Kept (write k m c).0 cs in
      record {
        staged = λ key x h. rest.staged key x (first.staged key x h);
        observed = λ key x h. rest.observed key x (first.observed key x h);
        challenges = λ key x h. rest.challenges key x (first.challenges key x h);
        disputes = λ key x h. rest.disputes key x (first.disputes key x h);
        artifacts = λ key x h. rest.artifacts key x (first.artifacts key x h);
      }

  abbrev Listed : List (String × O) → Type 0
  Listed observed =
      (id : String) (o : O)
      → lookup id observed ≡ some o
      → (k.observations.id o ≡ id)
        × (k.observations.is_valid o ≡ true)
        × (is_some (k.observations.index o) ≡ true)

  abbrev Stamped : List (String × Artifact) → Type 0
  Stamped artifacts =
      (key : String) (a : Artifact)
      → lookup key artifacts ≡ some a
      → k.new_digest a.document ≡ a.digest

  put_published_sound :
      (observed after : List (String × O)) (o : O)
      → put_published_observation k.observations observed o ≡ ok after
      → Listed observed
      → Listed after
  unfolding put_published_observation
  put_published_sound observed after o e listed id o' found = ground (
    arith,
    e,
    found,
    listed id o',
    lookup-insert (k.observations.id o) id o observed,
    string_eq.test_iff (k.observations.id o) id,
  )

  put_artifact_sound :
      (artifacts after : List (String × Artifact)) (a : Artifact)
      → put_artifact k artifacts a ≡ ok after
      → Stamped artifacts
      → Stamped after
  unfolding put_artifact
  put_artifact_sound artifacts after a e stamped key a' found =
      elim (Option-cases (k.canonical a.document)) [
        | inl unreadable ↦ absurd (ground (arith, e, unreadable))
        | inr (text, read) ↦ ground (
          arith,
          e,
          read,
          found,
          stamped key a',
          lookup-insert (artifact_key a.kind a.name a.version) key (record a { document = text })
              artifacts,
          string_eq.test_iff (k.new_digest text) a.digest,
        )
      ]

  write-Sound :
      (m : Memory O Session Ownership Challenge Dispute)
      (c : Call O Session Ownership Challenge Dispute)
      → Sound m
      → Sound (write k m c).0
  unfolding write
  write-Sound m (adds_token token p at) sound =
      stored_split Sound m (λ entries. record m { tokens = entries })
        (add_bearer_token k.is_token k.is_principal k.hash m.tokens token p at) sound
        (λ after e. record { observed = sound.observed; artifacts = sound.artifacts })
  write-Sound m (sets_token token p at) sound =
      stored_split Sound m (λ entries. record m { tokens = entries })
        (set_bearer_token k.is_token k.is_principal k.hash m.tokens token p at) sound
        (λ after e. record { observed = sound.observed; artifacts = sound.artifacts })
  write-Sound m (creates_ingest r) sound =
      stored_split Sound m (λ entries. record m { ingests = entries }) (create_ingest k m.ingests r)
        sound (λ after e. record { observed = sound.observed; artifacts = sound.artifacts })
  write-Sound m (updates_ingest r) sound =
      stored_split Sound m (λ entries. record m { ingests = entries }) (update_ingest k m.ingests r)
        sound (λ after e. record { observed = sound.observed; artifacts = sound.artifacts })
  write-Sound m (stages id o) sound =
      stored_split Sound m (λ entries. record m { staged = entries })
        (put_staged_observation k.observations m.staged id o) sound
        (λ after e. record { observed = sound.observed; artifacts = sound.artifacts })
  write-Sound m (publishes o) sound =
      stored_split Sound m (λ entries. record m { observed = entries })
        (put_published_observation k.observations m.observed o) sound
        (λ after e. record {
          observed = put_published_sound m.observed after o e sound.observed;
          artifacts = sound.artifacts;
        })
  write-Sound m (challenges_owner c) sound =
      stored_split Sound m (λ entries. record m { challenges = entries })
        (put_new (k.challenge_id c) c m.challenges) sound
        (λ after e. record { observed = sound.observed; artifacts = sound.artifacts })
  write-Sound m (owns o) sound = record { observed = sound.observed; artifacts = sound.artifacts }
  write-Sound m (disputes_with d) sound =
      stored_split Sound m (λ entries. record m { disputes = entries })
        (put_new (k.dispute_id d) d m.disputes) sound
        (λ after e. record { observed = sound.observed; artifacts = sound.artifacts })
  write-Sound m (installs a) sound =
      stored_split Sound m (λ entries. record m { artifacts = entries })
        (put_artifact k m.artifacts a) sound
        (λ after e. record {
          observed = sound.observed;
          artifacts = put_artifact_sound m.artifacts after a e sound.artifacts;
        })

  run-Sound :
      (m : Memory O Session Ownership Challenge Dispute)
      (cs : List (Call O Session Ownership Challenge Dispute))
      → Sound m
      → Sound (run k m cs)
  unfolding run
  run-Sound m [] sound = sound
  run-Sound m (c ∷ cs) sound = run-Sound (write k m c).0 cs (write-Sound m c sound)

  -- Through every history of writes from the empty store, each published observation stands under its
  -- own id, is valid and can be listed, and each artifact has the digest of its document; and whatever
  -- further writes follow, every staged or published observation, challenge, dispute and artifact is still there, unchanged.
  pub run-new_memory-Kept :
      (calls later : List (Call O Session Ownership Challenge Dispute))
      → let m = run k new_memory calls in Sound m × Kept m (run k m later)
  unfolding new_memory lookup
  run-new_memory-Kept calls later =
      let empty : Sound new_memory = record {
        observed = λ id o h. absurd (ground (arith, h));
        artifacts = λ key a h. absurd (ground (arith, h));
      } in
      (run-Sound new_memory calls empty, run-Kept (run k new_memory calls) later)
