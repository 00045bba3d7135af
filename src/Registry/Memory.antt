-- ===== src/Registry/Memory.antt =====
-- The rest of internal/registry/store/memory.go: the whole store, and the calls that write to it. Each call
-- holds the lock, so it is one step; it returns the store, with the error if there is one.
use agentapi_doctor.Common.{
  ℕ, String, Bool, true, false, not, ◌||◌, List, [], ◌∷◌, Option, none, some, ◌==◌, string_eq, lt64,
  if◌then◌else◌, is_some, lookup, insert, Result, ok, err,
}
use Prim.Native.String.{◌++◌}
use agentapi_doctor.Registry.{Principal}
use agentapi_doctor.Registry.Store.{
  StoreError, already_exists, not_found, invalid_record, TokenRecord, Observations,
  add_bearer_token, set_bearer_token, put_staged_observation, put_published_observation,
}

pub data ArtifactKind : Type 0 where
  pack profile : ArtifactKind
  other : String → ArtifactKind

pub record Artifact : Type 0 where
  pub kind : ArtifactKind
  pub name : String
  pub version : String
  pub digest : String
  pub document : String

abbrev pub text_of : ArtifactKind → String
text_of pack = "pack"
text_of profile = "profile"
text_of (other s) = s

abbrev pub is_artifact_kind : ArtifactKind → Bool
is_artifact_kind (other s) = false
is_artifact_kind kind = true

unfoldable pub artifact_key : ArtifactKind → String → String → String
artifact_key kind name version = text_of kind ++ "\0" ++ name ++ "\0" ++ version

pub record IngestRecord (Session : Type 0) : Type 0 where
  pub session : Session
  pub declared_bytes : ℕ
  pub upload_digest : String
  pub challenge_hash : String

module _ (O Session Ownership Challenge Dispute : Type 0) where
  pub record Memory : Type 0 where
    pub tokens : List (String × TokenRecord)
    pub ingests : List (String × IngestRecord Session)
    pub staged : List (String × O)
    pub observed : List (String × O)
    pub ownerships : List (String × Ownership)
    pub challenges : List (String × Challenge)
    pub disputes : List (String × Dispute)
    pub artifacts : List (String × Artifact)

  -- What the store reads through the pointers, and calls of other packages.
  pub record Reads : Type 0 where
    pub observations : Observations O
    pub session_id : Session → String
    pub subject : Ownership → String
    pub is_current : Ownership → ℕ → Bool
    pub challenge_id : Challenge → String
    pub dispute_id : Dispute → String
    pub is_digest : String → Bool
    pub canonical : String → Option String
    pub new_digest : String → String
    pub is_token : String → Bool
    pub is_principal : Principal → Bool
    pub hash : String → String

  pub data Call : Type 0 where
    adds_token sets_token : (token : String) (p : Principal) (expires_at : ℕ) → Call
    creates_ingest updates_ingest : IngestRecord Session → Call
    stages : (id : String) → O → Call
    publishes : O → Call
    challenges_owner : Challenge → Call
    owns : Ownership → Call
    disputes_with : Dispute → Call
    installs : Artifact → Call

unfoldable pub new_memory :
    {O Session Ownership Challenge Dispute : Type 0} → Memory O Session Ownership Challenge Dispute
new_memory = record {
  tokens = [];
  ingests = [];
  staged = [];
  observed = [];
  ownerships = [];
  challenges = [];
  disputes = [];
  artifacts = [];
}

-- A new entry of a map that replaces none.
abbrev pub put_new {ℓ} :
    {A : Type ℓ} → String → A → List (String × A) → Result StoreError (List (String × A))
put_new key value entries =
    if is_some (lookup key entries) then err already_exists else ok (insert key value entries)

module _ {O Session Ownership Challenge Dispute : Type 0}
    (k : Reads O Session Ownership Challenge Dispute) where
  unfoldable pub create_ingest :
      List (String × IngestRecord Session)
      → IngestRecord Session
      → Result StoreError (List (String × IngestRecord Session))
  create_ingest ingests r =
      if lt64 r.declared_bytes 1 || not (k.is_digest r.upload_digest)
      then err invalid_record
      else put_new (k.session_id r.session) r ingests

  unfoldable pub update_ingest :
      List (String × IngestRecord Session)
      → IngestRecord Session
      → Result StoreError (List (String × IngestRecord Session))
  update_ingest ingests r =
      if not (is_some (lookup (k.session_id r.session) ingests))
      then err not_found
      else ok (insert (k.session_id r.session) r ingests)

  unfoldable pub put_artifact :
      List (String × Artifact) → Artifact → Result StoreError (List (String × Artifact))
  put_artifact artifacts a =
      if not (is_artifact_kind a.kind)
        || a.name == ""
        || a.version == ""
        || not (k.is_digest a.digest)
      then err invalid_record
      else elim (k.canonical a.document) [
        | none ↦ err invalid_record
        | some text ↦
            if not (k.new_digest text == a.digest)
            then err invalid_record
            else put_new (artifact_key a.kind a.name a.version) (record a { document = text })
                artifacts
      ]

  unfoldable pub current_ownership :
      List (String × Ownership) → String → ℕ → Result StoreError Ownership
  current_ownership ownerships subject now = elim (lookup subject ownerships) [
    | none ↦ err not_found
    | some o ↦ if not (k.is_current o now) then err not_found else ok o
  ]

  -- The map that a write gives, put back into the store; a refused write changes nothing.
  abbrev pub stored {ℓ} :
      {A : Type ℓ}
      → Memory O Session Ownership Challenge Dispute
      → (A → Memory O Session Ownership Challenge Dispute)
      → Result StoreError A
      → Memory O Session Ownership Challenge Dispute × Option StoreError
  stored m put (err e) = (m, some e)
  stored m put (ok entries) = (put entries, none)

  unfoldable pub write :
      Memory O Session Ownership Challenge Dispute
      → Call O Session Ownership Challenge Dispute
      → Memory O Session Ownership Challenge Dispute × Option StoreError
  write m (adds_token token p at) =
      stored m (λ entries. record m { tokens = entries })
        (add_bearer_token k.is_token k.is_principal k.hash m.tokens token p at)
  write m (sets_token token p at) =
      stored m (λ entries. record m { tokens = entries })
        (set_bearer_token k.is_token k.is_principal k.hash m.tokens token p at)
  write m (creates_ingest r) =
      stored m (λ entries. record m { ingests = entries }) (create_ingest m.ingests r)
  write m (updates_ingest r) =
      stored m (λ entries. record m { ingests = entries }) (update_ingest m.ingests r)
  write m (stages id o) =
      stored m (λ entries. record m { staged = entries })
        (put_staged_observation k.observations m.staged id o)
  write m (publishes o) =
      stored m (λ entries. record m { observed = entries })
        (put_published_observation k.observations m.observed o)
  write m (challenges_owner c) =
      stored m (λ entries. record m { challenges = entries })
        (put_new (k.challenge_id c) c m.challenges)
  write m (owns o) = (record m { ownerships = insert (k.subject o) o m.ownerships }, none)
  write m (disputes_with d) =
      stored m (λ entries. record m { disputes = entries }) (put_new (k.dispute_id d) d m.disputes)
  write m (installs a) =
      stored m (λ entries. record m { artifacts = entries }) (put_artifact m.artifacts a)

  unfoldable pub run :
      Memory O Session Ownership Challenge Dispute
      → List (Call O Session Ownership Challenge Dispute)
      → Memory O Session Ownership Challenge Dispute
  run m [] = m
  run m (c ∷ cs) = run (write m c).0 cs
