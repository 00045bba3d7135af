-- ===== src/Registry/Store.antt =====
-- internal/registry/store/memory.go: the store in memory. Each method holds the lock, so it is one step.
-- Observations and the pointers to sessions, ownerships, challenges and disputes are opaque: what
-- the store reads of them, the hash of a token, the digests of documents, the encoding of cursors and
-- the sorting by id are parameters.
use agentapi_doctor.Common.{
  ℕ, zero, suc, String, Bool, true, false, not, ◌&&◌, ◌||◌, List, [], ◌∷◌, Option, none, some, ◌==◌,
  string_eq, eqb, ltb, if◌then◌else◌, is_some, any, lookup, insert, Result, ok, err, length, take,
  last?,
}
use agentapi_doctor.Registry.{Principal}
use agentapi_doctor.Schema.{parse_digest}

pub data StoreError : Type 0 where
  already_exists not_found token_expired invalid_record invalid_limit invalid_cursor not_indexed
        not_implemented :
      StoreError

pub record TokenRecord : Type 0 where
  pub principal : Principal
  pub expires_at : ℕ

pub record ObservationFilter : Type 0 where
  pub subject : String
  pub version : String
  pub pack : String
  pub profile : String
  pub trust : String
  pub fresh : String

pub record ObservationIndex : Type 0 where
  pub subject : String
  pub version : String
  pub pack : String
  pub pack_version : String
  pub profile : String
  pub trust_labels : List String
  pub freshness : String

pub record ObservationPage (O : Type 0) : Type 0 where
  pub items : List O
  pub next_cursor : String

abbrev admits : String → String → Bool
admits wanted found = wanted == "" || wanted == found

unfoldable pub matches : ObservationFilter → ObservationIndex → Bool
matches f i =
    admits f.subject i.subject
    && admits f.version i.version
    && admits f.pack i.pack
    && admits f.profile i.profile
    && (f.trust == "" || any (λ label. label == f.trust) i.trust_labels)
    && admits f.fresh i.freshness

-- The tokens, by the hash of the text.
module _ (is_token : String → Bool) (is_principal : Principal → Bool) (hash : String → String) where
  unfoldable pub is_credential : String → Principal → ℕ → Bool
  is_credential token p expires_at = is_token token && not (eqb expires_at 0) && is_principal p

  unfoldable pub add_bearer_token :
      List (String × TokenRecord)
      → String
      → Principal
      → ℕ
      → Result StoreError (List (String × TokenRecord))
  add_bearer_token tokens token p expires_at =
      if not (is_credential token p expires_at)
      then err invalid_record
      else if is_some (lookup (hash token) tokens)
      then err already_exists
      else ok (insert (hash token) (record { principal = p; expires_at = expires_at }) tokens)

  unfoldable pub set_bearer_token :
      List (String × TokenRecord)
      → String
      → Principal
      → ℕ
      → Result StoreError (List (String × TokenRecord))
  set_bearer_token tokens token p expires_at =
      if not (is_credential token p expires_at)
      then err invalid_record
      else ok (insert (hash token) (record { principal = p; expires_at = expires_at }) tokens)

unfoldable pub lookup_bearer_token :
    List (String × TokenRecord) → String → ℕ → Result StoreError Principal
lookup_bearer_token tokens hashed now = elim (lookup hashed tokens) [
  | none ↦ err not_found
  | some r ↦ if eqb now 0 || not (ltb now r.expires_at) then err token_expired else ok r.principal
]

-- What the store reads of an observation.
pub record Observations (O : Type 0) : Type 0 where
  pub id : O → String
  pub is_valid : O → Bool
  pub index : O → Option ObservationIndex

-- `base64.RawURLEncoding` of Go's library.
pub record Cursors : Type 0 where
  pub encode : String → String
  pub decode : String → Option String

unfoldable pub decode_cursor : Cursors → String → Option String
decode_cursor c cursor =
    if cursor == ""
    then some ""
    else elim (c.decode cursor) [ none ↦ none | some text ↦ parse_digest text ]

module _ {O : Type 0} (api : Observations O) where
  unfoldable pub put_staged_observation :
      List (String × O) → String → O → Result StoreError (List (String × O))
  put_staged_observation staged id observation =
      if not (api.is_valid observation) then err invalid_record else elim (lookup id staged) [
        | some existing ↦
            if api.id existing == api.id observation then ok staged else err already_exists
        | none ↦ ok (insert id observation staged)
      ]

  unfoldable pub put_published_observation :
      List (String × O) → O → Result StoreError (List (String × O))
  put_published_observation observed observation =
      if not (api.is_valid observation) || not (is_some (api.index observation))
      then err invalid_record
      else if is_some (lookup (api.id observation) observed)
      then err already_exists
      else ok (insert (api.id observation) observation observed)

  -- The loop of `ListObservations`, with the room that is left on the page and one more.
  unfoldable pub select :
      (String → String → Bool)
      → ObservationFilter
      → String
      → ℕ
      → List O
      → Result StoreError (List O)
  select precedes f after zero items = ok []
  select precedes f after (suc room) [] = ok []
  select precedes f after (suc room) (o ∷ rest) =
      if not (after == "") && not (precedes after (api.id o))
      then select precedes f after (suc room) rest
      else elim (api.index o) [
        | none ↦ err not_indexed
        | some index ↦ elim (matches f index) [
          | false ↦ select precedes f after (suc room) rest
          | true ↦ elim (select precedes f after room rest) [
            | err e ↦ err e
            | ok more ↦ ok (o ∷ more)
          ]
        ]
      ]

  -- A page, with the cursor of the next one when there is more.
  unfoldable pub page_of : Cursors → ℕ → List O → ObservationPage O
  page_of c limit filtered = elim (ltb limit (length filtered)) [
    | false ↦ record { items = filtered; next_cursor = "" }
    | true ↦ record {
      items = take limit filtered;
      next_cursor = elim (last? (take limit filtered)) [ none ↦ "" | some o ↦ c.encode (api.id o) ];
    }
  ]

  -- `items` are the published observations, sorted by id.
  unfoldable pub list_observations :
      Cursors
      → (String → String → Bool)
      → List O
      → ObservationFilter
      → String
      → ℕ
      → Result StoreError (ObservationPage O)
  list_observations c precedes items f cursor limit =
      if ltb limit 1 || ltb 100 limit then err invalid_limit else elim (decode_cursor c cursor) [
        | none ↦ err invalid_cursor
        | some after ↦ elim (select precedes f after (suc limit) items) [
          | err e ↦ err e
          | ok filtered ↦ ok (page_of c limit filtered)
        ]
      ]
