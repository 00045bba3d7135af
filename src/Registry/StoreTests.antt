-- ===== src/Registry/StoreTests.antt =====
-- The store of internal/registry/store/memory.go at small contents, and its theorems there.
use agentapi_doctor.Common.{
  ℕ, ◌+◌, ◌*◌, ◌≡◌, String, Bool, true, List, [], ◌∷◌, Option, none, some, refl, ltb, code_points,
  arith, lookup, insert, string_eq,
}
use text.Mathlib.TextLemmas.{cons-ne-nil}
use agentapi_doctor.Schema.{parse_digest}
use agentapi_doctor.Registry.Store.{
  ObservationFilter, ObservationIndex, Observations, Cursors, matches, put_published_observation,
}
use agentapi_doctor.Registry.Pages.{Order, Faithful, ascending, fits, walk, walk-fitting}
use agentapi_doctor.Registry.Memory.{
  Reads, Call, publishes, disputes_with, owns, new_memory, write, run,
}
use agentapi_doctor.Registry.Archive.{Sound, Kept, run-new_memory-Kept}

abbrev found : ObservationIndex
found = record {
  subject = "a/b";
  version = "1";
  pack = "p";
  pack_version = "1";
  profile = "q";
  trust_labels = [];
  freshness = "";
}

-- Observations that are their ids, here two of one letter.
abbrev catalog : Observations String
catalog = record { id = λ s. s; is_valid = λ s. true; index = λ s. some found }

-- A letter before each text; a text that does not start with one does not decode.
abbrev decode_letter : String → Option String
decode_letter String.[] = none
decode_letter (String.◌∷◌ letter rest) = some rest

abbrev cursors : Cursors
cursors = record { encode = λ s. String.◌∷◌ "c" s; decode = decode_letter }

cursors-Faithful : Faithful cursors
cursors-Faithful = record { decodes = λ id. refl; shows = λ id h e. cons-ne-nil "c" id e }

abbrev any_observation : ObservationFilter
any_observation = record {
  subject = "a/b";
  version = "";
  pack = "";
  profile = "";
  trust = "";
  fresh = "";
}

-- A text as a number: of texts of one length the first in the order of their characters is the least.
abbrev value_from : ℕ → List ℕ → ℕ
value_from n [] = n
value_from n (c ∷ cs) = value_from (n * 1114112 + c) cs

abbrev before : String → String → Bool
before a b = ltb (value_from 0 (code_points a)) (value_from 0 (code_points b))

before_order : Order catalog before
before_order = record { trans = λ a b d h i. ground (arith, h, i); irrefl = λ a. ground arith }

abbrev shelf : List String
shelf =
    "sha256:0000000000000000000000000000000000000000000000000000000000000001"
    ∷ "sha256:000000000000000000000000000000000000000000000000000000000000000b"
    ∷ "sha256:00000000000000000000000000000000000000000000000000000000000000a0" ∷ []

-- `ParseDigest` refuses other digits, and other lengths.
upper_refused :
    parse_digest "sha256:000000000000000000000000000000000000000000000000000000000000000B" ≡ none
unfolding parse_digest
upper_refused = refl

short_refused : parse_digest "sha256:0b" ≡ none
unfolding parse_digest
short_refused = refl

walk-fitting_example : walk catalog cursors before shelf any_observation 2 4 "" ≡ some shelf
unfolding fits matches ascending parse_digest
walk-fitting_example =
    walk-fitting catalog cursors before shelf any_observation 2 cursors-Faithful before_order
      (omega arith) (omega arith) refl refl refl

abbrev reads : Reads String String String String String
reads = record {
  observations = catalog;
  session_id = λ s. s;
  subject = λ s. s;
  is_current = λ s now. true;
  challenge_id = λ s. s;
  dispute_id = λ s. s;
  is_digest = λ s. true;
  canonical = λ s. some s;
  new_digest = λ s. s;
  is_token = λ s. true;
  is_principal = λ p. true;
  hash = λ s. s;
}

abbrev first_calls : List (Call String String String String String)
first_calls = publishes "a" ∷ disputes_with "d" ∷ []

published_found : lookup "a" (run reads new_memory first_calls).observed ≡ some "a"
unfolding run write put_published_observation new_memory lookup insert
published_found = refl

run-new_memory-Kept_example :
    Sound reads (run reads new_memory first_calls)
    × Kept reads
        (run reads new_memory first_calls)
        (run reads (run reads new_memory first_calls) (publishes "a" ∷ owns "o" ∷ []))
run-new_memory-Kept_example = run-new_memory-Kept reads first_calls (publishes "a" ∷ owns "o" ∷ [])
