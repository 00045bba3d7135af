-- ===== src/Journal.antt =====
-- internal/provenance/journal.go: the journal of a run, a chain of events by digests. Texts such as a
-- status or a digest are texts here too, offsets are int64 bit patterns, instants are numbers with 0
-- for Go's zero time. The digest of an event, the checks of ids and digests, and
-- `strings.TrimSpace`, are the parameter `Hash`.
pub mod Chain
pub mod Tests
use agentapi_doctor.Common.{
  ℕ, suc, ◌+◌, String, Bool, true, false, not, ◌&&◌, ◌||◌, List, [], ◌∷◌, ◌++◌, Option, none, some,
  ◌==◌, string_eq, eqb, if◌then◌else◌, Result, ok, err, add64, is_negative, lt64, length,
}

-- `eventDigest` reads every field but the digest itself.
pub record Event : Type 0 where
  pub schema_version : String
  pub run_id : String
  pub sequence : ℕ
  pub previous_digest : String
  pub event_type : String
  pub status : String
  pub occurred_at : ℕ
  pub monotonic_offset : ℕ
  pub payload_digest : String
  pub event_digest : String

pub record EventInput : Type 0 where
  pub event_type : String
  pub status : String
  pub occurred_at : ℕ
  pub monotonic_offset : ℕ
  pub payload_digest : String

pub record Journal : Type 0 where
  pub run_id : String
  pub events : List Event

pub record Hash : Type 0 where
  pub is_instance : String → Bool
  pub is_digest : String → Bool
  pub trim_space : String → String
  pub digest : Event → Option String

pub data Error : Type 0 where
  invalid_run invalid_transition invalid_fields invalid_payload no_digest : Error

abbrev pub journal_schema : String
journal_schema = "urn:agentapi-doctor:run-journal-event:v1alpha1"

abbrev pub zero_digest : String
zero_digest = "sha256:0000000000000000000000000000000000000000000000000000000000000000"

-- The bit pattern of -1.
abbrev pub before_start : ℕ
before_start = 18446744073709551615

abbrev pub projection : Event → Event
projection e = record e { event_digest = "" }

unfoldable pub is_transition : String → String → Bool
is_transition previous next =
    (previous == "" && next == "planned")
    || (previous == "planned" && next == "running")
    || (previous == "running"
        && (next == "running" || next == "completed" || next == "cancelled" || next == "errored"))

-- What `Append` and `Verify` keep of the last event, or of none.
abbrev pub last_digest : String → List Event → String
last_digest previous [] = previous
last_digest previous (e ∷ es) = last_digest e.event_digest es

abbrev pub last_status : String → List Event → String
last_status status [] = status
last_status status (e ∷ es) = last_status e.status es

abbrev pub last_offset : ℕ → List Event → ℕ
last_offset before [] = before
last_offset before (e ∷ es) = last_offset e.monotonic_offset es

-- The event that `Append` makes, without its digest.
unfoldable pub next_event : Journal → EventInput → Event
next_event j i = record {
  schema_version = journal_schema;
  run_id = j.run_id;
  sequence = add64 (length j.events) 1;
  previous_digest = last_digest zero_digest j.events;
  event_type = i.event_type;
  status = i.status;
  occurred_at = i.occurred_at;
  monotonic_offset = i.monotonic_offset;
  payload_digest = i.payload_digest;
  event_digest = "";
}

module _ (k : Hash) where
  unfoldable pub new_journal : String → Option Journal
  new_journal run_id =
      if k.is_instance run_id then some (record { run_id = run_id; events = [] }) else none

  -- Type, time and offset, against the offset of the event before.
  unfoldable pub is_event_fields : ℕ → String → ℕ → ℕ → Bool
  is_event_fields before event_type occurred_at offset =
      not (is_negative offset || lt64 offset before)
      && not (eqb occurred_at 0)
      && not (k.trim_space event_type == "")

  -- One turn of the loop of `Verify`.
  unfoldable pub is_next : String → ℕ → String → String → ℕ → Event → Bool
  is_next run_id n previous status before e =
      e.schema_version == journal_schema
      && e.run_id == run_id
      && eqb e.sequence (add64 n 1)
      && e.previous_digest == previous
      && is_transition status e.status
      && is_event_fields before e.event_type e.occurred_at e.monotonic_offset
      && k.is_digest e.payload_digest
      && (elim (k.digest (projection e)) [ none ↦ false | some d ↦ d == e.event_digest ])

  unfoldable pub verify_from : String → ℕ → String → String → ℕ → List Event → Bool
  verify_from run_id n previous status before [] = true
  verify_from run_id n previous status before (e ∷ es) =
      is_next run_id n previous status before e
      && verify_from run_id (n + 1) e.event_digest e.status e.monotonic_offset es

  -- `Verify`.
  unfoldable pub verify : Journal → Bool
  verify j = verify_from j.run_id 0 zero_digest "" before_start j.events

  unfoldable pub append : Journal → EventInput → Journal × Result Error Event
  append j i =
      if not (is_transition (last_status "" j.events) i.status)
      then (j, err invalid_transition)
      else if not (
          is_event_fields (last_offset before_start j.events) i.event_type i.occurred_at
            i.monotonic_offset)
      then (j, err invalid_fields)
      else if not (k.is_digest i.payload_digest)
      then (j, err invalid_payload)
      else elim (k.digest (next_event j i)) [
        | none ↦ (j, err no_digest)
        | some d ↦
            let e : Event = record (next_event j i) { event_digest = d } in
            (record j { events = j.events ++ e ∷ [] }, ok e)
      ]

  -- The journal after all inputs, those that are refused left out.
  unfoldable pub append_all : Journal → List EventInput → Journal
  append_all j [] = j
  append_all j (i ∷ is) = append_all (append j i).0 is
