-- ===== src/Journal/Tests.antt =====
-- Journals of internal/provenance/journal.go, and the theorems at them.
use agentapi_doctor.Common.{
  ℕ, ◌≡◌, ◌⊎◌, String, true, not, List, [], ◌∷◌, some, ◌==◌, string_eq, refl, inl,
}
use agentapi_doctor.Journal.{
  EventInput, Journal, Hash, is_transition, new_journal, is_event_fields, verify, next_event,
  append, append_all, last_status,
}
use agentapi_doctor.Journal.Chain.{
  new_journal-verify, append_all_over, Collision, last_digest_commits,
}

abbrev hash : Hash
hash = record {
  is_instance = λ s. not (s == "");
  is_digest = λ s. not (s == "");
  trim_space = λ s. s;
  digest = λ e. some e.payload_digest;
}

abbrev input : String → ℕ → EventInput
input status offset = record {
  event_type = "run";
  status = status;
  occurred_at = 5;
  monotonic_offset = offset;
  payload_digest = status;
}

-- The third input is refused: its offset goes back.
abbrev inputs : List EventInput
inputs = input "planned" 0 ∷ input "running" 7 ∷ input "running" 6 ∷ input "completed" 9 ∷ []

abbrev empty : Journal
empty = record { run_id = "r"; events = [] }

written_status : last_status "" (append_all hash empty inputs).events ≡ "completed"
unfolding append_all append is_transition is_event_fields next_event
written_status = refl

new_journal-verify_example : verify hash (append_all hash empty inputs) ≡ true
unfolding new_journal
new_journal-verify_example = new_journal-verify hash "r" empty inputs refl

append_all_over_example :
    append_all hash (append_all hash empty inputs) (input "running" 10 ∷ [])
    ≡ append_all hash empty inputs
append_all_over_example =
    append_all_over hash (append_all hash empty inputs) (input "running" 10 ∷ [])
      (inl written_status)

-- The same inputs an instant later: `hash` digests the payload alone, so that it cannot tell them
-- from the others.
abbrev later_input : String → ℕ → EventInput
later_input status offset = record (input status offset) { occurred_at = 6 }

abbrev later_inputs : List EventInput
later_inputs = later_input "planned" 0 ∷ later_input "running" 7 ∷ later_input "completed" 9 ∷ []

last_digest_commits_example :
    ((append_all hash empty inputs).events ≡ (append_all hash empty later_inputs).events)
    ⊎ Collision hash
        (append_all hash empty inputs).events
        (append_all hash empty later_inputs).events
unfolding new_journal append_all append is_transition is_event_fields next_event
last_digest_commits_example =
    last_digest_commits hash (append_all hash empty inputs) (append_all hash empty later_inputs)
      (new_journal-verify hash "r" empty inputs refl)
      (new_journal-verify hash "r" empty later_inputs refl) refl refl
