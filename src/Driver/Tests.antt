-- ===== src/Driver/Tests.antt =====
-- A driver session (pkg/driverprotocol/state.go) with a decoder of its own, and the theorems at it.
use agentapi_doctor.Common.{
  ℕ, String, true, not, List, [], ◌∷◌, none, some, ◌==◌, string_eq, ◌≡◌, ◌≢◌, ◌⊎◌, refl, inl, inr,
  lookup,
}
use agentapi_doctor.Driver.{
  Method, Machine, Wire, Message, InvokeParams, CancelParams, ObservationParams, CompletedParams,
  new_machine, fresh_invocation, accept_hello, accept_prepare, begin_invocation, request_cancel,
  observe, observe_active, complete, complete_active, is_valid_invoke, is_valid_cancel,
  is_valid_observation, is_valid_completed, is_valid_input, prepared, invoking,
}
use agentapi_doctor.Driver.Messages.{dispatch, apply, apply_kind, kind, run}
use agentapi_doctor.Driver.Session.{
  ◌⟶◌, session_follows_lifecycle, only_completion_ends, completed_id_never_reused,
}
use agentapi_doctor.Driver.Ongoing.{Ongoing}
use agentapi_doctor.Driver.Sequences.{feed, sequences, IsIncreasing, invocation_sequences}

abbrev invocation : InvokeParams
invocation = record {
  invocation_id = "inv";
  attempt_id = "att";
  operation = "chat";
  input_kind = "pipe";
  input_value = "3";
}

abbrev seen : ℕ → ObservationParams
seen n = record {
  invocation_id = "inv";
  attempt_id = "att";
  sequence = n;
  kind = "chunk";
  payload = "";
  stream_id = none;
}

abbrev cancellation : CancelParams
cancellation = record { invocation_id = "inv"; reason = "deadline"; deadline_millis = 5 }

abbrev completion : CompletedParams
completion = record {
  invocation_id = "inv";
  attempt_id = "att";
  status = "cancelled";
  last_sequence = some 9;
  summary_digest = "sha256:0";
}

-- A wire on which every frame decodes to the values above.
abbrev wire : Wire
wire = record {
  PrepareParams = ℕ;
  is_instance_id = λ s. not (s == "");
  is_digest = λ s. not (s == "");
  is_canonical = λ s. true;
  is_params_shape = λ s. true;
  is_request_id = λ s. true;
  is_response_id = λ s. true;
  decode_hello = λ s. some (record { minimum = "1"; maximum = "1" });
  decode_prepare = λ s. some 0;
  is_valid_prepare = λ n. true;
  decode_empty = λ s. true;
  decode_invoke = λ s. some invocation;
  decode_cancel = λ s. some cancellation;
  decode_observation = λ s. some (seen 4);
  decode_completed = λ s. some completion;
}

abbrev frame : Method → String → Message
frame m id = record {
  jsonrpc = "2.0";
  id = id;
  method = some m;
  params = "{}";
  result = "";
  error = none;
}

abbrev handshake : List Message
handshake = frame Method.hello "1" ∷ frame Method.prepare "2" ∷ frame Method.invoke "3" ∷ []

handshake_invokes : (run wire new_machine handshake).state ≡ invoking
unfolding run apply apply_kind kind dispatch new_machine accept_hello accept_prepare
    begin_invocation is_valid_invoke is_valid_input lookup
handshake_invokes = refl

session_follows_lifecycle_example :
    (run wire new_machine handshake).state
    ⟶ (apply wire (run wire new_machine handshake) (frame Method.observation "")).0.state
session_follows_lifecycle_example =
    (session_follows_lifecycle wire handshake (frame Method.observation "")).0

abbrev ready : Machine
ready = record { state = prepared; active = none; finished = [] }

abbrev busy : Machine
busy = (begin_invocation wire ready invocation).0

-- An observation, the cancellation, a second invocation, which is refused, and a shutdown, too.
abbrev other_frames : List Message
other_frames =
    frame Method.observation ""
    ∷ frame Method.cancel "4"
    ∷ frame Method.invoke "5"
    ∷ frame Method.shutdown "6"
    ∷ []

only_completion_ends_example :
    Ongoing busy (fresh_invocation invocation) (run wire busy other_frames)
unfolding begin_invocation is_valid_invoke is_valid_input lookup
only_completion_ends_example =
    only_completion_ends wire busy (fresh_invocation invocation) other_frames refl refl
      (λ e. cc, (λ e. cc, (λ e. cc, (λ e. cc, tt))))

abbrev frames : List (ObservationParams ⊎ CancelParams)
frames = inl (seen 4) ∷ inr cancellation ∷ inl (seen 9) ∷ []

abbrev observed_twice : Machine
observed_twice = (feed wire busy frames).0

completed_id_never_reused_example :
    (begin_invocation wire
      (run wire (complete wire observed_twice completion).0 handshake)
      invocation).1
    ≢ none
unfolding begin_invocation is_valid_invoke is_valid_input lookup feed observe observe_active
    request_cancel is_valid_observation is_valid_cancel complete complete_active is_valid_completed
completed_id_never_reused_example =
    completed_id_never_reused wire observed_twice completion handshake invocation refl refl

invocation_sequences_example : IsIncreasing none (sequences frames)
unfolding begin_invocation is_valid_invoke is_valid_input lookup feed observe observe_active
    request_cancel is_valid_observation is_valid_cancel complete complete_active is_valid_completed
invocation_sequences_example =
    (invocation_sequences wire ready invocation frames completion refl refl refl).1
