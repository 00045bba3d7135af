-- ===== src/Driver.antt =====
-- pkg/driverprotocol/state.go: the lifecycle of one driver session, and from protocol.go the
-- messages and parameters that drive it. Each method runs under the machine's lock, so it is one
-- step. An error is kept as its class. The JSON decoder, and the checks of ids, digests and nested
-- parameters that other packages make, are the parameter `Wire`.
pub mod Messages
pub mod Ongoing
pub mod Session
pub mod Sequences
pub mod Tests
use agentapi_doctor.Common.{
  any, ℕ, String, Bool, true, false, not, ◌&&◌, ◌||◌, List, [], ◌∷◌, Option, none, some, ◌==◌,
  string_eq, nat_eq, leb, ltb, if◌then◌else◌, is_some, lookup, insert, Result, ok, err,
}

pub data State : Type 0 where
  new hello prepared invoking shutdown : State

pub data Method : Type 0 where
  hello prepare capabilities invoke cancel reset shutdown observation completed : Method
  unknown : String → Method

pub data ErrorClass : Type 0 where
  unsupported_rpc_version invalid_state invalid_request permission_denied budget_exceeded
        capability_mismatch driver_internal cancellation_timeout malformed_observation
        artifact_mismatch :
      ErrorClass

pub record ActiveInvocation : Type 0 where
  pub invocation_id : String
  pub attempt_id : String
  pub last_sequence : ℕ
  pub has_observation : Bool
  pub cancel_requested : Bool

pub record Machine : Type 0 where
  pub state : State
  pub active : Option ActiveInvocation
  pub finished : List (String × Unit {0})

-- The machine that a method leaves, and the error that it returns.
abbrev pub Outcome : Type 0
Outcome = Machine × Option ErrorClass

unfoldable pub new_machine : Machine
new_machine = record { state = State.new; active = none; finished = [] }

pub record VersionRange : Type 0 where
  pub minimum : String
  pub maximum : String

pub record InvokeParams : Type 0 where
  pub invocation_id : String
  pub attempt_id : String
  pub operation : String
  pub input_kind : String
  pub input_value : String

pub record CancelParams : Type 0 where
  pub invocation_id : String
  pub reason : String
  pub deadline_millis : ℕ

-- An absent payload is the empty text.
pub record ObservationParams : Type 0 where
  pub invocation_id : String
  pub attempt_id : String
  pub sequence : ℕ
  pub kind : String
  pub payload : String
  pub stream_id : Option String

pub record CompletedParams : Type 0 where
  pub invocation_id : String
  pub attempt_id : String
  pub status : String
  pub last_sequence : Option ℕ
  pub summary_digest : String

-- The class of an error that a driver states is any text.
pub record ErrorData : Type 0 where
  pub error_class : String
  pub details : String

pub record RpcError : Type 0 where
  pub message : String
  pub content : Option ErrorData

-- One control frame, its raw JSON as text; an absent part is the empty text.
pub record Message : Type 0 where
  pub jsonrpc : String
  pub id : String
  pub method : Option Method
  pub params : String
  pub result : String
  pub error : Option RpcError

-- What the session takes from the JSON decoder and from other packages.
pub record Wire : Type 1 where
  pub PrepareParams : Type 0
  pub is_instance_id : String → Bool
  pub is_digest : String → Bool
  pub is_canonical : String → Bool
  pub is_params_shape : String → Bool
  pub is_request_id : String → Bool
  pub is_response_id : String → Bool
  pub decode_hello : String → Option VersionRange
  pub decode_prepare : String → Option PrepareParams
  pub is_valid_prepare : PrepareParams → Bool
  pub decode_empty : String → Bool
  pub decode_invoke : String → Option InvokeParams
  pub decode_cancel : String → Option CancelParams
  pub decode_observation : String → Option ObservationParams
  pub decode_completed : String → Option CompletedParams

-- The texts of the stable error classes.
abbrev stable_error_classes : List String
stable_error_classes =
    "unsupported_rpc_version" ∷ "invalid_state" ∷ "invalid_request" ∷ "permission_denied"
    ∷ "budget_exceeded" ∷ "capability_mismatch" ∷ "driver_internal" ∷ "cancellation_timeout"
    ∷ "malformed_observation" ∷ "artifact_mismatch" ∷ []

unfoldable pub accept_hello : Machine → Outcome
accept_hello m = elim m.state [
  | State.new ↦ (record m { state = State.hello }, none)
  | _ ↦ (m, some invalid_state)
]

unfoldable pub accept_prepare : Machine → Outcome
accept_prepare m = elim m.state [
  | State.hello ↦ (record m { state = prepared }, none)
  | _ ↦ (m, some invalid_state)
]

unfoldable pub check_capabilities : Machine → Outcome
check_capabilities m = elim m.state [
  | State.hello ↦ (m, none)
  | prepared ↦ (m, none)
  | _ ↦ (m, some invalid_state)
]

unfoldable pub reset_session : Machine → Outcome
reset_session m = elim m.state [ prepared ↦ (m, none) | _ ↦ (m, some invalid_state) ]

unfoldable pub shut_down : Machine → Outcome
shut_down m = elim m.state [
  | prepared ↦ (record m { state = State.shutdown }, none)
  | _ ↦ (m, some invalid_state)
]

-- The invocation that `BeginInvocation` binds.
abbrev pub fresh_invocation : InvokeParams → ActiveInvocation
fresh_invocation p = record {
  invocation_id = p.invocation_id;
  attempt_id = p.attempt_id;
  last_sequence = 0;
  has_observation = false;
  cancel_requested = false;
}

module _ (w : Wire) where
  unfoldable pub is_valid_rpc_error : RpcError → Bool
  is_valid_rpc_error e = elim e.content [
    | none ↦ false
    | some c ↦
        not (e.message == "")
        && any (λ x. c.error_class == x) stable_error_classes
        && (c.details == "" || w.is_canonical c.details)
  ]

  unfoldable pub is_valid_input : InvokeParams → Bool
  is_valid_input p =
      (p.input_kind == "pipe" || p.input_kind == "socket" || p.input_kind == "memfd")
      && not (p.input_value == "")

  unfoldable pub is_valid_invoke : InvokeParams → Bool
  is_valid_invoke p =
      w.is_instance_id p.invocation_id
      && w.is_instance_id p.attempt_id
      && not (p.operation == "")
      && is_valid_input p

  unfoldable pub is_valid_cancel : CancelParams → Bool
  is_valid_cancel p =
      w.is_instance_id p.invocation_id && not (p.reason == "") && not (p.deadline_millis == 0)

  unfoldable pub is_valid_observation : ObservationParams → Bool
  is_valid_observation p =
      w.is_instance_id p.invocation_id
      && w.is_instance_id p.attempt_id
      && not (p.kind == "")
      && not (not (p.payload == "") && is_some p.stream_id)
      && (p.payload == "" || w.is_canonical p.payload)
      && (elim p.stream_id [ none ↦ true | some s ↦ not (s == "") ])

  unfoldable pub is_valid_completed : CompletedParams → Bool
  is_valid_completed p =
      w.is_instance_id p.invocation_id
      && w.is_instance_id p.attempt_id
      && (p.status == "completed" || p.status == "cancelled" || p.status == "errored")
      && w.is_digest p.summary_digest

  -- The state is PREPARED, followed by the rest of `BeginInvocation`.
  unfoldable pub begin_invocation : Machine → InvokeParams → Outcome
  begin_invocation m p =
      if not (is_valid_invoke p) then (m, some invalid_request) else elim m.state [
        | prepared ↦
            if is_some (lookup p.invocation_id m.finished)
            then (m, some invalid_request)
            else (record m { active = some (fresh_invocation p); state = invoking }, none)
        | _ ↦ (m, some invalid_state)
      ]

  -- The active invocation of a machine in INVOKING, for the methods that want one.
  abbrev pub current : Machine → Option ActiveInvocation
  current m = elim m.state [ invoking ↦ m.active | _ ↦ none ]

  unfoldable pub request_cancel : Machine → CancelParams → Outcome
  request_cancel m p =
      if not (is_valid_cancel p) then (m, some invalid_request) else elim (current m) [
        | none ↦ (m, some invalid_state)
        | some a ↦
            if not (a.invocation_id == p.invocation_id)
            then (m, some invalid_request)
            else (record m { active = some (record a { cancel_requested = true }) }, none)
      ]

  unfoldable pub observe_active : Machine → ActiveInvocation → ObservationParams → Outcome
  observe_active m a p =
      if not (a.invocation_id == p.invocation_id) || not (a.attempt_id == p.attempt_id)
      then (m, some malformed_observation)
      else if a.has_observation && leb p.sequence a.last_sequence
      then (m, some malformed_observation)
      else (
        record m {
          active = some (record a { last_sequence = p.sequence; has_observation = true });
        },
        none,
      )

  unfoldable pub observe : Machine → ObservationParams → Outcome
  observe m p =
      if not (is_valid_observation p)
      then (m, some malformed_observation)
      else elim (current m) [ none ↦ (m, some invalid_state) | some a ↦ observe_active m a p ]

  -- `last_sequence` fits what was observed.
  abbrev pub sequence_fits : ActiveInvocation → Option ℕ → Bool
  sequence_fits a (some n) = a.has_observation && n == a.last_sequence
  sequence_fits a none = not a.has_observation

  unfoldable pub complete_active : Machine → ActiveInvocation → CompletedParams → Outcome
  complete_active m a p =
      if not (a.invocation_id == p.invocation_id) || not (a.attempt_id == p.attempt_id)
      then (m, some malformed_observation)
      else if not (sequence_fits a p.last_sequence)
      then (m, some malformed_observation)
      else (
        record m {
          finished = insert p.invocation_id tt m.finished;
          active = none;
          state = prepared;
        },
        none,
      )

  unfoldable pub complete : Machine → CompletedParams → Outcome
  complete m p =
      if not (is_valid_completed p)
      then (m, some malformed_observation)
      else elim (current m) [ none ↦ (m, some invalid_state) | some a ↦ complete_active m a p ]
