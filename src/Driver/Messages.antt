-- ===== src/Driver/Messages.antt =====
-- pkg/driverprotocol/protocol.go: the kind of a JSON-RPC frame; state.go: `Apply`, which decodes the
-- parameters of a frame and hands them to the method that it names.
use agentapi_doctor.Common.{
  String, Bool, true, false, not, ◌&&◌, ◌||◌, List, [], ◌∷◌, Option, none, some, ◌==◌, string_eq,
  nat_eq, if◌then◌else◌, is_some, Result, ok, err,
}
use agentapi_doctor.Driver.{
  Method, ErrorClass, Machine, Outcome, Wire, Message, accept_hello, accept_prepare,
  check_capabilities, reset_session, shut_down, begin_invocation, request_cancel, observe, complete,
  unsupported_rpc_version, invalid_request, malformed_observation, is_valid_rpc_error,
}

pub data MessageKind : Type 0 where
  request notification response : MessageKind

abbrev pub is_known : Method → Bool
is_known (Method.unknown s) = false
is_known _ = true

abbrev pub is_notification : Method → Bool
is_notification Method.observation = true
is_notification Method.completed = true
is_notification _ = false

module _ (w : Wire) where
  -- The part of `Kind` for a frame that names a method.
  unfoldable pub method_kind : Message → Method → Result ErrorClass MessageKind
  method_kind f method =
      if not (is_known method)
      then err invalid_request
      else if not (f.result == "") || is_some f.error
      then err invalid_request
      else if not (f.params == "") && not (w.is_params_shape f.params)
      then err invalid_request
      else if is_notification method
      then (if not (f.id == "") then err invalid_request else ok notification)
      else if f.id == ""
      then err invalid_request
      else if not (w.is_request_id f.id)
      then err invalid_request
      else ok request

  abbrev both_or_neither : Bool → Bool → Bool
  both_or_neither true b = b
  both_or_neither false b = not b

  -- The part of `Kind` for a frame without a method.
  unfoldable pub response_kind : Message → Result ErrorClass MessageKind
  response_kind f =
      if not (f.params == "")
      then err invalid_request
      else if f.id == "" || both_or_neither (not (f.result == "")) (is_some f.error)
      then err invalid_request
      else if not (w.is_response_id f.id)
      then err invalid_request
      else elim f.error [
        | none ↦ ok response
        | some e ↦ if not (is_valid_rpc_error w e) then err invalid_request else ok response
      ]

  unfoldable pub kind : Message → Result ErrorClass MessageKind
  unfolding method_kind response_kind
  kind f =
      if not (f.jsonrpc == "2.0")
      then err unsupported_rpc_version
      else elim f.method [ none ↦ response_kind f | some m ↦ method_kind f m ]

  -- Decoded parameters go to the method; a frame that does not decode is refused with the class `c`.
  abbrev pub decoded : {A : Type 0} → Option A → Machine → ErrorClass → (A → Outcome) → Outcome
  decoded none m c f = (m, some c)
  decoded (some a) m c f = f a

  abbrev pub optional_empty : String → Machine → Outcome → Outcome
  optional_empty params m rest =
      if params == "" || w.decode_empty params then rest else (m, some invalid_request)

  -- The `switch` of `Apply`.
  unfoldable pub dispatch : Method → Machine → String → Outcome
  dispatch Method.hello m params =
      decoded (w.decode_hello params) m invalid_request λ p.
        if p.minimum == "" || p.maximum == "" then (m, some invalid_request) else accept_hello m
  dispatch Method.prepare m params =
      decoded (w.decode_prepare params) m invalid_request
        λ p. if not (w.is_valid_prepare p) then (m, some invalid_request) else accept_prepare m
  dispatch Method.capabilities m params = optional_empty params m (check_capabilities m)
  dispatch Method.invoke m params =
      decoded (w.decode_invoke params) m invalid_request (begin_invocation w m)
  dispatch Method.cancel m params =
      decoded (w.decode_cancel params) m invalid_request (request_cancel w m)
  dispatch Method.reset m params = optional_empty params m (reset_session m)
  dispatch Method.shutdown m params = optional_empty params m (shut_down m)
  dispatch Method.observation m params =
      decoded (w.decode_observation params) m malformed_observation (observe w m)
  dispatch Method.completed m params =
      decoded (w.decode_completed params) m malformed_observation (complete w m)
  dispatch (Method.unknown s) m params = (m, some invalid_request)

  -- `Apply`: a response is refused, any other frame has a method.
  unfoldable pub apply_kind : Machine → Message → MessageKind → Outcome
  apply_kind m f response = (m, some invalid_request)
  apply_kind m f _ = elim f.method [
    | none ↦ (m, some invalid_request)
    | some method ↦ dispatch method m f.params
  ]

  unfoldable pub apply : Machine → Message → Outcome
  unfolding apply_kind
  apply m f = elim (kind f) [ err c ↦ (m, some c) | ok k ↦ apply_kind m f k ]

  -- A session: frames applied one after another, refused ones included.
  unfoldable pub run : Machine → List Message → Machine
  run m [] = m
  run m (f ∷ fs) = run (apply m f).0 fs
