-- ===== src/Command/Service.antt =====
-- internal/command/service.go: `Handle` and the functions that it calls, in their order. Each one
-- returns the response and the world behind it.
use cockpit_slurm.Base.{
  String, Bool, true, false, not, ◌&&◌, Option, none, some, List, [], ◌∷◌, ◌==◌, if◌then◌else◌,
  nat_eq, string_eq,
}
use cockpit_slurm.Protocol.Envelope.{Envelope, new_envelope, message_command_response}
use cockpit_slurm.Protocol.Command.{
  NodeCommandRequestPayload, NodeCommandResponsePayload, CommandStatus, ErrorCategory, conflict,
  internal, ErrorCode, ledger_persistence_failed, authorization_outcome_unknown,
  command_id_conflict, internal_error, ErrorPayload,
}
use cockpit_slurm.Ledger.Status.{
  Status, authorization_pending, authorization_uncertain, authorization_failed, accepted, running,
  succeeded, failed, denied, unknown,
}
use cockpit_slurm.Ledger.Table.{Record, TransitionData}
use cockpit_slurm.Ledger.Store.{ok, err, reconcile}
use cockpit_slurm.Identity.Resolver.{UserContext}
use cockpit_slurm.Authorization.Registry.{
  RegistryEntry, operation_node_drain, operation_node_resume,
}
use cockpit_slurm.Command.World.{
  bytes_of, new_error_envelope, Service, World, Access, Turn, others, lookup_with, transition_with,
}

abbrev pub Reply : Type 0
Reply = Envelope × World

-- `errorPayload`
unfoldable pub error_payload : ErrorCode → ErrorCategory → String → Bool → String → ErrorPayload
error_payload code category detail retryable command_id = record {
  code = code;
  category = category;
  message = detail;
  retryable = retryable;
  command_id = command_id;
  resource = "";
  target = none;
}

-- `errorEnvelope`
unfoldable pub error_envelope :
    Service → Envelope → ErrorCode → ErrorCategory → String → Bool → String → Envelope
error_envelope s m code category detail retryable command_id =
    new_error_envelope s.codec m.message_id
      (error_payload code category detail retryable command_id)

-- `persistenceError`
unfoldable pub persistence_error : Service → Turn → Envelope → String → World → Reply
persistence_error s t m command_id w0 =
    let w = others t.recover_before w0 in
    (
      error_envelope s m ledger_persistence_failed internal
          "Command storage is unavailable; do not retry automatically" false command_id,
      if w.ledger.blocked then record w { ledger = (reconcile t.recovery w.ledger).1 } else w,
    )

unfoldable pub operation_for : String → Option String
operation_for state =
    if state == "DRAIN"
    then some operation_node_drain
    else if state == "RESUME"
    then some operation_node_resume
    else none

unfoldable pub has_reason : Option String → Bool
has_reason none = false
has_reason (some s) = true

-- `validateAgainstRegistry(entry, request) == nil`
unfoldable pub valid_against_registry : RegistryEntry → NodeCommandRequestPayload → Bool
valid_against_registry entry request =
    not (entry.operation_id == operation_node_drain && not (has_reason request.parameters.reason))
    && not (entry.operation_id == operation_node_resume && has_reason request.parameters.reason)

-- The payload of a stored error, where it can be decoded.
unfoldable pub stored_error : Service → Envelope → Record → Envelope
stored_error s m r = elim (s.codec.unmarshal_error r.error_payload) [
  | none ↦
      error_envelope s m internal_error internal "Command result is unavailable" true r.command_id
  | some p ↦ new_error_envelope s.codec m.message_id p
]

unfoldable pub running_response : Record → NodeCommandResponsePayload
running_response r = record {
  command_id = r.command_id;
  resource = r.resource;
  command = r.command;
  target = none;
  parameters = none;
  status = CommandStatus.running;
}

-- `recordResponse`
unfoldable pub record_response : Service → Envelope → Record → Envelope
record_response s m r = elim r.status [
  | succeeded ↦
      new_envelope s.codec.timestamp m.message_id message_command_response
        (bytes_of r.result_payload)
  | denied ↦ stored_error s m r
  | authorization_failed ↦ stored_error s m r
  | running ↦
      new_envelope s.codec.timestamp m.message_id message_command_response
        (bytes_of (s.codec.marshal_response (running_response r)))
  | failed ↦ stored_error s m r
  | unknown ↦ stored_error s m r
  | authorization_uncertain ↦
      error_envelope s m authorization_outcome_unknown internal
        "Authorization outcome is unknown; use a new command ID after recovery" false r.command_id
  | authorization_pending ↦
      error_envelope s m internal_error internal "Command is being processed" true r.command_id
  | accepted ↦
      error_envelope s m internal_error internal "Command is being processed" true r.command_id
]

unfoldable pub is_waiting : Status → Bool
is_waiting authorization_pending = true
is_waiting accepted = true
is_waiting _ = false

unfoldable pub conflict_error : Service → Envelope → String → Envelope
conflict_error s m command_id =
    error_envelope s m command_id_conflict conflict
      "Command ID was already used for a different request" false command_id

-- `awaitRecord`, over the rounds that its context lasts.
unfoldable pub await_record :
    Service → Turn → Envelope → String → List Access → Record → World → Reply
await_record s t m fingerprint [] r w =
    if not (is_waiting r.status)
    then (record_response s m r, w)
    else if w.ledger.blocked
    then persistence_error s t m r.command_id w
    else (
      error_envelope s m internal_error internal "Command is still being processed" true
          r.command_id,
      w,
    )
await_record s t m fingerprint (a ∷ polls) r w =
    let (found, w') = lookup_with a r.caller_uid r.command_id w in
    let again : Reply = elim found [
      | err e ↦ persistence_error s t m r.command_id w'
      | ok none ↦ persistence_error s t m r.command_id w'
      | ok (some u) ↦ elim (u.request_fingerprint == fingerprint) [
        | false ↦ (conflict_error s m r.command_id, w')
        | true ↦ await_record s t m fingerprint polls u w'
      ]
    ] in
    if not (is_waiting r.status)
    then (record_response s m r, w)
    else if w.ledger.blocked
    then persistence_error s t m r.command_id w
    else again

abbrev pub no_data : TransitionData
no_data = record {
  admin_level = "";
  authorization_metadata = none;
  execution_uid = none;
  execution_username = "";
  execution_boundary = "";
  result_payload = none;
  error_payload = none;
}

-- A request that has been decoded, with its canonical JSON and the digest of it.
pub record Job : Type 0 where
  pub requester : UserContext
  pub message : Envelope
  pub request : NodeCommandRequestPayload
  pub canonical : String
  pub fingerprint : String

-- What the registry and the helper's validation add to it.
pub record Plan : Type 0 where
  pub job : Job
  pub open job use *
  pub operation_id : String
  pub required_capability : String
  pub reason : String

-- `Transition` to a terminal status with an error payload, and the error as the response.
unfoldable pub close_with :
    Service → Turn → Access → Plan → Status → Status → ErrorPayload → World → Reply
close_with s t a p expected next failure w =
    let data' : TransitionData = record no_data { error_payload = s.codec.marshal_error failure } in
    let (moved, w') =
      transition_with a p.requester.uid p.request.command_id expected next data' w in
    elim moved [
      | err e ↦ persistence_error s t p.message p.request.command_id w'
      | ok _ ↦ (new_error_envelope s.codec p.message.message_id failure, w')
    ]
