-- ===== src/Service/Capabilities.antt =====
-- internal/service/capabilities.go with internal/protocol/capabilities.go: what a user is told about the
-- operations that are open to him. The JSON package and the clock's text are arguments.
use cockpit_slurm.Base.{
  String, Bool, true, false, ◌||◌, Option, none, some, ◌!=◌, if◌then◌else◌, nat_eq, string_eq,
  is_empty,
}
use cockpit_slurm.Base.Maps.{lookup}
use cockpit_slurm.Protocol.Envelope.{Envelope, new_envelope, message_capabilities_response}
use cockpit_slurm.Protocol.Command.{
  ErrorPayload, ErrorCode, ErrorCategory, invalid_payload, identity_unavailable,
  capability_unavailable, validation, authentication, internal,
}
use cockpit_slurm.Identity.Resolver.{
  UserContext, IdentityResult, ok, err, capability_node_drain, capability_node_resume,
}
use cockpit_slurm.Identity.Resolver.{identity_unavailable as no_identity}
use cockpit_slurm.Command.World.{Codec, new_error_envelope}
use cockpit_slurm.Json.Strict.{Decoder, decode_strict_payload}

pub record NodeCapabilities : Type 0 where
  pub nodes_drain : Bool
  pub nodes_resume : Bool

pub record CapabilitiesResponsePayload : Type 0 where
  pub capabilities : NodeCapabilities

-- The wire struct of a response, with its pointers.
pub record WireCapabilities : Type 0 where
  pub drain : Option Bool
  pub resume : Option Bool

-- `DecodeCapabilitiesRequestPayload`; the request has no fields.
unfoldable pub decode_capabilities_request : Decoder (Unit {0}) → String → Option (Unit {0})
decode_capabilities_request d payload = decode_strict_payload d payload

-- The pointers of a decoded response, dereferenced where all are there.
unfoldable pub response_of : Option WireCapabilities → Option CapabilitiesResponsePayload
response_of none = none
response_of (some w) = elim w.drain [
  | none ↦ none
  | some a ↦ elim w.resume [
    | none ↦ none
    | some b ↦ some (record { capabilities = record { nodes_drain = a; nodes_resume = b } })
  ]
]

-- `DecodeCapabilitiesResponsePayload`; `none` is an error.
unfoldable pub decode_capabilities_response :
    Decoder (Option WireCapabilities) → String → Option CapabilitiesResponsePayload
decode_capabilities_response d payload = elim (decode_strict_payload d payload) [
  | none ↦ none
  | some w ↦ response_of w
]

-- What the handler works with: the resolver, where there is one, and the JSON package.
pub record CapabilitiesHandler : Type 0 where
  pub resolver : Option (UserContext → IdentityResult UserContext)
  pub request_decoder : Decoder (Unit {0})
  pub marshal : CapabilitiesResponsePayload → Option String
  pub codec : Codec

abbrev failure : ErrorCode → ErrorCategory → String → Bool → ErrorPayload
failure code category detail retryable = record {
  code = code;
  category = category;
  message = detail;
  retryable = retryable;
  command_id = "";
  resource = "";
  target = none;
}

-- The error payload for an invalid request.
unfoldable pub invalid_request : ErrorPayload
invalid_request = failure invalid_payload validation "Invalid capabilities request" false

-- The error payload for a user who cannot be determined.
unfoldable pub unknown_user : ErrorPayload
unknown_user =
    failure identity_unavailable authentication "Unable to determine the authenticated user" false

-- `capabilityUnavailable`
unfoldable pub unavailable : ErrorPayload
unavailable =
    failure capability_unavailable internal "Capabilities are temporarily unavailable" true

unfoldable pub capability_unavailable_response : Codec → String → Envelope
capability_unavailable_response c message_id = new_error_envelope c message_id unavailable

-- The rest of `HandleAuthenticated` once both capabilities are read.
unfoldable pub respond : CapabilitiesHandler → String → Bool → Bool → Envelope
respond h message_id a b =
    elim (h.marshal (record { capabilities = record { nodes_drain = a; nodes_resume = b } })) [
      | none ↦ capability_unavailable_response h.codec message_id
      | some payload ↦
          new_envelope h.codec.timestamp message_id message_capabilities_response payload
    ]

-- The rest of `HandleAuthenticated` behind the call of the resolver.
unfoldable pub report :
    CapabilitiesHandler → UserContext → String → IdentityResult UserContext → Envelope
report h requester message_id (err e) = elim e [
  | no_identity ↦ new_error_envelope h.codec message_id unknown_user
  | _ ↦ capability_unavailable_response h.codec message_id
]
report h requester message_id (ok resolved) =
    if resolved.username != requester.username
      || (resolved.uid != requester.uid || resolved.gid != requester.gid)
    then capability_unavailable_response h.codec message_id
    else elim (lookup capability_node_drain resolved.capabilities) [
      | none ↦ capability_unavailable_response h.codec message_id
      | some a ↦ elim (lookup capability_node_resume resolved.capabilities) [
        | none ↦ capability_unavailable_response h.codec message_id
        | some b ↦ respond h message_id a b
      ]
    ]

-- `HandleAuthenticated`
unfoldable pub handle_authenticated : CapabilitiesHandler → UserContext → Envelope → Envelope
handle_authenticated h requester m =
    elim (decode_capabilities_request h.request_decoder m.payload) [
      | none ↦ new_error_envelope h.codec m.message_id invalid_request
      | some _ ↦
          if is_empty requester.username
          then new_error_envelope h.codec m.message_id unknown_user
          else elim h.resolver [
            | none ↦ capability_unavailable_response h.codec m.message_id
            | some resolver ↦ report h requester m.message_id (resolver requester)
          ]
    ]
