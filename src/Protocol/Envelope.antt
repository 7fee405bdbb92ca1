-- ===== src/Protocol/Envelope.antt =====
-- internal/protocol/envelope.go, message.go and errors.go. A payload is the text of its JSON; the
-- clock that fills the timestamp is an argument.
use cockpit_slurm.Base.{
  String, Bool, not, Option, none, some, List, [], ◌∷◌, ◌==◌, ◌!=◌, if◌then◌else◌, string_eq,
  is_empty, any,
}

abbrev pub protocol_name : String
protocol_name = "cockpit-slurm"

abbrev pub protocol_version : String
protocol_version = "1.0"

-- The message types, as they are written in an envelope.
abbrev pub message_hello : String
message_hello = "hello"

abbrev pub message_hello_response : String
message_hello_response = "hello-response"

abbrev pub message_query : String
message_query = "query"

abbrev pub message_query_response : String
message_query_response = "query-response"

abbrev pub message_command : String
message_command = "command"

abbrev pub message_command_response : String
message_command_response = "command-response"

abbrev pub message_capabilities_request : String
message_capabilities_request = "capabilities-request"

abbrev pub message_capabilities_response : String
message_capabilities_response = "capabilities-response"

abbrev pub message_event : String
message_event = "event"

abbrev pub message_error : String
message_error = "error"

abbrev pub message_ping : String
message_ping = "ping"

abbrev pub message_pong : String
message_pong = "pong"

abbrev pub known_types : List String
known_types =
    message_hello ∷ message_hello_response ∷ message_query ∷ message_query_response ∷ "subscribe"
    ∷ "subscribe-response" ∷ "unsubscribe" ∷ "unsubscribe-response" ∷ message_command
    ∷ message_command_response ∷ "command-status" ∷ message_capabilities_request
    ∷ message_capabilities_response ∷ message_event ∷ message_error ∷ message_ping ∷ message_pong
    ∷ "close" ∷ []

-- `MessageType.IsKnown`
unfoldable pub is_known : String → Bool
is_known t = any (λ k. t == k) known_types

pub record Envelope : Type 0 where
  pub protocol : String
  pub version : String
  pub message_id : String
  pub message_type : String
  pub timestamp : String
  pub payload : String

unfoldable pub new_envelope : String → String → String → String → Envelope
new_envelope now message_id message_type payload = record {
  protocol = protocol_name;
  version = protocol_version;
  message_id = message_id;
  message_type = message_type;
  timestamp = now;
  payload = payload;
}

pub data ProtocolError : Type 0 where
  invalid_protocol invalid_version invalid_message unknown_message : ProtocolError

-- `ValidateEnvelope`; `none` is the nil error.
unfoldable pub validate_envelope : Envelope → Option ProtocolError
validate_envelope e =
    if is_empty e.protocol
    then some invalid_protocol
    else if e.protocol != protocol_name
    then some invalid_protocol
    else if is_empty e.version
    then some invalid_version
    else if e.version != protocol_version
    then some invalid_version
    else if is_empty e.message_id
    then some invalid_message
    else if is_empty e.message_type
    then some invalid_message
    else if not (is_known e.message_type)
    then some unknown_message
    else if is_empty e.payload
    then some invalid_message
    else none
