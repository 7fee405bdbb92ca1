-- ===== src/Protocol/Command.antt =====
-- internal/protocol/command.go: the Node command request and its validation, and the error payload.
-- `decodeStrictPayload` hands over the wire struct of its JSON decoder, which is an argument.
use Prim.Native.String.{len}
use cockpit_slurm.Base.{
  String, Bool, true, false, not, ◌&&◌, ◌||◌, Option, none, some, ltb, ◌==◌, ◌!=◌, if◌then◌else◌,
  nat_eq, string_eq, is_empty, is_blank, has_control, codes, is_alphanumeric, is_name_mark, all,
}

pub record NodeCommandTarget : Type 0 where
  pub node_name : String

pub record NodeCommandParameters : Type 0 where
  pub state : String
  pub reason : Option String

pub record NodeCommandRequestPayload : Type 0 where
  pub command_id : String
  pub resource : String
  pub command : String
  pub target : NodeCommandTarget
  pub parameters : NodeCommandParameters

pub data CommandStatus : Type 0 where
  running succeeded failed denied unknown : CommandStatus

pub record NodeCommandResponsePayload : Type 0 where
  pub command_id : String
  pub resource : String
  pub command : String
  pub target : Option NodeCommandTarget
  pub parameters : Option NodeCommandParameters
  pub status : CommandStatus

pub data ErrorCategory : Type 0 where
  authentication authorization validation not_found conflict slurm timeout internal protocol :
      ErrorCategory

pub data ErrorCode : Type 0 where
  invalid_command invalid_payload identity_unavailable user_lookup_failed : ErrorCode
  authorization_denied capability_unavailable ledger_persistence_failed : ErrorCode
  authorization_outcome_unknown command_id_conflict message_id_conflict : ErrorCode
  command_outcome_unknown command_timeout slurm_command_failed unsupported_message_type : ErrorCode
  internal_error : ErrorCode

pub record ErrorPayload : Type 0 where
  pub code : ErrorCode
  pub category : ErrorCategory
  pub message : String
  pub retryable : Bool
  pub command_id : String
  pub resource : String
  pub target : Option NodeCommandTarget

-- The raw `reason` of the wire struct: absent, `null`, a JSON string, or another value.
pub data RawReason : Type 0 where
  absent null_reason other_value : RawReason
  text : String → RawReason

pub record WireRequest : Type 0 where
  pub command_id : String
  pub resource : String
  pub command : String
  pub node_name : String
  pub state : String
  pub reason : RawReason

unfoldable pub valid_command_id : String → Bool
unfolding is_alphanumeric is_name_mark
valid_command_id id =
    not (is_empty id || ltb 128 (len id))
    && all (λ c. is_alphanumeric c || is_name_mark c) (codes id)

-- The reason of a drain, where it is acceptable.
unfoldable pub decode_drain_reason : RawReason → Option String
decode_drain_reason absent = none
decode_drain_reason null_reason = none
decode_drain_reason other_value = none
decode_drain_reason (text s) =
    if is_blank s || ltb 256 (len s) then none else if has_control s then none else some s

unfoldable pub is_absent : RawReason → Bool
is_absent absent = true
is_absent _ = false

unfoldable pub request_of : WireRequest → Option String → NodeCommandRequestPayload
request_of w reason = record {
  command_id = w.command_id;
  resource = w.resource;
  command = w.command;
  target = record { node_name = w.node_name };
  parameters = record { state = w.state; reason = reason };
}

-- `DecodeNodeCommandRequestPayload` on what `decodeStrictPayload` returns; `none` is an error.
unfoldable pub decode_request : Option WireRequest → Option NodeCommandRequestPayload
decode_request none = none
decode_request (some w) =
    if not (valid_command_id w.command_id) || (w.resource != "node" || w.command != "update")
    then none
    else if is_empty w.node_name || ltb 255 (len w.node_name)
    then none
    else if w.state == "DRAIN"
    then elim (decode_drain_reason w.reason) [ none ↦ none | some s ↦ some (request_of w (some s)) ]
    else if w.state == "RESUME"
    then (if is_absent w.reason then some (request_of w none) else none)
    else none
