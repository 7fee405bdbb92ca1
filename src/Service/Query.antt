-- ===== src/Service/Query.antt =====
-- internal/service/query.go: queries for the snapshot of the nodes. The JSON package, the text that
-- `fmt` makes of an error and the clock's text are arguments; a cache is always there.
use cockpit_slurm.Base.{String, Option, none, some, ◌!=◌, if◌then◌else◌, string_eq, is_empty}
use cockpit_slurm.Protocol.Envelope.{Envelope, new_envelope, message_error, message_query_response}
use cockpit_slurm.Resource.Node.{Snapshot}
use cockpit_slurm.Resource.Cache.{NodeCache, snapshot}

-- The errors of `Query` on an initialized service.
pub data QueryError : Type 0 where
  resource_required : QueryError
  unsupported_resource : String → QueryError

pub data QueryResult : Type 0 where
  answered : Snapshot → QueryResult
  rejected : QueryError → QueryResult

-- `NodeQueryService.Query`
unfoldable pub query : NodeCache → String → QueryResult
query cache resource_name =
    if is_empty resource_name
    then rejected resource_required
    else if resource_name != "nodes"
    then rejected (unsupported_resource resource_name)
    else answered (snapshot cache)

-- The JSON package: the field `resource` of a payload, and the encoder of a snapshot; `not_found`
-- formats the payload of an error, and `timestamp` is the clock's text.
pub record QueryCodec : Type 0 where
  pub unmarshal : String → Option String
  pub marshal : Snapshot → Option String
  pub not_found : QueryError → String
  pub timestamp : String

abbrev pub invalid_query_payload : String
invalid_query_payload = "{\"code\":\"INVALID_MESSAGE\",\"message\":\"invalid query payload\"}"

abbrev pub missing_resource : String
missing_resource = "{\"code\":\"INVALID_MESSAGE\",\"message\":\"missing resource\"}"

abbrev pub encoding_failed : String
encoding_failed = "{\"code\":\"INTERNAL_ERROR\",\"message\":\"failed to encode snapshot\"}"

-- The end of `QueryHandler.Handle`.
unfoldable pub answer : QueryCodec → String → QueryResult → Envelope
answer c message_id (rejected e) = new_envelope c.timestamp message_id message_error (c.not_found e)
answer c message_id (answered s) = elim (c.marshal s) [
  | none ↦ new_envelope c.timestamp message_id message_error encoding_failed
  | some payload ↦ new_envelope c.timestamp message_id message_query_response payload
]

-- `QueryHandler.Handle`
unfoldable pub handle_query : QueryCodec → NodeCache → Envelope → Envelope
handle_query c cache m = elim (c.unmarshal m.payload) [
  | none ↦ new_envelope c.timestamp m.message_id message_error invalid_query_payload
  | some resource_name ↦
      if is_empty resource_name
      then new_envelope c.timestamp m.message_id message_error missing_resource
      else answer c m.message_id (query cache resource_name)
]
