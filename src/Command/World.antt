-- ===== src/Command/World.antt =====
-- The surroundings of the command service (internal/command/service.go): what it shares with other
-- requests, and what its collaborators answer while it handles one request.
use cockpit_slurm.Base.{ℕ, String, Bool, Option, none, some, List}
use cockpit_slurm.Protocol.Envelope.{Envelope, new_envelope, message_error}
use cockpit_slurm.Protocol.Command.{
  WireRequest, NodeCommandRequestPayload, NodeCommandResponsePayload, ErrorPayload,
}
use cockpit_slurm.Ledger.Status.{Status}
use cockpit_slurm.Ledger.Table.{Claim, Record, TransitionData}
use cockpit_slurm.Ledger.Store.{
  Ledger, Call, Recovery, Result, lookup, reserve_authorization, transition,
}
use cockpit_slurm.Ledger.History.{Op, run}
use cockpit_slurm.Resource.Cache.{NodeCache}
use cockpit_slurm.Identity.Resolver.{UserContext}
use cockpit_slurm.Authorization.Registry.{Registry}
use cockpit_slurm.Authorization.Authorizer.{Decision}

-- The JSON package, SHA-256 and the clock's text. `none` is an error of the encoder or the decoder.
pub record Codec : Type 0 where
  pub decode_strict : String → Option WireRequest
  pub marshal_request : NodeCommandRequestPayload → Option String
  pub marshal_error : ErrorPayload → Option String
  pub unmarshal_error : Option String → Option ErrorPayload
  pub marshal_response : NodeCommandResponsePayload → Option String
  pub marshal_metadata : String → ℕ → Option String
  pub sha256 : String → String
  pub timestamp : String

-- A byte slice as a payload; `nil` has no bytes.
unfoldable pub bytes_of : Option String → String
bytes_of none = ""
bytes_of (some b) = b

abbrev pub fallback_error : String
fallback_error =
    "{\"code\":\"internal-error\",\"category\":\"internal-error\",\"message\":\"Internal error\",\"retryable\":true}"

-- `NewErrorEnvelope`
unfoldable pub new_error_envelope : Codec → String → ErrorPayload → Envelope
new_error_envelope c message_id p =
    new_envelope c.timestamp message_id message_error
      (elim (c.marshal_error p) [ none ↦ fallback_error | some b ↦ b ])

pub record ExecutionIdentity : Type 0 where
  pub uid : ℕ
  pub username : String
  pub boundary : String

-- The struct `Service`, with what its ports hold while a request is handled. The map of its locks
-- is left out.
pub record Service : Type 0 where
  pub registry : Registry
  pub execution : ExecutionIdentity
  pub nodes : NodeCache
  pub service_uid : ℕ
  pub service_user : String
  pub has_refresh : Bool
  pub codec : Codec

-- A call of `Execute`.
pub record Execution : Type 0 where
  pub caller_uid : ℕ
  pub command_id : String
  pub operation_id : String
  pub node_name : String
  pub reason : String

-- What requests share: the ledger, the calls of the executor so far, newest first, and how many
-- refreshes of the nodes were requested.
pub record World : Type 0 where
  pub ledger : Ledger
  pub executed : List Execution
  pub refreshes : ℕ

-- One call of the ledger, behind whatever other requests did to it since the last one.
pub record Access : Type 0 where
  pub before : List Op
  pub call : Call

-- How a call of `Execute` ends: with no error, or with one, where the flag tells whether the service
-- takes the outcome for unknown (`ErrExecutionOutcomeUnknown`, a deadline, a cancelled context).
pub data Outcome : Type 0 where
  execution_ok : Outcome
  execution_error : Bool → Outcome

-- What the collaborators answer while one request is handled. `polls` are the rounds that
-- `awaitRecord` waits; its context is cancelled behind the last one.
pub record Turn : Type 0 where
  pub lookup_access : Access
  pub reserve_access : Access
  pub refuse_access : Access
  pub accept_access : Access
  pub run_access : Access
  pub finish_access : Access
  pub authorizer : UserContext → String → Option Decision
  pub authorized_at : ℕ
  pub outcome : Outcome
  pub polls : List Access
  pub recover_before : List Op
  pub recovery : Recovery

unfoldable pub others : List Op → World → World
others os w = record w { ledger = run os w.ledger }

unfoldable pub lookup_with : Access → ℕ → String → World → Result (Option Record) × World
lookup_with a uid id w =
    let (r, l) = lookup a.call uid id (run a.before w.ledger) in (r, record w { ledger = l })

unfoldable pub reserve_with : Access → Claim → World → Result (Record × Bool) × World
reserve_with a c w =
    let (r, l) = reserve_authorization a.call c (run a.before w.ledger) in
    (r, record w { ledger = l })

unfoldable pub transition_with :
    Access → ℕ → String → Status → Status → TransitionData → World → Result (Unit {0}) × World
transition_with a uid id expected next d w =
    let (r, l) = transition a.call uid id expected next d (run a.before w.ledger) in
    (r, record w { ledger = l })
