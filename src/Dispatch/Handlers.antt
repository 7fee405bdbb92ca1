-- ===== src/Dispatch/Handlers.antt =====
-- internal/dispatcher/dispatcher.go: the hello and ping handlers, and the dispatcher that the
-- constructors make, over the query and capability handlers of internal/service. The handlers
-- find the node cache in the state that the dispatcher stands over.
use cockpit_slurm.Base.{true}
use cockpit_slurm.Base.{String, Option, none, some, []}
use cockpit_slurm.Base.Maps.{insert}
use cockpit_slurm.Protocol.Envelope.{
  Envelope, new_envelope, message_hello, message_hello_response, message_ping, message_pong,
  message_query, message_capabilities_request,
}
use cockpit_slurm.Protocol.Command.{internal_error, internal}
use cockpit_slurm.Resource.Cache.{NodeCache}
use cockpit_slurm.Command.World.{Codec, new_error_envelope}
use cockpit_slurm.Service.Query.{QueryCodec, handle_query}
use cockpit_slurm.Service.Capabilities.{CapabilitiesHandler, handle_authenticated}
use cockpit_slurm.Dispatch.Router.{Handler, MessageDispatcher, register_authenticated}

-- What the JSON package makes of the two payloads.
pub record Greetings : Type 0 where
  pub marshal_hello : Option String
  pub marshal_ping : Option String

-- The end of both handlers. Their message id is not empty, since `dispatch` refuses an empty one, so
-- that the error envelope has it.
unfoldable pub greet : Codec → String → Option String → Envelope → Envelope
greet c kind none m = new_error_envelope c m.message_id (record {
  code = internal_error;
  category = internal;
  message = "Internal error";
  retryable = true;
  command_id = "";
  resource = "";
  target = none;
})
greet c kind (some payload) m = new_envelope c.timestamp m.message_id kind payload

-- `helloHandler.Handle`
unfoldable pub handle_hello : Codec → Greetings → Envelope → Envelope
handle_hello c g m = greet c message_hello_response g.marshal_hello m

-- `pingHandler.Handle`
unfoldable pub handle_ping : Codec → Greetings → Envelope → Envelope
handle_ping c g m = greet c message_pong g.marshal_ping m

module _ {ℓ} {S : Type ℓ} where
  -- `Register` for a handler that is not nil
  unfoldable pub register_handler : String → Handler S → MessageDispatcher S → MessageDispatcher S
  register_handler kind h d = record d { handlers = insert kind h d.handlers }

  -- A dispatcher without handlers.
  abbrev pub no_handlers : MessageDispatcher S
  no_handlers = record { handlers = []; authenticated_handlers = [] }

  -- `NewDispatcherWithCacheAndCapabilities`, on a cache that is there.
  unfoldable pub new_dispatcher :
      (S → NodeCache) → Codec → Greetings → QueryCodec → CapabilitiesHandler → MessageDispatcher S
  new_dispatcher nodes c g q h =
      register_authenticated message_capabilities_request
        (λ user m s. (handle_authenticated h user m, s))
        (register_handler message_query (λ m s. (handle_query q (nodes s) m, s))
          (register_handler message_ping (λ m s. (handle_ping c g m, s))
            (register_handler message_hello (λ m s. (handle_hello c g m, s)) no_handlers)))
