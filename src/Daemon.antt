-- ===== src/Daemon.antt =====
-- cmd/cockpit-slurm/main.go: the dispatcher of the daemon, with the command service in it, behind the
-- read loop of one connection. The state of the handlers is a `Front`: what requests share, and how
-- many commands were handled so far, which tells the `Turn` of the next one.
pub mod Justified
use cockpit_slurm.Base.{ℕ, suc, String, Option, some}
use cockpit_slurm.Protocol.Envelope.{Envelope, message_command}
use cockpit_slurm.Identity.Resolver.{UserContext}
use cockpit_slurm.Command.World.{Codec, Service, World, Turn}
use cockpit_slurm.Command.Handle.{handle}
use cockpit_slurm.Service.Query.{QueryCodec}
use cockpit_slurm.Service.Capabilities.{CapabilitiesHandler}
use cockpit_slurm.Dispatch.Router.{MessageDispatcher, Desk, register_authenticated, dispatch}
use cockpit_slurm.Dispatch.Handlers.{Greetings, new_dispatcher}
use cockpit_slurm.Connections.Connection.{Connection}
use cockpit_slurm.Ipc.Session.{Ports}

pub record Front : Type 0 where
  pub world : World
  pub handled : ℕ

-- What the constructors of `main` are called with, and the codecs of the handlers.
pub record Daemon : Type 0 where
  pub service : Service
  pub turns : ℕ → Turn
  pub greetings : Greetings
  pub queries : QueryCodec
  pub capabilities : CapabilitiesHandler
  pub format : ℕ → String
  pub decode_json : String → Option String
  pub marshal_content : String → String → String → String → Option String

-- The command service as a handler.
unfoldable pub handle_command : Daemon → UserContext → Envelope → Front → Envelope × Front
handle_command d user m f =
    let (r, w) = handle d.service (d.turns f.handled) user m f.world in
    (r, record { world = w; handled = suc f.handled })

-- The dispatcher that `main` hands to the server.
unfoldable pub message_dispatcher : Daemon → MessageDispatcher Front
message_dispatcher d =
    register_authenticated message_command (handle_command d)
      (new_dispatcher (λ f. d.service.nodes) d.service.codec d.greetings d.queries d.capabilities)

-- What the read loop of a connection calls: the dispatcher, with the user of the connection.
unfoldable pub connection_ports : Daemon → Connection → Ports (Desk Front)
connection_ports d n = record {
  codec = d.service.codec;
  decode_json = d.decode_json;
  marshal_content = d.marshal_content;
  dispatch = dispatch d.service.codec d.format (message_dispatcher d) (some n.user);
}
