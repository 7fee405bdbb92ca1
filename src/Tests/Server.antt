-- ===== src/Tests/Server.antt =====
-- The daemon's server and its own dispatcher (internal/ipc/server_test.go,
-- internal/dispatcher/dispatcher_test.go).
use cockpit_slurm.Ipc.Server.{closes_socket}
use cockpit_slurm.Ipc.Server.{drop_socket}
use cockpit_slurm.Ipc.Server.{drop_closing}
use cockpit_slurm.Ipc.Server.{close_socket}
use cockpit_slurm.Base.{is_empty}
use cockpit_slurm.Ipc.Server.{listen}
use cockpit_slurm.Ipc.Server.{begin_close}
use cockpit_slurm.Ipc.Server.{server_step}
use cockpit_slurm.Base.{◌≡◌, refl, false, none, some, List, [], ◌∷◌}
use cockpit_slurm.Ipc.Server.{
  socket_file, refused, remove_stale_socket, ListenAttempt, ServerOp, listens, accepts,
  begins_close, new_server, accept_socket, run_server,
}
use cockpit_slurm.Resource.Cache.{NodeCache, new_node_cache}
use cockpit_slurm.Service.Query.{QueryCodec}
use cockpit_slurm.Dispatch.Router.{Desk, dispatch}
use cockpit_slurm.Dispatch.Handlers.{Greetings, new_dispatcher}
use cockpit_slurm.Dispatch.Responses.{Responds, dispatch-Responds}
use cockpit_slurm.Tests.Command.{codec, message, alice}
use cockpit_slurm.Tests.Dispatch.{format}
use cockpit_slurm.Tests.Service.{handler}

abbrev attempt : ListenAttempt
attempt = record {
  directory_fails = false;
  inspected = socket_file;
  dialed = refused;
  remove_fails = false;
  bind_fails = false;
  chmod_fails = false;
}

abbrev life : List ServerOp
life = listens attempt ∷ accepts 3 ∷ accepts 4 ∷ begins_close ∷ []

-- A socket is open behind the section of `Close` under the mutex, and none is once the sockets are
-- closed.
still_open : (run_server life new_server).open_sockets ≡ 4 ∷ 3 ∷ []
unfolding run_server server_step begin_close accept_socket listen new_server remove_stale_socket
still_open = refl

none_open :
    (run_server
      (closes_socket 0 3 ∷ closes_socket 0 4 ∷ [])
      (run_server life new_server)).open_sockets
    ≡ []
unfolding run_server server_step begin_close accept_socket listen new_server remove_stale_socket
    close_socket drop_closing drop_socket
none_open = refl

abbrev pub greetings : Greetings
greetings = record { marshal_hello = some "{}"; marshal_ping = none }

abbrev pub queries : QueryCodec
queries = record {
  unmarshal = λ payload. some "nodes";
  marshal = λ s. some "{}";
  not_found = λ e. "{}";
  timestamp = "2026-01-01T00:00:00Z";
}

abbrev front : Desk NodeCache
front = record { counter = 0; state = new_node_cache }

dispatch-Responds_example : Responds message front (
    dispatch
      (codec "f1")
      format
      (new_dispatcher (λ s. s) (codec "f1") greetings queries handler)
      (some alice)
      message
      front)
unfolding is_empty
dispatch-Responds_example =
    dispatch-Responds (λ s. s) (codec "f1") format greetings queries handler (some alice) message
      front refl
