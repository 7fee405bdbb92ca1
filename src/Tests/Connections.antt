-- ===== src/Tests/Connections.antt =====
-- One connection of a known user (internal/connection/connection_test.go).
use cockpit_slurm.Base.Maps.{insert}
use cockpit_slurm.Connections.Manager.{register_connection}
use cockpit_slurm.Connections.Manager.{step}
use cockpit_slurm.Base.Maps.{lookup}
use cockpit_slurm.Connections.Manager.{get_connection}
use cockpit_slurm.Connections.Connection.{is_closed}
use cockpit_slurm.Base.{is_empty}
use cockpit_slurm.Connections.Connection.{peer_identity_for_credentials}
use cockpit_slurm.Connections.Connection.{peer_identity}
use cockpit_slurm.Base.{ℕ, ◌≡◌, ◌⊎◌, refl, false, some, Option, List, String, [], ◌∷◌}
use cockpit_slurm.Connections.Connection.{
  Connection, PeerIdentity, Credentials, connection_of, new_connection,
}
use cockpit_slurm.Connections.Manager.{
  Op, registers, closes_itself, new_manager, close_all_connections, count_connections, run,
}
use cockpit_slurm.Connections.Peers.{IsPeer, dispatch-IsPeer}
use cockpit_slurm.Connections.Closing.{Ended, close_all_connections-Ended}
use cockpit_slurm.Dispatch.Router.{register_authenticated, is_invalid_envelope, dispatch}
use cockpit_slurm.Tests.Command.{codec, message}
use cockpit_slurm.Tests.Dispatch.{echo, none_registered, desk, format}

abbrev peer : PeerIdentity
peer = record { uid = 1000; gid = 100; username = "alice" }

abbrev pub credentials : Credentials
credentials = record { uid = 1000; gid = 100 }

abbrev pub users : ℕ → Option String
users uid = some "alice"

abbrev pub connected : Connection
connected = connection_of "conn-1" "sess-1" peer

dispatch-IsPeer_example :
    ((dispatch
        (codec "f1")
        format
        (register_authenticated "command" echo none_registered)
        (some connected.user)
        message
        desk).1.state
      ≡ desk.state)
    ⊎ ((c : Credentials) × (some credentials ≡ some c)
        × IsPeer c users connected.user
        × (is_invalid_envelope message ≡ false)
        × ((dispatch
              (codec "f1")
              format
              (register_authenticated "command" echo none_registered)
              (some connected.user)
              message
              desk).1.state
            ≡ (echo connected.user message desk.state).1))
unfolding new_connection peer_identity peer_identity_for_credentials is_empty
dispatch-IsPeer_example =
    dispatch-IsPeer (codec "f1") format none_registered echo message desk (some "conn-1") "sess-1"
      (some credentials) users connected refl

abbrev heap : ℕ → Connection
heap p = connected

abbrev before : List Op
before = registers 0 ∷ []

abbrev after : List Op
after = closes_itself 0 ∷ registers 0 ∷ []

close_all_connections-Ended_example :
    (count_connections (close_all_connections (run before (new_manager heap))) ≡ 0)
    × Ended ((run after (close_all_connections (run before (new_manager heap)))).heap 0)
unfolding is_closed connection_of get_connection lookup run step register_connection new_manager
    insert
close_all_connections-Ended_example =
    close_all_connections-Ended heap before after "conn-1" 0 (λ q. refl) refl
