-- ===== src/Connections/Connection.antt =====
-- internal/connection/connection.go: one connection, its peer and its end. The kernel's credentials,
-- the user database and the random identifiers are arguments; the context is the flag `cancelled`.
use cockpit_slurm.Base.{
  ℕ, String, Bool, true, false, ◌&&◌, Option, none, some, [], ◌==◌, if◌then◌else◌, nat_eq, is_empty,
}
use cockpit_slurm.Identity.Resolver.{UserContext}

pub data State : Type 0 where
  new active closing closed : State

unfoldable pub is_closed : State → Bool
is_closed closed = true
is_closed _ = false

pub record PeerIdentity : Type 0 where
  pub uid : ℕ
  pub gid : ℕ
  pub username : String

pub record ConnectionSession : Type 0 where
  pub id : String
  pub connection_id : String
  pub user_context : UserContext

-- The struct `Connection`, with whether its context is cancelled and its socket closed.
pub record Connection : Type 0 where
  pub id : String
  pub session : ConnectionSession
  pub user : UserContext
  pub state : State
  pub cancelled : Bool
  pub socket_closed : Bool

pub record Credentials : Type 0 where
  pub uid : ℕ
  pub gid : ℕ

-- `peerIdentityForCredentials`; the lookup takes the number that `strconv.Itoa` writes.
unfoldable pub peer_identity_for_credentials :
    Credentials → (ℕ → Option String) → Option PeerIdentity
peer_identity_for_credentials c users = elim (users c.uid) [
  | none ↦ none
  | some name ↦
      if is_empty name then none else some (record { uid = c.uid; gid = c.gid; username = name })
]

-- `peerIdentity`; `none` stands for every failure to read the credentials of the socket.
unfoldable pub peer_identity : Option Credentials → (ℕ → Option String) → Option PeerIdentity
peer_identity none users = none
peer_identity (some c) users = peer_identity_for_credentials c users

unfoldable pub user_of_peer : PeerIdentity → UserContext
user_of_peer peer = record {
  uid = peer.uid;
  gid = peer.gid;
  username = peer.username;
  admin_level = "";
  accounts = [];
  coordinator_accounts = [];
  capabilities = [];
}

-- The connection of a peer, under new identifiers.
unfoldable pub connection_of : String → String → PeerIdentity → Connection
connection_of id session_id peer = record {
  id = id;
  session = record { id = session_id; connection_id = id; user_context = user_of_peer peer };
  user = user_of_peer peer;
  state = active;
  cancelled = false;
  socket_closed = false;
}

-- `NewConnection` on a socket; `id` is none where the random source fails, and the session's
-- identifier is the one that does not panic.
unfoldable pub new_connection :
    Option String → String → Option Credentials → (ℕ → Option String) → Option Connection
new_connection none session_id credentials users = none
new_connection (some id) session_id credentials users = elim (peer_identity credentials users) [
  | none ↦ none
  | some peer ↦
      if peer.uid == 0 && (peer.gid == 0 && is_empty peer.username)
      then none
      else some (connection_of id session_id peer)
]

-- `Connection.Close`; its first section, the socket's end and its last section.
unfoldable pub close_connection : Connection → Connection
close_connection c =
    if is_closed c.state
    then c
    else record c { state = closed; cancelled = true; socket_closed = true }
