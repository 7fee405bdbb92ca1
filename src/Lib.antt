-- ===== src/Lib.antt =====
-- cockpit-slurm: the daemon behind a Cockpit page that shows the nodes of a Slurm cluster and lets
-- administrators drain and resume them.
--
-- A client sends frames over a Unix socket. A command frame names a command id, a node and a state;
-- the command service looks the command up in a persistent ledger, reserves it, has the requester
-- authorized against the Slurm database, records each step as a transition of the ledger's row, and
-- asks a privileged helper over D-Bus to run `scontrol`. The node cache says which nodes exist.
--
-- Base (lists, texts, equality, maps) is shared by all the others.
-- Ledger models internal/ledger/ledger.go. Status has the states and `allowedTransition`; Table the
--   rows and the SQL statements, one function for each; Store the methods `ReserveAuthorization`,
--   `Lookup`, `Transition` and `Reconcile`, which take the answers of the database as a `Call` or a
--   `Recovery`; History the sequences of calls and restarts (`Open` behind the migration). Keys,
--   Cases, Lifecycle, Finality, Retention, Audit, AuditHistory, Outcomes, Reservations and Refusals hold
--   the proofs. Schema and Migration are about `configure` and `migrate`.
-- NodeHelper models internal/nodehelper/helper.go: `BuildScontrolArgs` and `SetNodeState`;
--   Inputs describes the names and reasons that it takes, and Safety has the proofs.
-- Protocol models internal/protocol: the envelope and its validation, the Node command request, and
--   the frames of codec.go as lists of bytes.
-- Json models internal/protocol/json_validation.go and `decodeStrictPayload`: Scanner over tokens,
--   Trees the values that tokens stand for, Accepts and Rejects the two directions of the proof.
-- Resource models internal/resource/node.go, node_change.go, node_cache.go and node_snapshot.go;
--   Slurm has `MapSlurmNode`.
-- Sync models internal/resource/node_adapter.go and node_synchronizer.go over the cache and the
--   streams.
-- Identity models internal/identity/capabilities.go (Resolver) and sacctmgr.go (Sacctmgr), and
--   Authorization models internal/authorization/registry.go and authorizer.go.
-- Service models internal/service/query.go and capabilities.go, with the payloads of
--   internal/protocol/capabilities.go.
-- Connections models internal/connection/connection.go; Peers joins it to the dispatcher.
-- Locks models `lock` of internal/command/service.go as steps of interleaved threads.
-- Command models internal/command/service.go. World holds what a request shares with others and the
--   answers of its collaborators (`Turn`), Service, Execute and Handle the functions.
--   Steps describes a request by ledger operations alone; Calls and Refines prove that `Handle` is
--   such a sequence; Once and Authorized build on that, with Quiet and Cases; Replay, Retries and
--   Restarts are about commands that the ledger has. Executor models internal/command/dbus_executor.go, and
--   Effects joins it to the helper.
-- Stream models internal/stream/node_registry.go over the cache: Registry has the operations,
--   Delivery and Baseline what each stream is sent.
-- Ipc models internal/ipc/server.go: Session has the replay cache and the read loop of a
--   connection, over any dispatcher, Outbound its queue and its writer as interleaved steps, and
--   Server the listener and the close of the server; Replays, Written and Shutdown have the proofs.
-- Dispatch models internal/dispatcher/dispatcher.go: Router the routing over any handlers, Handlers
--   the daemon's own ones; Identified, Answers and Responses have the proofs.
-- Channel models internal/channel/channel.go.
-- Daemon models the wiring of cmd/cockpit-slurm/main.go: the command service in the dispatcher, behind
--   the read loop of a connection; Justified joins the parts' theorems.
-- Tests applies each theorem to a concrete input.
--
-- State is passed explicitly. A mutex makes a ledger method one step, and between two ledger calls
-- of one request any list of ledger operations of other requests may run (`Access.before`). Loops
-- are structural: `awaitRecord` polls as often as the list of its rounds is long, and its context
-- ends behind them; `writeFull` runs over the outcomes of `Write`. The scanner of
-- JSON tokens has twice their number and one more as fuel, and the migration four rounds, of which
-- the theorems show that they are enough. Numbers
-- that the code only stores or compares are naturals; the generation of the cache wraps at 2 ^ 64.
--
-- Parameters, since their code is not in the repository: SQLite's answers, the JSON encoder, decoder
-- and tokens, SHA-256, the clock, D-Bus, the runs of `scontrol` and `sacctmgr`, the credentials of a
-- socket and the user database. A nil receiver, service or context is not modelled. Not modelled: the
-- start and the end of the programs, the dial of a socket, the connection to D-Bus, and
-- the generated models, of which the fields that the code reads are records here.
pub mod Authorization
pub mod Base
pub mod Channel
pub mod Command
pub mod Connections
pub mod Daemon
pub mod Dispatch
pub mod Identity
pub mod Ipc
pub mod Json
pub mod Ledger
pub mod Locks
pub mod NodeHelper
pub mod Protocol
pub mod Resource
pub mod Service
pub mod Stream
pub mod Sync
pub mod Tests
