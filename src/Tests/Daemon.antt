-- ===== src/Tests/Daemon.antt =====
-- Commands over one connection of the daemon (internal/ipc/server_test.go,
-- internal/command/service_test.go).
use cockpit_slurm.Base.Maps
use cockpit_slurm.Command.Service.{
  is_waiting, operation_for, valid_against_registry, has_reason, await_record,
}
use cockpit_slurm.Ledger.Table.{
  has_key, select, insert_claim, delete_expired, update_status, set_status, pending_record,
  satisfies_checks, coalesce, coalesce_text,
}
use cockpit_slurm.Ledger.History.{run, step}
use cockpit_slurm.Ledger.Store.{
  live_row, lookup, reserve_authorization, validate_claim, finish_reserve, commit_rows, transition,
  has_required_data,
}
use cockpit_slurm.Protocol.Command.{
  request_of, decode_drain_reason, valid_command_id, decode_request,
}
use cockpit_slurm.Base.{
  has_control, is_blank, is_empty, is_missing, is_alphanumeric, is_name_mark, is_control, is_space,
  ◌≡◌, refl, some, List, [], ◌++◌, length, All,
}
use cockpit_slurm.Protocol.Envelope.{new_envelope}
use cockpit_slurm.NodeHelper.Scontrol.{
  build_scontrol_args, valid_node_name, is_all, valid_name_chars, valid_drain_reason,
}
use cockpit_slurm.Ledger.Status.{allowed_transition, same_status}
use cockpit_slurm.Resource.Cache.{get}
use cockpit_slurm.Command.World.{reserve_with, transition_with, bytes_of, lookup_with, Execution}
use cockpit_slurm.Command.Execute.{
  start, running_data, execute, execution_of, finish_succeeded, request_refresh, success_response,
}
use cockpit_slurm.Command.Handle.{
  handle_request, handle_job, admit, plan_of, check_plan, reserve, claim_of, authorize_command,
  is_about, accept, accepted_data, handle,
}
use cockpit_slurm.Base.Maps.{insert}
use cockpit_slurm.Ipc.Session.{
  dispatch_message, request_fingerprint, first_dispatch, Session, serve,
}
use cockpit_slurm.Dispatch.Router.{
  dispatch, is_invalid_envelope, register_authenticated, call_authenticated, Desk,
}
use cockpit_slurm.Dispatch.Handlers.{new_dispatcher, register_handler}
use cockpit_slurm.Connections.Connection.{
  connection_of, user_of_peer, peer_identity, peer_identity_for_credentials, Credentials,
  new_connection,
}
use cockpit_slurm.Daemon.{message_dispatcher, handle_command, Front, Daemon, connection_ports}
use cockpit_slurm.Connections.Peers.{IsPeer}
use cockpit_slurm.Daemon.Justified.{Warranted, serve-OnlyOwn}
use cockpit_slurm.Tests.Command.{service, turn, fresh}
use cockpit_slurm.Tests.Service.{handler}
use cockpit_slurm.Tests.Server.{greetings, queries}
use cockpit_slurm.Tests.Dispatch.{format}
use cockpit_slurm.Tests.Connections.{credentials, users, connected}
use cockpit_slurm.Tests.Ipc.{frames}

abbrev daemon : Daemon
daemon = record {
  service = service "f1";
  turns = λ n. turn;
  greetings = greetings;
  queries = queries;
  capabilities = handler;
  format = format;
  decode_json = λ s. some s;
  marshal_content = λ protocol version kind value. some value;
}

abbrev opened : Session (Desk Front)
opened = record {
  entries = [];
  state = record { counter = 0; state = record { world = fresh; handled = 0 } };
  dispatched = [];
}

serve-OnlyOwn_example :
    (c : Credentials) × (some credentials ≡ some c)
    × IsPeer c users connected.user
    × (calls : List Execution) × ((serve
          (connection_ports daemon connected)
          frames
          opened).1.state.state.world.executed
        ≡ calls ++ [])
    × All (λ e. (e.caller_uid ≡ c.uid) × Warranted daemon connected e) calls
unfolding new_connection peer_identity peer_identity_for_credentials is_empty
serve-OnlyOwn_example =
    serve-OnlyOwn daemon (some "conn-1") "sess-1" (some credentials) users connected frames opened
      refl

-- The command of the first message is executed, and neither its copy under another message id nor its
-- repetition is.
runs_over_connection :
    length (serve (connection_ports daemon connected) frames opened).1.state.state.world.executed
    ≡ 1
unfolding serve dispatch_message request_fingerprint connection_ports first_dispatch insert dispatch
    is_invalid_envelope message_dispatcher register_authenticated new_dispatcher register_handler
    call_authenticated connection_of user_of_peer handle_command handle decode_request
    valid_command_id is_empty decode_drain_reason is_blank has_control handle_request handle_job
    lookup_with lookup live_row select run admit operation_for valid_against_registry has_reason
    plan_of check_plan build_scontrol_args valid_node_name is_all valid_name_chars
    valid_drain_reason get reserve reserve_with reserve_authorization validate_claim claim_of
    insert_claim delete_expired finish_reserve has_key commit_rows authorize_command is_about accept
    accepted_data transition_with transition allowed_transition has_required_data is_missing
    update_status set_status start running_data execute execution_of finish_succeeded
    request_refresh success_response pending_record satisfies_checks await_record is_waiting
    same_status step coalesce coalesce_text is_alphanumeric is_name_mark is_control is_space
    bytes_of new_envelope request_of Maps.lookup
runs_over_connection = refl
