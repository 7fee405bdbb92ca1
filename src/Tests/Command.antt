-- ===== src/Tests/Command.antt =====
-- The command service on one request (internal/command/service.go).
use cockpit_slurm.Command.Service.{is_waiting}
use cockpit_slurm.Ledger.Table.{has_key}
use cockpit_slurm.Ledger.History.{run}
use cockpit_slurm.Ledger.Table.{select}
use cockpit_slurm.Ledger.Store.{live_row}
use cockpit_slurm.Ledger.Store.{lookup}
use cockpit_slurm.Protocol.Command.{request_of}
use cockpit_slurm.Base.{has_control}
use cockpit_slurm.Base.{is_blank}
use cockpit_slurm.Protocol.Command.{decode_drain_reason}
use cockpit_slurm.Base.{is_empty}
use cockpit_slurm.Protocol.Command.{valid_command_id}
use cockpit_slurm.Protocol.Command.{decode_request}
use cockpit_slurm.Base.{◌≤◌, String, ◌≡◌, ◌⊎◌, refl, true, none, some, [], ◌∷◌, arith}
use cockpit_slurm.Base.{
  is_empty, is_blank, has_control, is_missing, is_alphanumeric, is_name_mark, is_control, is_space,
}
use cockpit_slurm.Protocol.Envelope.{new_envelope}
use cockpit_slurm.Protocol.Command.{
  decode_request, valid_command_id, decode_drain_reason, request_of,
}
use cockpit_slurm.NodeHelper.Scontrol.{
  build_scontrol_args, valid_node_name, is_all, valid_name_chars, valid_drain_reason,
}
use cockpit_slurm.Ledger.Status.{allowed_transition, same_status}
use cockpit_slurm.Ledger.Table.{
  select, insert_claim, delete_expired, has_key, update_status, set_status, pending_record,
  satisfies_checks, coalesce, coalesce_text,
}
use cockpit_slurm.Ledger.Store.{
  lookup, live_row, reserve_authorization, validate_claim, finish_reserve, commit_rows, transition,
  has_required_data,
}
use cockpit_slurm.Ledger.History.{run, step}
use cockpit_slurm.Resource.Cache.{get}
use cockpit_slurm.Command.World.{reserve_with, transition_with, bytes_of}
use cockpit_slurm.Command.Service.{
  operation_for, valid_against_registry, has_reason, await_record, is_waiting,
}
use cockpit_slurm.Command.Execute.{
  start, running_data, execute, execution_of, finish_succeeded, request_refresh, success_response,
}
use cockpit_slurm.Command.Handle.{
  handle_request, handle_job, admit, plan_of, check_plan, reserve, claim_of, authorize_command,
  is_about, accept, accepted_data,
}
use cockpit_slurm.Base.Maps
use cockpit_slurm.Protocol.Envelope.{Envelope}
use cockpit_slurm.Protocol.Command.{WireRequest, text, NodeCommandRequestPayload}
use cockpit_slurm.Identity.Resolver.{UserContext}
use cockpit_slurm.Authorization.Registry.{drain_entry, resume_entry}
use cockpit_slurm.Command.World.{
  Codec, Service, Access, Turn, World, Execution, execution_ok, lookup_with,
}
use cockpit_slurm.Command.Handle.{handle}
use cockpit_slurm.Command.Steps.{Window, AccessWithin, TurnWithin, WorldSteps}
use cockpit_slurm.Command.Refines.{handle-Steps}
use cockpit_slurm.Command.Once.{Request, handle_all, executions, handle_all_once}
use cockpit_slurm.Command.Authorized.{IsJustified, handle_authorized}
use cockpit_slurm.Tests.Data.{call, recovery, finished, holding, empty}
use cockpit_slurm.Tests.Resource.{node}

abbrev pub alice : UserContext
alice = record {
  uid = 1000;
  gid = 100;
  username = "alice";
  admin_level = "admin";
  accounts = [];
  coordinator_accounts = [];
  capabilities = [];
}

abbrev wire : WireRequest
wire = record {
  command_id = "c-1";
  resource = "node";
  command = "update";
  node_name = "n1";
  state = "DRAIN";
  reason = text "disk";
}

abbrev pub request : NodeCommandRequestPayload
request = record {
  command_id = "c-1";
  resource = "node";
  command = "update";
  target = record { node_name = "n1" };
  parameters = record { state = "DRAIN"; reason = some "disk" };
}

-- A codec with the given digest.
abbrev pub codec : String → Codec
codec digest = record {
  decode_strict = λ s. some wire;
  marshal_request = λ r. some "{}";
  marshal_error = λ p. some "{}";
  unmarshal_error = λ b. none;
  marshal_response = λ p. some "{}";
  marshal_metadata = λ s n. some "{}";
  sha256 = λ s. digest;
  timestamp = "2026-01-01T00:00:00Z";
}

abbrev pub service : String → Service
service digest = record {
  registry = ("node.drain", drain_entry) ∷ ("node.resume", resume_entry) ∷ [];
  execution = record { uid = 990; username = "cockpit-slurm"; boundary = "dbus" };
  nodes = record { generation = 1; nodes = ("n1", node) ∷ [] };
  service_uid = 990;
  service_user = "cockpit-slurm";
  has_refresh = true;
  codec = codec digest;
}

abbrev pub access : Access
access = record { before = []; call = call }

abbrev pub turn : Turn
turn = record {
  lookup_access = access;
  reserve_access = access;
  refuse_access = access;
  accept_access = access;
  run_access = access;
  finish_access = access;
  authorizer = λ u op.
      some (record { allowed = true; required_capability = "nodes.drain"; user_context = alice });
  authorized_at = 200;
  outcome = execution_ok;
  polls = access ∷ [];
  recover_before = [];
  recovery = recovery;
}

abbrev pub message : Envelope
message = record {
  protocol = "cockpit-slurm";
  version = "1.0";
  message_id = "m-1";
  message_type = "command";
  timestamp = "2026-01-01T00:00:00Z";
  payload = "{}";
}

abbrev pub fresh : World
fresh = record { ledger = empty; executed = []; refreshes = 0 }

abbrev answered : World
answered = record { ledger = holding finished; executed = []; refreshes = 0 }

abbrev month : Window
month = record { from = 100; until = 2592100; short = omega arith }

access-Within : AccessWithin month access
access-Within = (tt, (omega arith, omega arith))

turn-Within : TurnWithin month turn
turn-Within = record {
  looks = access-Within;
  claims = access-Within;
  refuses = access-Within;
  accepts = access-Within;
  runs = access-Within;
  finishes = access-Within;
  polls_all = (access-Within, tt);
  others_recover = tt;
  recovers = (omega arith, omega arith);
}

abbrev ask : Request
ask = record { service = service "f1"; turn = turn; requester = alice; message = message }

-- The same request twice.
handle_all_once_example : executions 1000 "c-1" (handle_all (ask ∷ ask ∷ []) fresh).executed ≤ 1
handle_all_once_example =
    handle_all_once month (ask ∷ ask ∷ []) fresh 1000 "c-1" (turn-Within, (turn-Within, tt)) refl
      refl

handle-Steps_example : WorldSteps month fresh (handle (service "f1") turn alice message fresh).1
handle-Steps_example = handle-Steps month (service "f1") turn turn-Within alice message fresh

handle_authorized_example :
    ((handle (service "f1") turn alice message fresh).1.executed ≡ [])
    ⊎ ((e : Execution) × ((handle (service "f1") turn alice message fresh).1.executed ≡ e ∷ [])
        × IsJustified (service "f1") turn alice e)
handle_authorized_example = handle_authorized (service "f1") turn alice message fresh

-- The request is executed.
runs_once : executions 1000 "c-1" (handle_all (ask ∷ ask ∷ []) fresh).executed ≡ 1
unfolding handle_all handle decode_request valid_command_id is_empty decode_drain_reason is_blank
    has_control handle_request handle_job lookup_with lookup live_row select run admit operation_for
    valid_against_registry has_reason plan_of check_plan build_scontrol_args valid_node_name is_all
    valid_name_chars valid_drain_reason get reserve reserve_with reserve_authorization
    validate_claim claim_of insert_claim delete_expired finish_reserve has_key commit_rows
    authorize_command is_about accept accepted_data transition_with transition allowed_transition
    has_required_data is_missing update_status set_status start running_data execute execution_of
    finish_succeeded request_refresh success_response pending_record satisfies_checks await_record
    is_waiting same_status step coalesce coalesce_text is_alphanumeric is_name_mark is_control
    is_space bytes_of new_envelope request_of Maps.lookup
runs_once = refl
