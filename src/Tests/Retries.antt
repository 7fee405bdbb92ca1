-- ===== src/Tests/Retries.antt =====
-- A drain that is sent again after its execution (internal/command/service_test.go).
use cockpit_slurm.Ledger.Table.{has_key}
use cockpit_slurm.Ledger.Table.{select}
use cockpit_slurm.Ledger.History.{run}
use cockpit_slurm.Base.{true, none, some, [], ◌==◌, string_eq}
use cockpit_slurm.Ledger.Table.{select, has_key}
use cockpit_slurm.Ledger.History.{run}
use cockpit_slurm.Protocol.Envelope.{Envelope}
use cockpit_slurm.Ledger.Status.{running, succeeded}
use cockpit_slurm.Ledger.Table.{Record}
use cockpit_slurm.Command.World.{Codec, Service, World}
use cockpit_slurm.Command.Service.{Plan}
use cockpit_slurm.Command.Execute.{failure_of}
use cockpit_slurm.Tests.Data.{finished, holding}
use cockpit_slurm.Tests.Command.{alice, request, codec, service, message}

abbrev plan : Plan
plan = record {
  job = record {
    requester = alice;
    message = message;
    request = request;
    canonical = "{}";
    fingerprint = "f1";
  };
  operation_id = "node.drain";
  required_capability = "nodes.drain";
  reason = "disk";
}

-- A codec that tells the two errors of an execution apart.
abbrev reading : Codec
reading = record (codec "f1") {
  marshal_error = λ e. some e.message;
  unmarshal_error = λ b. elim b [
    | none ↦ none
    | some x ↦ some (failure_of plan (x == (failure_of plan true).message))
  ];
}

abbrev drains : Service
drains = record (service "f1") { codec = reading }

abbrev started : Record
started = record finished { status = running; result_payload = none }

abbrev busy : World
busy = record { ledger = holding started; executed = []; refreshes = 0 }

abbrev ended : Record
ended = record finished { status = succeeded; result_payload = some "{}"; updated_at = 200 }

abbrev retry : Envelope
retry = record message { message_id = "m-2" }
