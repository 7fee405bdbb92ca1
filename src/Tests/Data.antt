-- ===== src/Tests/Data.antt =====
-- Test data: two commands, a table and a history of the ledger (internal/ledger/ledger_test.go).
use cockpit_slurm.Base.{true, false, none, some, List, [], ◌∷◌}
use cockpit_slurm.Ledger.Status.{authorization_pending, accepted, running, succeeded}
use cockpit_slurm.Ledger.Table.{Claim, Record, TransitionData}
use cockpit_slurm.Ledger.Store.{Call, Ledger, Recovery, commit_ok, read_ok}
use cockpit_slurm.Ledger.History.{Op, reserves, looks_up, moves, restarts}

abbrev pub claim : Claim
claim = record {
  caller_uid = 1000;
  command_id = "c-1";
  request_fingerprint = "f1";
  request_payload = "{}";
  requesting_username = "alice";
  requesting_gid = 100;
  request_message_id = "m-1";
  service_uid = 990;
  service_username = "cockpit-slurm";
  resource = "node";
  command = "update";
  operation_id = "node.drain";
  required_capability = "nodes.drain";
  target_node = "n1";
}

abbrev pub other_claim : Claim
other_claim = record claim { request_fingerprint = "f2" }

abbrev pub call : Call
call = record {
  now = 200;
  begin_fails = false;
  delete_fails = false;
  write_fails = false;
  inspect_fails = false;
  select_fails = false;
  read = read_ok;
  commit = commit_ok;
}

abbrev pub nothing : TransitionData
nothing = record {
  admin_level = "";
  authorization_metadata = none;
  execution_uid = none;
  execution_username = "";
  execution_boundary = "";
  result_payload = none;
  error_payload = none;
}

abbrev pub grant : TransitionData
grant = record nothing { admin_level = "admin"; authorization_metadata = some "{}" }

abbrev pub launch : TransitionData
launch = record nothing {
  execution_uid = some 990;
  execution_username = "cockpit-slurm";
  execution_boundary = "dbus";
}

abbrev pub pending : Record
pending = record {
  claim = claim;
  status = authorization_pending;
  admin_level = "";
  authorization_metadata = none;
  execution_uid = none;
  execution_username = "";
  execution_boundary = "";
  result_payload = none;
  error_payload = none;
  created_at = 100;
  updated_at = 100;
  expires_at = 2592100;
}

abbrev pub finished : Record
finished = record pending { status = succeeded; result_payload = some "{}" }

abbrev pub empty : Ledger
empty = record { commands = []; blocked = false }

abbrev pub holding : Record → Ledger
holding r = record { commands = r ∷ []; blocked = false }

-- A command from its reservation to its end, and a restart.
abbrev pub history : List Op
history =
    reserves call claim
    ∷ looks_up call 1000 "c-1"
    ∷ moves call 1000 "c-1" authorization_pending accepted grant
    ∷ moves call 1000 "c-1" accepted running launch
    ∷ moves call 1000 "c-1" running succeeded nothing
    ∷ restarts 300
    ∷ []

abbrev pub recovery : Recovery
recovery = record {
  now = 300;
  integrity_rows = some (some "ok" ∷ []);
  integrity_rows_fail = false;
  recover_fails = false;
  checkpoint_fails = false;
  checkpoint_busy = false;
  count_fails = false;
}

abbrev pub closed : Ledger
closed = record { commands = []; blocked = true }

-- The row of a claim at the time of `call`.
abbrev pub new_pending : Record
new_pending = record pending { created_at = 200; updated_at = 200; expires_at = 2592200 }

-- A closed gate over a running command.
abbrev pub interrupted : Ledger
interrupted = record { commands = record pending { status = running } ∷ []; blocked = true }
