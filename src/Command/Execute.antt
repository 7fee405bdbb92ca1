-- ===== src/Command/Execute.antt =====
-- internal/command/service.go: the execution of an accepted command, the last part of `Handle`.
use cockpit_slurm.Base.{suc, Bool, true, false, none, some, ◌∷◌, if◌then◌else◌, nat_eq, string_eq}
use cockpit_slurm.Protocol.Envelope.{new_envelope, message_command_response}
use cockpit_slurm.Protocol.Command.{
  NodeCommandResponsePayload, CommandStatus, slurm, timeout, command_outcome_unknown,
  slurm_command_failed, ErrorPayload,
}
use cockpit_slurm.Ledger.Status.{accepted, running, succeeded, failed, unknown}
use cockpit_slurm.Ledger.Table.{TransitionData}
use cockpit_slurm.Ledger.Store.{ok, err}
use cockpit_slurm.Command.World.{
  bytes_of, new_error_envelope, Service, Execution, World, execution_ok, execution_error, Turn,
  transition_with,
}
use cockpit_slurm.Command.Service.{Reply, error_payload, persistence_error, no_data, Plan}

unfoldable pub success_response : Plan → NodeCommandResponsePayload
success_response p = record {
  command_id = p.request.command_id;
  resource = p.request.resource;
  command = p.request.command;
  target = some p.request.target;
  parameters = some (record { state = p.request.parameters.state; reason = none });
  status = CommandStatus.succeeded;
}

-- `requestNodeRefresh`: the refresh itself runs on its own.
unfoldable pub request_refresh : Service → World → World
request_refresh s w = if s.has_refresh then record w { refreshes = suc w.refreshes } else w

unfoldable pub failure_of : Plan → Bool → ErrorPayload
failure_of p true =
    error_payload command_outcome_unknown timeout
      "The Node operation outcome is unknown; do not retry automatically" false p.request.command_id
failure_of p false =
    error_payload slurm_command_failed slurm "Slurm rejected the Node operation" false
      p.request.command_id

-- `Handle` behind a call of `Execute` that returned an error.
unfoldable pub finish_failed : Service → Turn → Plan → Bool → World → Reply
finish_failed s t p outcome_unknown w =
    let failure = failure_of p outcome_unknown in
    let (moved, w') =
      transition_with t.finish_access p.requester.uid p.request.command_id running
        (if outcome_unknown then unknown else failed)
        (record no_data { error_payload = s.codec.marshal_error failure }) w in
    elim moved [
      | err e ↦ persistence_error s t p.message p.request.command_id w'
      | ok _ ↦ (
        new_error_envelope s.codec p.message.message_id failure,
        if outcome_unknown then request_refresh s w' else w',
      )
    ]

-- `Handle` behind a call of `Execute` that returned no error.
unfoldable pub finish_succeeded : Service → Turn → Plan → World → Reply
finish_succeeded s t p w =
    let result = s.codec.marshal_response (success_response p) in
    let (moved, w') =
      transition_with t.finish_access p.requester.uid p.request.command_id running succeeded
        (record no_data { result_payload = result }) w in
    elim moved [
      | err e ↦ persistence_error s t p.message p.request.command_id w'
      | ok _ ↦ (
        new_envelope s.codec.timestamp p.message.message_id message_command_response
            (bytes_of result),
        request_refresh s w',
      )
    ]

unfoldable pub execution_of : Plan → Execution
execution_of p = record {
  caller_uid = p.requester.uid;
  command_id = p.request.command_id;
  operation_id = p.operation_id;
  node_name = p.request.target.node_name;
  reason = p.reason;
}

-- The call of `Execute` and what follows it.
unfoldable pub execute : Service → Turn → Plan → World → Reply
execute s t p w =
    let w' = record w { executed = execution_of p ∷ w.executed } in
    elim t.outcome [
      | execution_ok ↦ finish_succeeded s t p w'
      | execution_error outcome_unknown ↦ finish_failed s t p outcome_unknown w'
    ]

unfoldable pub running_data : Service → TransitionData
running_data s = record no_data {
  execution_uid = some s.execution.uid;
  execution_username = s.execution.username;
  execution_boundary = s.execution.boundary;
}

-- The transition from `accepted` to `running`.
unfoldable pub start : Service → Turn → Plan → World → Reply
start s t p w =
    let (moved, w') =
      transition_with t.run_access p.requester.uid p.request.command_id accepted running
        (running_data s) w in
    elim moved [
      | err e ↦ persistence_error s t p.message p.request.command_id w'
      | ok _ ↦ execute s t p w'
    ]
