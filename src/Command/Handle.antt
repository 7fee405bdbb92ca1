-- ===== src/Command/Handle.antt =====
-- internal/command/service.go: the admission and authorization of a new command, and `Handle` itself.
use cockpit_slurm.Base.{
  String, Bool, true, false, not, ◌||◌, none, some, ◌==◌, ◌!=◌, if◌then◌else◌, nat_eq, string_eq,
  is_empty,
}
use cockpit_slurm.Base.Maps.{lookup}
use cockpit_slurm.Protocol.Envelope.{Envelope}
use cockpit_slurm.Protocol.Command.{
  NodeCommandRequestPayload, authentication, authorization, validation, internal, invalid_command,
  invalid_payload, identity_unavailable, user_lookup_failed, authorization_denied, internal_error,
  decode_request,
}
use cockpit_slurm.NodeHelper.Scontrol.{HelperResult, build_scontrol_args}
use cockpit_slurm.Ledger.Status.{authorization_pending, authorization_failed, accepted, denied}
use cockpit_slurm.Ledger.Table.{Claim, TransitionData}
use cockpit_slurm.Ledger.Store.{Error, ok, err, command_id_conflict}
use cockpit_slurm.Resource.Cache.{get}
use cockpit_slurm.Identity.Resolver.{UserContext}
use cockpit_slurm.Authorization.Registry.{RegistryEntry}
use cockpit_slurm.Authorization.Authorizer.{Decision}
use cockpit_slurm.Command.World.{Service, World, Turn, lookup_with, reserve_with, transition_with}
use cockpit_slurm.Command.Service.{
  Reply, error_payload, error_envelope, persistence_error, operation_for, valid_against_registry,
  await_record, conflict_error, no_data, Job, Plan, close_with,
}
use cockpit_slurm.Command.Execute.{start}

unfoldable pub accepted_data : Service → Turn → Plan → Decision → TransitionData
accepted_data s t p d = record no_data {
  admin_level = d.user_context.admin_level;
  authorization_metadata = s.codec.marshal_metadata p.required_capability t.authorized_at;
}

-- The transition from `authorization_pending` to `accepted`.
unfoldable pub accept : Service → Turn → Plan → Decision → World → Reply
accept s t p d w =
    let (moved, w') =
      transition_with t.accept_access p.requester.uid p.request.command_id authorization_pending
        accepted (accepted_data s t p d) w in
    elim moved [
      | err e ↦ persistence_error s t p.message p.request.command_id w'
      | ok _ ↦ start s t p w'
    ]

-- `authorizationFailure`
unfoldable pub authorization_failure : Service → Turn → Plan → World → Reply
authorization_failure s t p w =
    close_with s t t.refuse_access p authorization_pending authorization_failed
      (error_payload internal_error internal "Authorization information is unavailable" true
        p.request.command_id)
      w

-- The decision is about this requester and this operation.
unfoldable pub is_about : Plan → Decision → Bool
is_about p d = not (
    d.required_capability != p.required_capability
    || (d.user_context.uid != p.requester.uid
        || (d.user_context.gid != p.requester.gid
            || d.user_context.username != p.requester.username)))

-- `Handle` behind the reservation of a new command.
unfoldable pub authorize_command : Service → Turn → Plan → World → Reply
authorize_command s t p w = elim (t.authorizer p.requester p.operation_id) [
  | none ↦
      close_with s t t.refuse_access p authorization_pending authorization_failed
        (error_payload user_lookup_failed internal
          "Slurm user information is temporarily unavailable" true p.request.command_id)
        w
  | some d ↦
      if not (is_about p d)
      then authorization_failure s t p w
      else if not d.allowed
      then close_with s t t.refuse_access p authorization_pending denied
          (error_payload authorization_denied authorization
            "Not authorized to perform this Node operation" false p.request.command_id)
          w
      else if d.user_context.admin_level != "admin"
      then authorization_failure s t p w
      else accept s t p d w
]

unfoldable pub claim_of : Service → Plan → Claim
claim_of s p = record {
  caller_uid = p.requester.uid;
  command_id = p.request.command_id;
  request_fingerprint = p.fingerprint;
  request_payload = p.canonical;
  requesting_username = p.requester.username;
  requesting_gid = p.requester.gid;
  request_message_id = p.message.message_id;
  service_uid = s.service_uid;
  service_username = s.service_user;
  resource = p.request.resource;
  command = p.request.command;
  operation_id = p.operation_id;
  required_capability = p.required_capability;
  target_node = p.request.target.node_name;
}

-- The error paths behind `ReserveAuthorization`.
unfoldable pub reserve_error : Service → Turn → Plan → Error → World → Reply
reserve_error s t p command_id_conflict w = (conflict_error s p.message p.request.command_id, w)
reserve_error s t p _ w = persistence_error s t p.message p.request.command_id w

-- The call of `ReserveAuthorization` and what follows it.
unfoldable pub reserve : Service → Turn → Plan → World → Reply
reserve s t p w =
    let (claimed, w') = reserve_with t.reserve_access (claim_of s p) w in
    elim claimed [
      | err e ↦ reserve_error s t p e w'
      | ok (r, created) ↦
          if created
          then authorize_command s t p w'
          else await_record s t p.message p.fingerprint t.polls r w'
    ]

abbrev pub invalid : Service → Job → World → Reply
invalid s j w = (
  error_envelope s j.message invalid_payload validation "Invalid Node command payload" false
      j.request.command_id,
  w,
)

abbrev pub unsupported : Service → Job → World → Reply
unsupported s j w = (
  error_envelope s j.message invalid_command validation "Unsupported Node operation" false
      j.request.command_id,
  w,
)

-- The checks of a plan against the helper's validation, the node cache and the executor.
unfoldable pub check_plan : Service → Turn → Plan → World → Reply
check_plan s t p w = elim (build_scontrol_args p.operation_id p.request.target.node_name p.reason) [
  | HelperResult.err e ↦ invalid s p.job w
  | HelperResult.ok args ↦ elim (get p.request.target.node_name s.nodes) [
    | none ↦ (
      error_envelope s p.message invalid_payload validation "Node target is unavailable" false
          p.request.command_id,
      w,
    )
    | some n ↦
        if is_empty s.execution.username || is_empty s.execution.boundary
        then (
          error_envelope s p.message internal_error internal
              "Command execution boundary is unavailable" true p.request.command_id,
          w,
        )
        else reserve s t p w
  ]
]

unfoldable pub plan_of : Job → String → RegistryEntry → Plan
plan_of j operation_id entry = record {
  job = j;
  operation_id = operation_id;
  required_capability = entry.required_capability;
  reason = elim j.request.parameters.reason [ none ↦ "" | some r ↦ r ];
}

-- `Handle` for a command that the ledger does not have.
unfoldable pub admit : Service → Turn → Job → World → Reply
admit s t j w = elim (operation_for j.request.parameters.state) [
  | none ↦ unsupported s j w
  | some operation_id ↦ elim (lookup operation_id s.registry) [
    | none ↦ unsupported s j w
    | some entry ↦
        if entry.resource != j.request.resource || entry.command != j.request.command
        then unsupported s j w
        else if not (valid_against_registry entry j.request)
        then invalid s j w
        else check_plan s t (plan_of j operation_id entry) w
  ]
]

-- `Handle` behind the lock of the command.
unfoldable pub handle_job : Service → Turn → Job → World → Reply
handle_job s t j w =
    let (found, w') = lookup_with t.lookup_access j.requester.uid j.request.command_id w in
    elim found [
      | err e ↦ persistence_error s t j.message j.request.command_id w'
      | ok none ↦ admit s t j w'
      | ok (some r) ↦
          if r.request_fingerprint == j.fingerprint
          then await_record s t j.message j.fingerprint t.polls r w'
          else (conflict_error s j.message j.request.command_id, w')
    ]

-- `Handle` for a decoded request.
unfoldable pub handle_request :
    Service → Turn → UserContext → Envelope → NodeCommandRequestPayload → World → Reply
handle_request s t requester m request w =
    if is_empty requester.username
    then (
      error_envelope s m identity_unavailable authentication
          "Unable to determine the authenticated user" false request.command_id,
      w,
    )
    else if w.ledger.blocked
    then persistence_error s t m request.command_id w
    else elim (s.codec.marshal_request request) [
      | none ↦
          (error_envelope s m internal_error internal "Internal error" true request.command_id, w)
      | some canonical ↦
          handle_job s t
            (record {
              requester = requester;
              message = m;
              request = request;
              canonical = canonical;
              fingerprint = s.codec.sha256 canonical;
            })
            w
    ]

-- `Handle`
unfoldable pub handle : Service → Turn → UserContext → Envelope → World → Reply
handle s t requester m w = elim (decode_request (s.codec.decode_strict m.payload)) [
  | none ↦
      (error_envelope s m invalid_payload validation "Invalid Node command payload" false "", w)
  | some request ↦ handle_request s t requester m request w
]
