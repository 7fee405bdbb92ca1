-- ===== src/Tests/Service.antt =====
-- An administrator asks for his capabilities (internal/service/capabilities_test.go).
use cockpit_slurm.Service.Capabilities.{decode_capabilities_request}
use cockpit_slurm.Json.Strict.{decode_strict_payload, begins_object}
use cockpit_slurm.Identity.Resolver.{
  trim_space, drop_spaces, resolve_user, normalize_admin_level, resolved_context,
}
use cockpit_slurm.Json.Scanner.{validate_unique_json_keys, ends_there, consume}
use cockpit_slurm.Authorization.Registry.{
  new_global_registry, register_entries, validate_entry, contains, validate_schema, requires,
}
use cockpit_slurm.Base.{is_empty, is_space}
use cockpit_slurm.Base.Maps.{lookup, insert}
use cockpit_slurm.Authorization.Authorizer.{authorize, decide, granted}
use cockpit_slurm.Base.{◌≡◌, refl, true, some, [], ◌∷◌}
use cockpit_slurm.Protocol.Envelope.{Envelope, new_envelope, message_capabilities_response}
use cockpit_slurm.Identity.Resolver.{resolve}
use cockpit_slurm.Json.Scanner.{open_object, close_object}
use cockpit_slurm.Service.Capabilities.{CapabilitiesHandler, handle_authenticated}
use cockpit_slurm.Service.Grants.{handle_authenticated-agrees}
use cockpit_slurm.Tests.Command.{codec, message}
use cockpit_slurm.Tests.Identity.{alice, users, entries, handlers, validators, decision}

abbrev pub handler : CapabilitiesHandler
handler = record {
  resolver = some (resolve users);
  request_decoder = record {
    read = λ bytes. record { tokens = open_object ∷ close_object ∷ []; ends_with_eof = true };
    decode = λ bytes. some (tt, true);
  };
  marshal = λ p. some "{\"capabilities\":{}}";
  codec = codec "f1";
}

abbrev question : Envelope
question = record message { message_type = "capabilities-request"; payload = " {}" }

handle_authenticated-agrees_example :
    handle_authenticated handler alice question
    ≡ new_envelope
        (codec "f1").timestamp
        question.message_id
        message_capabilities_response
        "{\"capabilities\":{}}"
unfolding resolve decode_capabilities_request decode_strict_payload begins_object trim_space
    drop_spaces resolve_user normalize_admin_level resolved_context validate_unique_json_keys
    ends_there consume new_global_registry register_entries validate_entry contains validate_schema
    requires is_empty is_space lookup insert authorize decide granted
handle_authenticated-agrees_example =
    handle_authenticated-agrees handler users alice question entries handlers validators entries
      "node.drain" decision "{\"capabilities\":{}}" refl refl refl refl refl
