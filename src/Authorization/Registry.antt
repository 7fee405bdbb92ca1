-- ===== src/Authorization/Registry.antt =====
-- internal/authorization/registry.go: the operations that commands may name. The entries of a map
-- are a list, which is visited in its order; a nil registry is left out.
use cockpit_slurm.Base.{
  String, Bool, true, false, not, ◌&&◌, ◌||◌, Option, none, some, List, [], ◌∷◌, ◌==◌, ◌!=◌,
  if◌then◌else◌, nat_eq, string_eq, is_empty, any, length, all,
}
use cockpit_slurm.Base.Int.{ℤ, pos, is_negative, int_leb}
use cockpit_slurm.Base.Maps.{lookup, insert}
use cockpit_slurm.Identity.Resolver.{capability_node_drain, capability_node_resume}

abbrev pub operation_node_drain : String
operation_node_drain = "node.drain"

abbrev pub operation_node_resume : String
operation_node_resume = "node.resume"

abbrev pub node_state_handler_id : String
node_state_handler_id = "node.set_state"

abbrev pub node_target_validator_id : String
node_target_validator_id = "node.target"

-- The last one stands for every other text.
pub data ParameterType : Type 0 where
  parameter_string parameter_enum parameter_integer parameter_boolean : ParameterType
  other_type : String → ParameterType

pub record ParameterSpec : Type 0 where
  pub type : ParameterType
  pub required : Bool
  pub min_length : ℤ
  pub max_length : ℤ
  pub allowed_values : List String

abbrev pub Schema : Type 0
Schema = List (String × ParameterSpec)

pub record RegistryEntry : Type 0 where
  pub operation_id : String
  pub resource : String
  pub command : String
  pub required_capability : String
  pub target_schema : Schema
  pub parameter_schema : Schema
  pub handler_id : String
  pub validator_id : String

abbrev pub Registry : Type 0
Registry = List (String × RegistryEntry)

unfoldable pub is_known_type : ParameterType → Bool
is_known_type (other_type s) = false
is_known_type _ = true

unfoldable pub is_enum : ParameterType → Bool
is_enum parameter_enum = true
is_enum _ = false

-- The body of the loop of `validateSchema`; true where it reports no error.
unfoldable pub valid_field : String × ParameterSpec → Bool
valid_field (name, spec) =
    not (is_empty name)
    && (is_known_type spec.type
        && (not (
              is_negative spec.min_length
              || (is_negative spec.max_length
                  || (not (int_leb spec.max_length (pos 0))
                      && not (int_leb spec.min_length spec.max_length))))
            && (not (is_enum spec.type && length spec.allowed_values == 0)
                && not (not (is_enum spec.type) && length spec.allowed_values != 0))))

unfoldable pub validate_schema : Schema → Bool
unfolding valid_field is_known_type is_enum
validate_schema schema = all valid_field schema

unfoldable pub contains : List String → String → Bool
contains ids id = any (λ x. x == id) ids

-- `validateEntry`; true where it reports no error.
unfoldable pub validate_entry : String → RegistryEntry → List String → List String → Bool
validate_entry key entry handler_ids validator_ids =
    not (key != operation_node_drain && key != operation_node_resume)
    && (not (entry.resource != "node" || entry.command != "update")
        && (not (is_empty entry.required_capability)
            && (not (is_empty entry.handler_id)
                && (contains handler_ids entry.handler_id
                    && (not (
                          not (is_empty entry.validator_id)
                          && not (contains validator_ids entry.validator_id))
                        && (validate_schema entry.target_schema
                            && validate_schema entry.parameter_schema))))))

-- The loop of `NewGlobalRegistry`; an entry is a value here, so that `cloneEntry` is the identity.
unfoldable pub register_entries :
    List String → List String → List (String × RegistryEntry) → Registry → Option Registry
register_entries handler_ids validator_ids [] registry = some registry
register_entries handler_ids validator_ids ((key, entry) ∷ entries) registry =
    let rest = register_entries handler_ids validator_ids entries (insert key entry registry) in
    if key != entry.operation_id
    then none
    else if validate_entry key entry handler_ids validator_ids
    then rest
    else none

-- `!ok || entry.RequiredCapability != capability`
unfoldable pub requires : String → Option RegistryEntry → Bool
requires capability none = false
requires capability (some entry) = entry.required_capability == capability

-- `NewGlobalRegistry`; `none` is an error.
unfoldable pub new_global_registry :
    List (String × RegistryEntry) → List String → List String → Option Registry
new_global_registry entries handler_ids validator_ids =
    if length entries != 2
    then none
    else elim (register_entries handler_ids validator_ids entries []) [
      | none ↦ none
      | some registry ↦
          if requires capability_node_drain (lookup operation_node_drain registry)
            && requires capability_node_resume (lookup operation_node_resume registry)
          then some registry
          else none
    ]

abbrev pub node_target_schema : Schema
node_target_schema =
    (
      "nodeName",
      record {
        type = parameter_string;
        required = true;
        min_length = pos 1;
        max_length = pos 255;
        allowed_values = [];
      },
    )
    ∷ []

abbrev pub drain_entry : RegistryEntry
drain_entry = record {
  operation_id = operation_node_drain;
  resource = "node";
  command = "update";
  required_capability = capability_node_drain;
  target_schema = node_target_schema;
  parameter_schema =
      (
        "state",
        record {
          type = parameter_enum;
          required = true;
          min_length = pos 0;
          max_length = pos 0;
          allowed_values = "DRAIN" ∷ [];
        },
      )
      ∷ (
        "reason",
        record {
          type = parameter_string;
          required = true;
          min_length = pos 1;
          max_length = pos 256;
          allowed_values = [];
        },
      )
      ∷ [];
  handler_id = node_state_handler_id;
  validator_id = node_target_validator_id;
}

abbrev pub resume_entry : RegistryEntry
resume_entry = record {
  operation_id = operation_node_resume;
  resource = "node";
  command = "update";
  required_capability = capability_node_resume;
  target_schema = node_target_schema;
  parameter_schema =
      (
        "state",
        record {
          type = parameter_enum;
          required = true;
          min_length = pos 0;
          max_length = pos 0;
          allowed_values = "RESUME" ∷ [];
        },
      )
      ∷ [];
  handler_id = node_state_handler_id;
  validator_id = node_target_validator_id;
}

-- `NewNodeRegistry`
unfoldable pub new_node_registry : Option Registry
new_node_registry =
    new_global_registry
      ((operation_node_drain, drain_entry) ∷ (operation_node_resume, resume_entry) ∷ [])
      (node_state_handler_id ∷ []) (node_target_validator_id ∷ [])
