-- ===== src/Sync/Adapter.antt =====
-- internal/resource/node_adapter.go: the nodes that scontrol prints. The run of scontrol, the JSON
-- package and the clock are arguments.
use cockpit_slurm.Base.{
  ℕ, String, Bool, false, not, Option, none, some, List, map, ◌!=◌, if◌then◌else◌, nat_eq, codes,
  length,
}
use cockpit_slurm.Base.Maps.{GoMap, lookup}
use cockpit_slurm.Identity.Resolver.{trim_space}
use cockpit_slurm.Identity.Sacctmgr.{begins_array}
use cockpit_slurm.Resource.Node.{Node}
use cockpit_slurm.Resource.Slurm.{SlurmNode, map_slurm_node}

-- The fields that are read of the generated model `V0043OpenapiNodesResp`.
pub record NodesResponse : Type 0 where
  pub errors : Option (List String)
  pub nodes : List SlurmNode

-- `json.Unmarshal` into a map of raw messages, and into the generated model.
pub record NodesJson : Type 0 where
  pub unmarshal_shape : String → Option (GoMap String)
  pub unmarshal_response : String → Option NodesResponse

-- `exists` and the test of `rawNodes`
unfoldable pub has_nodes_array : GoMap String → Bool
has_nodes_array shape = elim (lookup "nodes" shape) [
  | none ↦ false
  | some raw ↦ begins_array (trim_space (codes raw))
]

unfoldable pub reports_errors : Option (List String) → Bool
reports_errors none = false
reports_errors (some es) = length es != 0

unfoldable pub nodes_of_response : ℕ → Option NodesResponse → Option (List Node)
nodes_of_response now none = none
nodes_of_response now (some r) =
    if reports_errors r.errors then none else some (map (map_slurm_node now) r.nodes)

-- What `ListNodes` makes of the output of scontrol.
unfoldable pub decode_nodes : NodesJson → ℕ → String → Option (List Node)
decode_nodes json now out = elim (json.unmarshal_shape out) [
  | none ↦ none
  | some shape ↦
      if not (has_nodes_array shape)
      then none
      else nodes_of_response now (json.unmarshal_response out)
]

-- `ListNodes`; `none` is an error, of the run or of its output.
unfoldable pub list_nodes : NodesJson → ℕ → Option String → Option (List Node)
list_nodes json now none = none
list_nodes json now (some out) = decode_nodes json now out
