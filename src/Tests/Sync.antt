-- ===== src/Tests/Sync.antt =====
-- Refreshes from scontrol (internal/resource/node_synchronizer_test.go, node_test.go).
use cockpit_slurm.Sync.Synchronizer.{validate_from}
use cockpit_slurm.Sync.Synchronizer.{validate_node_snapshot}
use cockpit_slurm.Sync.Adapter.{reports_errors}
use cockpit_slurm.Sync.Adapter.{nodes_of_response}
use cockpit_slurm.Identity.Resolver.{trim_space}
use cockpit_slurm.Identity.Sacctmgr.{begins_array}
use cockpit_slurm.Base.Maps.{lookup}
use cockpit_slurm.Sync.Adapter.{has_nodes_array}
use cockpit_slurm.Sync.Adapter.{decode_nodes}
use cockpit_slurm.Sync.Adapter.{list_nodes}
use cockpit_slurm.Sync.Synchronizer.{commit_listed}
use cockpit_slurm.Base.{is_empty}
use cockpit_slurm.Base.{◌≡◌, refl, true, false, some, none, List, [], ◌∷◌}
use cockpit_slurm.Base.Int.{pos}
use cockpit_slurm.Resource.Node.{identity}
use cockpit_slurm.Resource.Cache.{new_node_cache, get}
use cockpit_slurm.Base.Maps.{lookup}
use cockpit_slurm.Resource.Slurm.{SlurmNode, map_slurm_node, value_or, nonempty_or}
use cockpit_slurm.Resource.SlurmLaws.{Split, map_slurm_node-identity, map_slurm_node-Split}
use cockpit_slurm.Stream.Registry.{Hub}
use cockpit_slurm.Sync.Adapter.{NodesJson}
use cockpit_slurm.Sync.Synchronizer.{
  Poll, Signal, ticked, stopped, slurm_poll, refresh, run_synchronizer,
}
use cockpit_slurm.Sync.Refreshes.{Outcome, NamedNodes, refresh-Outcome, run_synchronizer-NamedNodes}
use cockpit_slurm.Tests.Stream.{encoder}

abbrev slurm_node : SlurmNode
slurm_node = record {
  name = some "n1";
  hostname = some "n1.cluster";
  address = none;
  cpu_load = some (pos 3);
  real_memory = none;
  alloc_memory = none;
  free_mem = some (record { set = some true; number = some (pos 512) });
  reason = none;
  state = some ("IDLE" ∷ "DRAIN" ∷ []);
}

-- A node whose name is there, but empty.
abbrev unnamed : SlurmNode
unnamed = record slurm_node { name = some "" }

unnamed-identity : identity (map_slurm_node 10 unnamed) ≡ ""
unfolding identity is_empty map_slurm_node
unnamed-identity = refl

map_slurm_node-identity_example :
    identity (map_slurm_node 10 unnamed)
    ≡ value_or unnamed.name (nonempty_or unnamed.hostname (nonempty_or unnamed.address ""))
map_slurm_node-identity_example = map_slurm_node-identity 10 unnamed

map_slurm_node-Split_example : Split ("IDLE" ∷ "DRAIN" ∷ []) (map_slurm_node 10 slurm_node)
map_slurm_node-Split_example = map_slurm_node-Split 10 slurm_node ("IDLE" ∷ "DRAIN" ∷ []) refl

abbrev json : List SlurmNode → NodesJson
json nodes = record {
  unmarshal_shape = λ out. some (("nodes", "[]") ∷ []);
  unmarshal_response = λ out. some (record { errors = none; nodes = nodes });
}

abbrev poll : List SlurmNode → Poll
poll nodes = slurm_poll (json nodes) 10 (some "{}") false (λ id. true)

abbrev hub : Hub
hub = record { cache = new_node_cache; streams = []; message_seq = 0 }

-- One node without an identity makes the whole refresh fail.
refresh-unnamed : (refresh encoder (poll (slurm_node ∷ unnamed ∷ [])) hub).0 ≡ false
unfolding refresh commit_listed slurm_poll list_nodes decode_nodes has_nodes_array lookup
    begins_array trim_space nodes_of_response reports_errors validate_node_snapshot validate_from
    is_empty identity map_slurm_node
refresh-unnamed = refl

refresh_named : (refresh encoder (poll (slurm_node ∷ [])) hub).0 ≡ true
unfolding refresh commit_listed slurm_poll list_nodes decode_nodes has_nodes_array lookup
    begins_array trim_space nodes_of_response reports_errors validate_node_snapshot validate_from
    is_empty identity map_slurm_node
refresh_named = refl

refresh-Outcome_example :
    Outcome (poll (slurm_node ∷ [])) hub (refresh encoder (poll (slurm_node ∷ [])) hub)
refresh-Outcome_example = refresh-Outcome encoder (poll (slurm_node ∷ [])) hub

abbrev signals : List Signal
signals = ticked (poll (slurm_node ∷ [])) ∷ ticked (poll (slurm_node ∷ unnamed ∷ [])) ∷ stopped ∷ []

empty_cache : NamedNodes hub.cache
unfolding get new_node_cache lookup
empty_cache name n h = absurd (cc)

run_synchronizer-NamedNodes_example : NamedNodes (run_synchronizer encoder signals hub).cache
run_synchronizer-NamedNodes_example = run_synchronizer-NamedNodes encoder signals hub empty_cache
