-- ===== src/Tests/Resource.antt =====
-- A refresh of the node cache (internal/resource/node_cache.go).
use cockpit_slurm.Base.{◌≡◌, ◌+◌, [], ◌∷◌}
use cockpit_slurm.Base.Int.{pos}
use cockpit_slurm.Resource.Node.{Node}
use cockpit_slurm.Resource.Cache.{NodeCache, uint64, replace_snapshot, get, new_node_cache}
use cockpit_slurm.Resource.CacheLaws.{latest, merged, replace_snapshot-get}

abbrev pub node : Node
node = record {
  metadata = record {
    name = "n1";
    kind = "node";
    generation = 0;
    observed_at = 10;
    source = "slurmrestd";
  };
  spec = record {
    node_name = "n1";
    address = "10.0.0.1";
    hostname = "n1";
    cpu_load = pos 3;
    real_memory = pos 1024;
    alloc_memory = pos 0;
    free_memory = pos 512;
  };
  status = record { state = "IDLE"; state_flags = []; reason = "" };
}

replace_snapshot-get_example :
    get "n1" (replace_snapshot (node ∷ []) new_node_cache).1
    ≡ merged
        (uint64 (new_node_cache.generation + 1))
        (get "n1" new_node_cache)
        (latest "n1" (node ∷ []))
replace_snapshot-get_example = replace_snapshot-get (node ∷ []) new_node_cache "n1"

abbrev filled : NodeCache
filled = (replace_snapshot (node ∷ []) new_node_cache).1
