-- ===== src/Resource/Slurm.antt =====
-- internal/resource/node.go: the node of Slurm's OpenAPI model as a canonical node. The clock is an
-- argument.
use cockpit_slurm.Base.{
  ℕ, String, Bool, ◌+◌, Option, none, some, List, [], ◌∷◌, if◌then◌else◌, string_eq, is_empty,
  member, ltb,
}
use cockpit_slurm.Base.Int.{ℤ, pos}
use cockpit_slurm.Resource.Node.{Node}

-- The fields that are read of the generated models `V0043Uint64NoValStruct` and `V0043Node`; a pointer
-- is an option.
pub record OptionalNumber : Type 0 where
  pub set : Option Bool
  pub number : Option ℤ

pub record SlurmNode : Type 0 where
  pub name : Option String
  pub hostname : Option String
  pub address : Option String
  pub cpu_load : Option ℤ
  pub real_memory : Option ℤ
  pub alloc_memory : Option ℤ
  pub free_mem : Option OptionalNumber
  pub reason : Option String
  pub state : Option (List String)

-- `NewNode`
unfoldable pub new_node : ℕ → String → ℕ → Node
new_node now name generation = record {
  metadata = record {
    name = name;
    kind = "Node";
    generation = generation;
    observed_at = now;
    source = "cockpit-slurm";
  };
  spec = record {
    node_name = name;
    address = "";
    hostname = "";
    cpu_load = pos 0;
    real_memory = pos 0;
    alloc_memory = pos 0;
    free_memory = pos 0;
  };
  status = record { state = ""; state_flags = []; reason = "" };
}

-- The value of a pointer that is there and not empty, or what follows.
abbrev pub nonempty_or : Option String → String → String
nonempty_or none other = other
nonempty_or (some s) other = if is_empty s then other else s

-- `nodeNameFromGenerated`
unfoldable pub node_name_from_generated : SlurmNode → String
node_name_from_generated n = nonempty_or n.name (nonempty_or n.hostname (nonempty_or n.address ""))

abbrev pub primary_states : List String
primary_states =
    "ALLOCATED" ∷ "DOWN" ∷ "ERROR" ∷ "FAIL" ∷ "FUTURE" ∷ "IDLE" ∷ "MIXED" ∷ "PLANNED" ∷ "UNKNOWN"
    ∷ []

-- The cases of the three switches over states.
unfoldable pub is_primary : String → Bool
is_primary state = member state primary_states

unfoldable pub count_primary : List String → ℕ
count_primary [] = 0
count_primary (s ∷ states) = if is_primary s then 1 + count_primary states else count_primary states

-- The first primary state, or else the given one.
unfoldable pub first_primary : String → List String → String
first_primary other [] = other
first_primary other (s ∷ states) = if is_primary s then s else first_primary other states

-- `summarizeNodeState`
unfoldable pub summarize_node_state : List String → String
summarize_node_state [] = ""
summarize_node_state (s ∷ states) =
    if ltb 1 (count_primary (s ∷ states)) then "MIXED" else first_primary s (s ∷ states)

-- `stateFlagsFromGenerated`
unfoldable pub state_flags_from_generated : List String → List String
state_flags_from_generated [] = []
state_flags_from_generated (s ∷ states) =
    if is_primary s
    then state_flags_from_generated states
    else s ∷ state_flags_from_generated states

abbrev pub value_or {ℓ} : {A : Type ℓ} → Option A → A → A
value_or none a = a
value_or (some b) a = b

-- The number of `FreeMem`, where it is there and set.
unfoldable pub free_memory_of : Option OptionalNumber → Option ℤ
free_memory_of none = none
free_memory_of (some m) = elim m.number [
  | none ↦ none
  | some n ↦ elim m.set [ none ↦ none | some b ↦ if b then some n else none ]
]

-- `MapSlurmNode`
unfoldable pub map_slurm_node : ℕ → SlurmNode → Node
map_slurm_node now n =
    let start = new_node now (node_name_from_generated n) 0 in
    record start {
      metadata = record start.metadata { name = value_or n.name start.metadata.name };
      spec = record {
        node_name = value_or n.name start.spec.node_name;
        address = value_or n.address start.spec.address;
        hostname = value_or n.hostname start.spec.hostname;
        cpu_load = value_or n.cpu_load start.spec.cpu_load;
        real_memory = value_or n.real_memory start.spec.real_memory;
        alloc_memory = value_or n.alloc_memory start.spec.alloc_memory;
        free_memory = value_or (free_memory_of n.free_mem) start.spec.free_memory;
      };
      status = record {
        state = elim n.state [ none ↦ "" | some states ↦ summarize_node_state states ];
        state_flags = elim n.state [ none ↦ [] | some states ↦ state_flags_from_generated states ];
        reason = value_or n.reason start.status.reason;
      };
    }
