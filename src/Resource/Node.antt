-- ===== src/Resource/Node.antt =====
-- internal/resource/node.go, node_change.go and node_snapshot.go: the canonical node. A time is a
-- number; the numbers of a node are signed.
use cockpit_slurm.Base.{
  ℕ, String, Bool, true, false, ◌&&◌, List, [], ◌∷◌, ◌==◌, if◌then◌else◌, string_eq, is_empty,
}
use cockpit_slurm.Base.Int.{ℤ, int_eq}

pub record NodeMetadata : Type 0 where
  pub name : String
  pub kind : String
  pub generation : ℕ
  pub observed_at : ℕ
  pub source : String

pub record NodeSpec : Type 0 where
  pub node_name : String
  pub address : String
  pub hostname : String
  pub cpu_load : ℤ
  pub real_memory : ℤ
  pub alloc_memory : ℤ
  pub free_memory : ℤ

pub record NodeStatus : Type 0 where
  pub state : String
  pub state_flags : List String
  pub reason : String

pub record Node : Type 0 where
  pub metadata : NodeMetadata
  pub spec : NodeSpec
  pub status : NodeStatus

-- `Node.Identity`
unfoldable pub identity : Node → String
identity n = if is_empty n.spec.node_name then n.metadata.name else n.spec.node_name

-- `==` on `NodeSpec`
unfoldable pub same_spec : NodeSpec → NodeSpec → Bool
same_spec a b =
    a.node_name == b.node_name
    && (a.address == b.address
        && (a.hostname == b.hostname
            && (a.cpu_load == b.cpu_load
                && (a.real_memory == b.real_memory
                    && (a.alloc_memory == b.alloc_memory && a.free_memory == b.free_memory)))))

-- `slices.Equal`
unfoldable pub same_flags : List String → List String → Bool
same_flags [] [] = true
same_flags (x ∷ xs) (y ∷ ys) = x == y && same_flags xs ys
same_flags _ _ = false

unfoldable pub same_node_state : Node → Node → Bool
same_node_state a b =
    same_spec a.spec b.spec
    && (a.status.state == b.status.state
        && (same_flags a.status.state_flags b.status.state_flags
            && a.status.reason == b.status.reason))

pub data NodeChangeKind : Type 0 where
  added updated removed : NodeChangeKind

pub record NodeChange : Type 0 where
  pub kind : NodeChangeKind
  pub node : Node

pub record NodeChangeBatch : Type 0 where
  pub resource : String
  pub event : String
  pub generation : ℕ
  pub changes : List NodeChange

pub record Snapshot : Type 0 where
  pub generation : ℕ
  pub resource : String
  pub nodes : List Node
