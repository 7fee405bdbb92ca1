-- ===== src/Resource/Cache.antt =====
-- internal/resource/node_cache.go: the authoritative snapshot of the nodes. A Go map is an
-- association list, and a loop over it visits the entries in the list's order, so that what holds
-- here for every list holds for every order of the loop. The mutexes make each method one step.
use cockpit_slurm.Base.{
  ℕ, ◌+◌, ◌%◌, String, Option, none, some, List, [], ◌∷◌, ◌++◌, map, if◌then◌else◌, string_eq,
}
use cockpit_slurm.Base.Maps.{lookup, insert}
use cockpit_slurm.Resource.Node.{
  Node, NodeChange, added, updated, removed, NodeChangeBatch, Snapshot, identity, same_node_state,
}
use text.Mathlib.Text.{is_lt}
use Prim.Native.String.{compare}

abbrev pub uint64 : ℕ → ℕ
uint64 n = n % 18446744073709551616

pub record NodeCache : Type 0 where
  pub generation : ℕ
  pub nodes : List (String × Node)

unfoldable pub new_node_cache : NodeCache
new_node_cache = record { generation = 0; nodes = [] }

-- The map `incoming` that the first loop of `replaceSnapshot` fills.
unfoldable pub index_nodes : List Node → List (String × Node) → List (String × Node)
index_nodes [] m = m
index_nodes (n ∷ ns) m = index_nodes ns (insert (identity n) n m)

-- The changes that one entry of `incoming` adds, against the old nodes.
unfoldable pub incoming_change : List (String × Node) → String × Node → List NodeChange
incoming_change old (k, n) = elim (lookup k old) [
  | none ↦ record { kind = added; node = n } ∷ []
  | some o ↦ if same_node_state o n then [] else record { kind = updated; node = n } ∷ []
]

-- The changes that one entry of the old nodes adds, against `incoming`.
unfoldable pub removed_change : List (String × Node) → String × Node → List NodeChange
removed_change incoming (k, o) = elim (lookup k incoming) [
  | none ↦ record { kind = removed; node = o } ∷ []
  | some _ ↦ []
]

unfoldable pub collect {ℓ} : {A : Type ℓ} → (A → List NodeChange) → List A → List NodeChange
collect f [] = []
collect f (x ∷ xs) = f x ++ collect f xs

unfoldable pub set_generation : ℕ → Node → Node
set_generation g n = record n { metadata = record metadata { generation = g } }
  where
    open n use {metadata}

-- The entry of the map `updated` for one entry of `incoming`.
unfoldable pub stamp_entry : ℕ → List (String × Node) → String × Node → String × Node
stamp_entry g old (k, n) = elim (lookup k old) [
  | none ↦ (k, set_generation g n)
  | some o ↦ if same_node_state o n then (k, o) else (k, set_generation g n)
]

unfoldable pub stamp_change : ℕ → NodeChange → NodeChange
stamp_change g c = elim c.kind [
  | added ↦ record c { node = set_generation g c.node }
  | updated ↦ record c { node = set_generation g c.node }
  | removed ↦ c
]

-- `sortNodeChanges`: by identity. The identities of one batch are distinct, so that the result does
-- not depend on the algorithm of `sort.Slice`.
unfoldable pub insert_change : NodeChange → List NodeChange → List NodeChange
insert_change c [] = c ∷ []
insert_change c (d ∷ ds) =
    if is_lt (compare (identity d.node) (identity c.node))
    then d ∷ insert_change c ds
    else c ∷ d ∷ ds

unfoldable pub sort_changes : List NodeChange → List NodeChange
sort_changes [] = []
sort_changes (c ∷ cs) = insert_change c (sort_changes cs)

unfoldable pub diff_nodes : List (String × Node) → List (String × Node) → List NodeChange
diff_nodes old incoming =
    collect (incoming_change old) incoming ++ collect (removed_change incoming) old

-- The part of `replaceSnapshot` behind the test for changes.
unfoldable pub commit_nodes :
    List (String × Node) → List NodeChange → NodeCache → Option NodeChangeBatch × NodeCache
commit_nodes incoming [] c = (none, c)
commit_nodes incoming (x ∷ xs) c =
    let g = uint64 (c.generation + 1) in
    (
      some (record {
        resource = "node";
        event = "changes";
        generation = g;
        changes = sort_changes (map (stamp_change g) (x ∷ xs));
      }),
      record { generation = g; nodes = map (stamp_entry g c.nodes) incoming },
    )

-- `replaceSnapshot`; the batch is there exactly where the source returns `changed`.
unfoldable pub replace_snapshot : List Node → NodeCache → Option NodeChangeBatch × NodeCache
replace_snapshot nodes c =
    let incoming = index_nodes nodes [] in commit_nodes incoming (diff_nodes c.nodes incoming) c

-- `NodeCache.Snapshot`
unfoldable pub snapshot : NodeCache → Snapshot
snapshot c = record {
  generation = c.generation;
  resource = "nodes";
  nodes = map (λ e. e.1) c.nodes;
}

-- `NodeCache.Get`
unfoldable pub get : String → NodeCache → Option Node
get name c = lookup name c.nodes
