-- ===== src/Resource/CacheLaws.antt =====
-- What a refresh makes of the node cache (internal/resource/node_cache.go, `replaceSnapshot`).
use cockpit_slurm.Base.{
  ℕ, ◌+◌, sym, ◌∙◌, inl, inr, Option-cases, String, ◌≡◌, ◌≢◌, refl, Option, none, some, List, [],
  ◌∷◌, ◌++◌, map, if◌then◌else◌, ◌==◌, string_eq, string_iff, arith,
}
use cockpit_slurm.Base.Maps.{lookup, insert, lookup-insert}
use cockpit_slurm.Resource.Node.{Node, NodeChange, NodeChangeBatch, identity, same_node_state}
use cockpit_slurm.Resource.Cache.{
  sort_changes, insert_change, stamp_change, NodeCache, uint64, incoming_change, removed_change,
  diff_nodes, commit_nodes, replace_snapshot, get, index_nodes, collect, set_generation,
  stamp_entry,
}

-- The last node of a list with an identity.
abbrev pub latest : String → List Node → Option Node
latest k [] = none
latest k (n ∷ ns) = elim (latest k ns) [
  | none ↦ if identity n == k then some n else none
  | some x ↦ some x
]

-- What becomes of the node that the cache has under a key, with the one that the refresh brings.
abbrev pub merged : ℕ → Option Node → Option Node → Option Node
merged g old none = none
merged g none (some n) = some (set_generation g n)
merged g (some o) (some n) = if same_node_state o n then some o else some (set_generation g n)

abbrev or_else : Option Node → Option Node → Option Node
or_else none b = b
or_else (some a) b = some a

lookup-index_nodes :
    (k : String) (ns : List Node) (m : List (String × Node))
    → lookup k (index_nodes ns m) ≡ or_else (latest k ns) (lookup k m)
unfolding index_nodes
lookup-index_nodes k [] m = refl
lookup-index_nodes k (n ∷ ns) m =
    ground
      (arith, lookup-index_nodes k ns (insert (identity n) n m), lookup-insert (identity n) k n m)

append-nil {ℓ} : {A : Type ℓ} (xs ys : List A) → xs ++ ys ≡ [] → (xs ≡ []) × (ys ≡ [])
append-nil [] ys h = (refl, h)
append-nil (x ∷ xs) ys h = ground arith

-- Where no entry adds a change, the entry of a key adds none.
collect-nil :
    (f : String × Node → List NodeChange) (k : String) (n : Node) (m : List (String × Node))
    → collect f m ≡ []
    → lookup k m ≡ some n
    → f (k, n) ≡ []
unfolding collect lookup
collect-nil f k n [] h e = ground arith
collect-nil f k n ((j, o) ∷ m) h e =
    let (a, b) = append-nil (f (j, o)) (collect f m) h in
    ground (arith, string_iff j k, collect-nil f k n m b)

lookup-map-stamp_entry :
    (g : ℕ) (old : List (String × Node)) (k : String) (m : List (String × Node))
    → lookup k (map (stamp_entry g old) m) ≡ merged g (lookup k old) (lookup k m)
unfolding lookup stamp_entry
lookup-map-stamp_entry g old k [] = refl
lookup-map-stamp_entry g old k ((j, n) ∷ m) =
    ground (arith, string_iff j k, lookup-map-stamp_entry g old k m)

-- Where the comparison finds no change, the cache already holds what the refresh would make of it.
unchanged :
    (g : ℕ) (old incoming : List (String × Node)) (k : String)
    → diff_nodes old incoming ≡ []
    → lookup k old ≡ merged g (lookup k old) (lookup k incoming)
unfolding diff_nodes incoming_change removed_change
unchanged g old incoming k h =
    let (a, b) =
      append-nil (collect (incoming_change old) incoming) (collect (removed_change incoming) old)
        h in
    elim (Option-cases (lookup k incoming)) [
      | inl e ↦ elim (Option-cases (lookup k old)) [
        | inl f ↦ ground (arith, e, f)
        | inr (o, f) ↦ ground (arith, e, f, collect-nil (removed_change incoming) k o old b f)
      ]
      | inr (n, e) ↦ ground (arith, e, collect-nil (incoming_change old) k n incoming a e)
    ]

commit_nodes-get :
    (incoming : List (String × Node)) (changes : List NodeChange) (c : NodeCache) (k : String)
    → diff_nodes c.nodes incoming ≡ changes
    → get k (commit_nodes incoming changes c).1
      ≡ merged (uint64 (c.generation + 1)) (get k c) (lookup k incoming)
unfolding commit_nodes get
commit_nodes-get incoming [] c k h = unchanged (uint64 (c.generation + 1)) c.nodes incoming k h
commit_nodes-get incoming (x ∷ xs) c k h =
    lookup-map-stamp_entry (uint64 (c.generation + 1)) c.nodes k incoming

or_else-none : (a : Option Node) → or_else a none ≡ a
or_else-none none = refl
or_else-none (some a) = refl

-- A refresh, whether or not it finds changes, leaves under each identity: nothing where it brings no
-- node of that identity; the old node where the last one it brings has the same state; and
-- otherwise that one, with the next generation.
pub replace_snapshot-get :
    (nodes : List Node) (c : NodeCache) (k : String)
    → get k (replace_snapshot nodes c).1
      ≡ merged (uint64 (c.generation + 1)) (get k c) (latest k nodes)
unfolding replace_snapshot lookup
replace_snapshot-get nodes c k =
    let e = lookup-index_nodes k nodes [] ∙ or_else-none (latest k nodes) in
    rw (sym e) (commit_nodes-get (index_nodes nodes []) _ c k refl)

insert_change-ne-nil : (x : NodeChange) (xs : List NodeChange) → insert_change x xs ≢ []
unfolding insert_change
insert_change-ne-nil x [] e = ground (arith, e)
insert_change-ne-nil x (y ∷ ys) e = ground (arith, e)

commit_nodes_generation :
    (incoming : List (String × Node)) (changes : List NodeChange) (c : NodeCache)
    → ((commit_nodes incoming changes c).0 ≡ none → (commit_nodes incoming changes c).1 ≡ c)
      × ((b : NodeChangeBatch)
          → (commit_nodes incoming changes c).0 ≡ some b
          → (b.generation ≡ uint64 (c.generation + 1))
            × ((commit_nodes incoming changes c).1.generation ≡ b.generation)
            × (b.changes ≢ []))
unfolding commit_nodes sort_changes
commit_nodes_generation incoming [] c = (λ _. refl, λ b e. ground (arith, e))
commit_nodes_generation incoming (x ∷ xs) c = (
  λ e. ground (arith, e),
  λ b e. (
    ground (arith, e),
    ground (arith, e),
    λ f.
        insert_change-ne-nil (stamp_change (uint64 (c.generation + 1)) x)
          (sort_changes (map (stamp_change (uint64 (c.generation + 1))) xs)) (ground (arith, e, f)),
  ),
)

-- A refresh that finds changes stamps its batch with the next generation, which the cache takes, and
-- the batch has a change; one that finds none leaves the cache as it was.
pub replace_snapshot_generation :
    (nodes : List Node) (c : NodeCache)
    → ((replace_snapshot nodes c).0 ≡ none → (replace_snapshot nodes c).1 ≡ c)
      × ((b : NodeChangeBatch)
          → (replace_snapshot nodes c).0 ≡ some b
          → (b.generation ≡ uint64 (c.generation + 1))
            × ((replace_snapshot nodes c).1.generation ≡ b.generation)
            × (b.changes ≢ []))
unfolding replace_snapshot
replace_snapshot_generation nodes c =
    commit_nodes_generation (index_nodes nodes []) (diff_nodes c.nodes (index_nodes nodes [])) c
