-- ===== src/Sync/Snapshots.antt =====
-- Which snapshots `validateNodeSnapshot` lets through (internal/resource/node_synchronizer.go).
use cockpit_slurm.Base.{
  String, ◌≡◌, ◌↔◌, refl, inl, inr, true, false, some, List, [], ◌∷◌, map, is_empty, member,
  Distinct, All, string_eq, string_iff, arith, Option-cases,
}
use cockpit_slurm.Resource.Node.{Node, identity}
use cockpit_slurm.Resource.CacheLaws.{latest}
use cockpit_slurm.Sync.Synchronizer.{validate_from, validate_node_snapshot}

abbrev pub identities : List Node → List String
identities nodes = map identity nodes

-- No name is empty, and none is among those seen.
abbrev Unseen : List String → List String → Type 0
Unseen seen ks = All (λ k. (is_empty k ≡ false) × (member k seen ≡ false)) ks

more_seen :
    (k : String) (seen ks : List String)
    → member k ks ≡ false
    → Unseen seen ks
    → Unseen (k ∷ seen) ks
more_seen k seen [] m u = tt
more_seen k seen (j ∷ ks) m u = ground (arith, string_iff k j, string_iff j k, more_seen k seen ks)

less_seen :
    (k : String) (seen ks : List String)
    → Unseen (k ∷ seen) ks
    → (member k ks ≡ false) × Unseen seen ks
less_seen k seen [] u = ground arith
less_seen k seen (j ∷ ks) u = ground (arith, string_iff k j, string_iff j k, less_seen k seen ks)

validate_from_sound :
    (seen : List String) (nodes : List Node)
    → validate_from seen nodes ≡ true
    → Distinct (identities nodes) × Unseen seen (identities nodes)
unfolding validate_from
validate_from_sound seen [] h = (tt, tt)
validate_from_sound seen (n ∷ nodes) h =
    let (d, u) = validate_from_sound (identity n ∷ seen) nodes (ground arith) in
    let (m, v) = less_seen (identity n) seen (identities nodes) u in
    ((m, d), ((ground arith, ground arith), v))

validate_from_complete :
    (seen : List String) (nodes : List Node)
    → Distinct (identities nodes)
    → Unseen seen (identities nodes)
    → validate_from seen nodes ≡ true
unfolding validate_from
validate_from_complete seen [] d u = refl
validate_from_complete seen (n ∷ nodes) d u =
    let rest =
      validate_from_complete (identity n ∷ seen) nodes d.1
        (more_seen (identity n) seen (identities nodes) d.0 u.1) in
    ground (arith, rest)

-- A snapshot whose nodes have distinct, nonempty identities.
abbrev pub Identified : List Node → Type 0
Identified nodes = Distinct (identities nodes) × All (λ k. is_empty k ≡ false) (identities nodes)

named : (ks : List String) → Unseen [] ks → All (λ k. is_empty k ≡ false) ks
named [] u = tt
named (k ∷ ks) u = (u.0.0, named ks u.1)

unseen : (ks : List String) → All (λ k. is_empty k ≡ false) ks → Unseen [] ks
unseen [] n = tt
unseen (k ∷ ks) n = ((n.0, refl), unseen ks n.1)

-- `validateNodeSnapshot` accepts exactly the snapshots whose nodes have distinct, nonempty
-- identities.
pub validate_node_snapshot_iff :
    (nodes : List Node) → (validate_node_snapshot nodes ≡ true) ↔ Identified nodes
unfolding validate_node_snapshot
validate_node_snapshot_iff nodes = (
  λ h. (let (d, u) = validate_from_sound [] nodes h in (d, named (identities nodes) u)),
  λ (d, n). validate_from_complete [] nodes d (unseen (identities nodes) n),
)

-- The node that a list has last under a key has that identity, and is there where the key is.
pub latest-identity :
    (k : String) (nodes : List Node) (n : Node)
    → latest k nodes ≡ some n
    → (identity n ≡ k) × (member k (identities nodes) ≡ true)
latest-identity k [] n h = absurd (cc)
latest-identity k (m ∷ nodes) n h = elim (Option-cases (latest k nodes)) [
  | inl e ↦ (ground (arith, e, string_iff (identity m) k), ground (arith, e))
  | inr (x, e) ↦ (
    ground (arith, e, latest-identity k nodes x e),
    ground (arith, e, latest-identity k nodes x e),
  )
]
