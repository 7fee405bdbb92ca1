-- ===== src/Sync/Refreshes.antt =====
-- What refreshes make of the node cache (internal/resource/node_synchronizer.go, node_cache.go).
use cockpit_slurm.Base.{
  ℕ, ◌+◌, String, ◌≡◌, refl, ap, ◌∙◌, sym, inl, inr, ◌⊎◌, Bool, true, false, not, Option, none,
  some, List, [], ◌∷◌, if◌then◌else◌, is_empty, member, All, ◌==◌, string_eq, string_iff, arith,
  Bool-cases, Option-cases,
}
use cockpit_slurm.Resource.Node.{Node, NodeChangeBatch, identity, same_node_state}
use cockpit_slurm.Resource.Cache.{NodeCache, uint64, replace_snapshot, get, set_generation}
use cockpit_slurm.Resource.CacheLaws.{latest, merged, replace_snapshot-get}
use cockpit_slurm.Stream.Registry.{Hub, Encoder, publish, publication, replace_and_publish}
use cockpit_slurm.Sync.Synchronizer.{
  Poll, Signal, ticked, stopped, validate_node_snapshot, commit_listed, refresh, run_synchronizer,
}
use cockpit_slurm.Sync.Snapshots.{
  identities, Identified, validate_node_snapshot_iff, latest-identity,
}

publish-cache :
    (c : Encoder) (b : NodeChangeBatch) (accepts : ℕ → Bool) (h : Hub)
    → (publish c b accepts h).cache ≡ h.cache
unfolding publish
publish-cache c b accepts h = elim (Option-cases (publication c b h.message_seq)) [
  | inl e ↦ rw (publish, e) refl
  | inr (x, e) ↦ rw (publish, e) refl
]

replace_and_publish-cache :
    (c : Encoder) (nodes : List Node) (accepts : ℕ → Bool) (h : Hub)
    → (replace_and_publish c nodes accepts h).cache ≡ (replace_snapshot nodes h.cache).1
unfolding replace_and_publish
replace_and_publish-cache c nodes accepts h =
    elim (Option-cases (replace_snapshot nodes h.cache).0) [
      | inl e ↦ rw (replace_and_publish, e) refl
      | inr (b, e) ↦
          rw (replace_and_publish, e)
            (publish-cache c b accepts (record h { cache = (replace_snapshot nodes h.cache).1 }))
    ]

-- A refresh that has put a snapshot into the cache.
pub record Committed (p : Poll) (h k : Hub) : Type 0 where
  pub nodes : List Node
  pub listed : p.listed ≡ some nodes
  pub in_time : p.cancelled ≡ false
  pub identified : Identified nodes
  pub cached :
      (name : String)
      → get name k.cache
        ≡ merged (uint64 (h.cache.generation + 1)) (get name h.cache) (latest name nodes)

-- How a refresh ends.
abbrev pub Outcome : Poll → Hub → Bool × Hub → Type 0
Outcome p h (ok, k) = ((ok ≡ false) × (k ≡ h)) ⊎ ((ok ≡ true) × Committed p h k)

if-Outcome :
    (p : Poll) (h : Hub) (b : Bool) (x y : Bool × Hub)
    → (b ≡ true → Outcome p h x)
    → (b ≡ false → Outcome p h y)
    → Outcome p h (if b then x else y)
if-Outcome p h true x y f g = f refl
if-Outcome p h false x y f g = g refl

commit_listed-Outcome :
    (c : Encoder) (p : Poll) (listed : Option (List Node)) (h : Hub)
    → p.listed ≡ listed
    → Outcome p h (commit_listed c p listed h)
unfolding commit_listed
commit_listed-Outcome c p none h e = inl (refl, refl)
commit_listed-Outcome c p (some nodes) h e =
    if-Outcome p h p.cancelled (false, h) _ (λ _. inl (refl, refl))
      λ in_time.
        if-Outcome p h (not (validate_node_snapshot nodes)) (false, h) _ (λ _. inl (refl, refl))
          λ v. inr (
            refl,
            record {
              nodes = nodes;
              listed = e;
              in_time = in_time;
              identified = (validate_node_snapshot_iff nodes).0 (ground (arith, v));
              cached = λ name.
                  ap (get name) (replace_and_publish-cache c nodes p.accepts h)
                  ∙ replace_snapshot-get nodes h.cache name;
            },
          )

-- A refresh fails and changes nothing, or succeeds: then the adapter has listed nodes with distinct,
-- nonempty identities before the context ended, and the cache has under each name nothing where no
-- node of that name was listed, the node it had where the listed one is in the same state, and
-- otherwise the listed one with the next generation.
pub refresh-Outcome : (c : Encoder) (p : Poll) (h : Hub) → Outcome p h (refresh c p h)
unfolding refresh
refresh-Outcome c p h = commit_listed-Outcome c p p.listed h refl

-- Every node stands in the cache under its identity, which is not empty.
abbrev pub NamedNodes : NodeCache → Type 0
NamedNodes cache =
    (name : String) (n : Node)
    → get name cache ≡ some n
    → (identity n ≡ name) × (is_empty name ≡ false)

All-member :
    (k : String) (ks : List String)
    → All (λ j. is_empty j ≡ false) ks
    → member k ks ≡ true
    → is_empty k ≡ false
All-member k [] a m = absurd (cc)
All-member k (j ∷ ks) a m = elim (Bool-cases (j == k)) [
  | inl e ↦ ap is_empty (sym ((string_iff j k).0 e)) ∙ a.0
  | inr e ↦ All-member k ks a.1 (ground (arith, e))
]

identity-set_generation : (g : ℕ) (x : Node) → identity (set_generation g x) ≡ identity x
unfolding identity set_generation
identity-set_generation g x = refl

merged-identity :
    (g : ℕ) (name : String) (old new : Option Node) (n : Node)
    → ((o : Node) → old ≡ some o → identity o ≡ name)
    → ((x : Node) → new ≡ some x → identity x ≡ name)
    → merged g old new ≡ some n
    → (identity n ≡ name) × ((x : Node) × (new ≡ some x))
merged-identity g name none none n p q h = absurd (cc)
merged-identity g name (some o) none n p q h = absurd (cc)
merged-identity g name none (some x) n p q h =
    let e : set_generation g x ≡ n = cc in
    (ap identity (sym e) ∙ identity-set_generation g x ∙ q x refl, (x, refl))
merged-identity g name (some o) (some x) n p q h = elim (Bool-cases (same_node_state o x)) [
  | inl s ↦ let e : o ≡ n = ground (arith, s) in (ap identity (sym e) ∙ p o refl, (x, refl))
  | inr s ↦
      let e : set_generation g x ≡ n = ground (arith, s) in
      (ap identity (sym e) ∙ identity-set_generation g x ∙ q x refl, (x, refl))
]

refresh-NamedNodes :
    (c : Encoder) (p : Poll) (h : Hub) → NamedNodes h.cache → NamedNodes (refresh c p h).1.cache
refresh-NamedNodes c p h all name n e = elim (refresh-Outcome c p h) [
  | inl (_, q) ↦ all name n (ap (λ x. get name x.cache) (sym q) ∙ e)
  | inr (_, d) ↦
      let m = sym (d.cached name) ∙ e in
      let (i, (x, l)) =
        merged-identity _ name (get name h.cache) (latest name d.nodes) n (λ o k. (all name o k).0)
          (λ x k. (latest-identity name d.nodes x k).0) m in
      (i, All-member name (identities d.nodes) d.identified.1 (latest-identity name d.nodes x l).1)
]

-- Whatever the adapter lists and however often the synchronizer runs, the cache that it leaves has
-- every node under its own identity, which is not empty, if the cache had so at its start.
pub run_synchronizer-NamedNodes :
    (c : Encoder) (signals : List Signal) (h : Hub)
    → NamedNodes h.cache
    → NamedNodes (run_synchronizer c signals h).cache
unfolding run_synchronizer
run_synchronizer-NamedNodes c [] h all = all
run_synchronizer-NamedNodes c (stopped ∷ signals) h all = all
run_synchronizer-NamedNodes c (ticked p ∷ signals) h all =
    run_synchronizer-NamedNodes c signals (refresh c p h).1 (refresh-NamedNodes c p h all)
