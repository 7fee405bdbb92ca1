-- ===== src/Authorization/Decisions.antt =====
-- What a registry can hold and whom the authorizer lets through (internal/authorization).
use cockpit_slurm.Base.{sym}
use cockpit_slurm.Identity.Privilege.{normalize_admin_level-admin}
use cockpit_slurm.Identity.Privilege.{resolve-ok}
use cockpit_slurm.Identity.Privilege.{IsAdministrator}
use cockpit_slurm.Base.{◌↔◌}
use cockpit_slurm.Identity.Resolver.{found}
use cockpit_slurm.Identity.Resolver.{SlurmUser}
use mathlib.Core.Path.{subst, subst₂}
use cockpit_slurm.Base.{
  String, ◌≡◌, ap, ◌∙◌, ◌⊎◌, inl, inr, Bool, true, false, Option, none, some, List, [], ◌∷◌, ◌==◌,
  ◌!=◌, if◌then◌else◌, nat_eq, string_eq, string_iff, is_empty, arith, Option-cases, Bool-cases,
}
use cockpit_slurm.Base.Maps.{lookup, insert, lookup-insert}
use cockpit_slurm.Identity.Resolver.{
  UserContext, IdentityResult, ok, err, UserLookup, resolve, capability_node_drain,
  capability_node_resume,
}
use cockpit_slurm.Identity.Privilege.{resolve_capabilities}
use cockpit_slurm.Authorization.Registry.{
  Registry, RegistryEntry, operation_node_drain, operation_node_resume, validate_entry,
  register_entries, requires, new_global_registry,
}
use cockpit_slurm.Authorization.Authorizer.{Decision, granted, decide, authorize}

-- The keys and entries that validation lets through.
pub record IsNodeUpdate (key : String) (e : RegistryEntry) : Type 0 where
  pub keyed : e.operation_id ≡ key
  pub known : (key ≡ operation_node_drain) ⊎ (key ≡ operation_node_resume)
  pub on_node : e.resource ≡ "node"
  pub updates : e.command ≡ "update"
  pub needs_capability : is_empty e.required_capability ≡ false

validate_entry-IsNodeUpdate :
    (key : String) (e : RegistryEntry) (hs vs : List String)
    → (key != e.operation_id) ≡ false
    → validate_entry key e hs vs ≡ true
    → IsNodeUpdate key e
unfolding validate_entry
validate_entry-IsNodeUpdate key e hs vs k v = record {
  keyed = ground (arith, string_iff key e.operation_id);
  known = ground (arith, string_iff key operation_node_drain, string_iff key operation_node_resume);
  on_node = ground (arith, string_iff e.resource "node");
  updates = ground (arith, string_iff e.command "update");
  needs_capability = ground arith;
}

-- Every entry of a registry is a node update under its own key.
abbrev AllNodeUpdates : Registry → Type 0
AllNodeUpdates registry =
    (key : String) (e : RegistryEntry) → lookup key registry ≡ some e → IsNodeUpdate key e

insert-AllNodeUpdates :
    (key : String) (e : RegistryEntry) (registry : Registry)
    → IsNodeUpdate key e
    → AllNodeUpdates registry
    → AllNodeUpdates (insert key e registry)
insert-AllNodeUpdates key e registry u all j f h = elim (Bool-cases (key == j)) [
  | inr ne ↦ all j f (ground (arith, lookup-insert key j e registry))
  | inl same ↦
      let k : key ≡ j = (string_iff key j).0 same in
      let q : e ≡ f = ground (arith, lookup-insert key j e registry) in subst₂ IsNodeUpdate k q u
]

register_entries-AllNodeUpdates :
    (hs vs : List String) (entries : List (String × RegistryEntry)) (start registry : Registry)
    → AllNodeUpdates start
    → register_entries hs vs entries start ≡ some registry
    → AllNodeUpdates registry
unfolding register_entries
register_entries-AllNodeUpdates hs vs [] start registry all h =
    let q : start ≡ registry = cc in subst AllNodeUpdates q all
register_entries-AllNodeUpdates hs vs ((key, e) ∷ entries) start registry all h =
    register_entries-AllNodeUpdates hs vs entries (insert key e start) registry
      (insert-AllNodeUpdates key e start
        (validate_entry-IsNodeUpdate key e hs vs (ground arith) (ground arith)) all)
      (ground arith)

-- The capability that an operation needs.
abbrev pub capability_of : String → String
capability_of op =
    if op == operation_node_drain then capability_node_drain else capability_node_resume

new_global_registry-facts :
    (entries : List (String × RegistryEntry)) (hs vs : List String) (registry : Registry)
    → new_global_registry entries hs vs ≡ some registry
    → (register_entries hs vs entries [] ≡ some registry)
      × (requires capability_node_drain (lookup operation_node_drain registry) ≡ true)
      × (requires capability_node_resume (lookup operation_node_resume registry) ≡ true)
unfolding new_global_registry
new_global_registry-facts entries hs vs registry h =
    elim (Option-cases (register_entries hs vs entries [])) [
      | inl e ↦ absurd (ground (arith, e))
      | inr (r, e) ↦ (ground (arith, e), ground (arith, e), ground (arith, e))
    ]

empty-AllNodeUpdates : AllNodeUpdates []
unfolding lookup
empty-AllNodeUpdates key e h = absurd (cc)

lookup_at :
    (registry : Registry) (o p : String) (e : RegistryEntry)
    → o ≡ p
    → lookup o registry ≡ some e
    → lookup p registry ≡ some e
lookup_at registry o p e k f = subst (λ x. lookup x registry ≡ some e) k f

required_of :
    (capability : String) (o : Option RegistryEntry) (e : RegistryEntry)
    → o ≡ some e
    → requires capability o ≡ true
    → e.required_capability ≡ capability
unfolding requires
required_of capability none e q h = absurd (cc)
required_of capability (some x) e q h = ground (arith, string_iff x.required_capability capability)

-- Whatever entries a registry is built from, if that succeeds then each registered operation is
-- "node.drain" or "node.resume" under its own identifier, updates a node, and requires
-- "nodes.drain" or "nodes.resume" accordingly.
pub new_global_registry-entries :
    (entries : List (String × RegistryEntry)) (hs vs : List String) (registry : Registry)
    (op : String) (e : RegistryEntry)
    → new_global_registry entries hs vs ≡ some registry
    → lookup op registry ≡ some e
    → IsNodeUpdate op e × (e.required_capability ≡ capability_of op)
unfolding requires
new_global_registry-entries entries hs vs registry op e h f =
    let (r, drain, resume) = new_global_registry-facts entries hs vs registry h in
    let u =
      register_entries-AllNodeUpdates hs vs entries [] registry empty-AllNodeUpdates r op e f in
    (
      u,
      elim u.known [
        | inl k ↦ rw k (required_of capability_node_drain _ e (lookup_at registry op _ e k f) drain)
        | inr k ↦
            rw k (required_of capability_node_resume _ e (lookup_at registry op _ e k f) resume)
      ],
    )

pub decide-some :
    (requester : UserContext) (e : RegistryEntry) (r : IdentityResult UserContext) (d : Decision)
    → decide requester e r ≡ some d
    → (r ≡ ok d.user_context)
      × (d.required_capability ≡ e.required_capability)
      × (d.allowed ≡ granted e.required_capability d.user_context.capabilities)
unfolding decide
decide-some requester e (err x) d h = absurd (cc)
decide-some requester e (ok current) d h = (ground arith, ground arith, ground arith)

granted_both :
    (op : String) (level : Bool) (m : List (String × Bool))
    → lookup capability_node_drain m ≡ some level
    → lookup capability_node_resume m ≡ some level
    → granted (capability_of op) m ≡ level
unfolding granted
granted_both op level m h k = ground arith

-- With a registry that validation let through and the Slurm resolver, a decision is taken only on the
-- Slurm record of the requester's own name, names the operation's capability and the requester, and
-- allows the operation exactly if the record's admin level reads "admin" or "administrator", in any
-- case and between any spaces.
pub authorize_admin :
    (entries : List (String × RegistryEntry)) (hs vs : List String) (registry : Registry)
    (users : String → UserLookup) (requester : UserContext) (op : String) (d : Decision)
    → new_global_registry entries hs vs ≡ some registry
    → authorize registry (resolve users) requester op ≡ some d
    → (user : SlurmUser) × (users requester.username ≡ found user)
      × (user.username ≡ requester.username)
      × (d.required_capability ≡ capability_of op)
      × (d.allowed ≡ (d.user_context.admin_level == "admin"))
      × ((d.allowed ≡ true) ↔ IsAdministrator user)
      × (d.user_context.uid ≡ requester.uid)
      × (d.user_context.gid ≡ requester.gid)
      × (d.user_context.username ≡ requester.username)
unfolding authorize
authorize_admin entries hs vs registry users requester op d n h =
    elim (Option-cases (lookup op registry)) [
      | inl e ↦ absurd (ground (arith, e))
      | inr (entry, e) ↦
          let (r, q, a) =
            decide-some requester entry (resolve users requester) d (ground (arith, e)) in
          let caps = resolve_capabilities users requester d.user_context r in
          let c = (new_global_registry-entries entries hs vs registry op entry n e).1 in
          let (user, found_user, resolved) = resolve-ok users requester d.user_context r in
          let allows : d.allowed ≡ (d.user_context.admin_level == "admin") =
            a
            ∙ ap (λ k. granted k d.user_context.capabilities) c
            ∙ granted_both op (d.user_context.admin_level == "admin") d.user_context.capabilities
                caps.0 caps.1 in
          let admin = normalize_admin_level-admin user d.user_context.admin_level resolved.level in
          (
            user,
            found_user,
            resolved.same_name,
            q ∙ c,
            allows,
            ((λ h. admin.0 (sym allows ∙ h)), (λ h. allows ∙ admin.1 h)),
            caps.2,
            caps.3,
            caps.4,
          )
    ]
