-- ===== src/Tests/Identity.antt =====
-- The resolver and the authorizer on one user (internal/identity/capabilities.go,
-- internal/authorization/authorizer.go).
use cockpit_slurm.Identity.Privilege.{IsAdministrator}
use cockpit_slurm.Base.{◌↔◌}
use cockpit_slurm.Identity.Resolver.{SlurmUser}
use cockpit_slurm.Authorization.Authorizer.{granted}
use cockpit_slurm.Authorization.Authorizer.{decide}
use cockpit_slurm.Base.Maps.{insert}
use cockpit_slurm.Authorization.Registry.{requires}
use cockpit_slurm.Authorization.Registry.{validate_schema}
use cockpit_slurm.Authorization.Registry.{contains}
use cockpit_slurm.Authorization.Registry.{validate_entry}
use cockpit_slurm.Authorization.Registry.{register_entries}
use cockpit_slurm.Identity.Resolver.{resolve_user}
use cockpit_slurm.Base.{is_empty}
use cockpit_slurm.Base.{String, true, ◌≡◌, refl, List, [], ◌∷◌, ◌==◌, string_eq}
use cockpit_slurm.Base.Maps.{lookup}
use cockpit_slurm.Identity.Resolver.{
  UserContext, UserLookup, found, resolve, normalize_admin_level, resolved_context,
}
use cockpit_slurm.Authorization.Registry.{Registry, drain_entry, resume_entry, new_global_registry}
use cockpit_slurm.Authorization.Authorizer.{Decision, authorize}
use cockpit_slurm.Authorization.Decisions.{capability_of, authorize_admin}

abbrev pub alice : UserContext
alice = record {
  uid = 1000;
  gid = 100;
  username = "alice";
  admin_level = "";
  accounts = [];
  coordinator_accounts = [];
  capabilities = [];
}

abbrev pub users : String → UserLookup
users name = found (record {
  username = "alice";
  admin_level = " Administrator";
  accounts = [];
  coordinator_accounts = [];
})

abbrev pub resolved : UserContext
resolved = record alice {
  admin_level = "admin";
  capabilities = ("nodes.drain", true) ∷ ("nodes.resume", true) ∷ [];
}

abbrev level : String
level = "operator"

abbrev pub entries : Registry
entries = ("node.drain", drain_entry) ∷ ("node.resume", resume_entry) ∷ []

abbrev pub handlers : List String
handlers = "node.set_state" ∷ []

abbrev pub validators : List String
validators = "node.target" ∷ []

abbrev pub decision : Decision
decision = record { allowed = true; required_capability = "nodes.drain"; user_context = resolved }

authorize_admin_example :
    (user : SlurmUser) × (users alice.username ≡ found user)
    × (user.username ≡ alice.username)
    × (decision.required_capability ≡ capability_of "node.drain")
    × (decision.allowed ≡ (decision.user_context.admin_level == "admin"))
    × ((decision.allowed ≡ true) ↔ IsAdministrator user)
    × (decision.user_context.uid ≡ alice.uid)
    × (decision.user_context.gid ≡ alice.gid)
    × (decision.user_context.username ≡ alice.username)
unfolding new_global_registry register_entries validate_entry is_empty contains validate_schema
    requires lookup insert authorize decide resolve resolve_user normalize_admin_level
    resolved_context granted
authorize_admin_example =
    authorize_admin entries handlers validators entries users alice "node.drain" decision refl refl
