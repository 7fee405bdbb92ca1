-- ===== src/Authorization/Authorizer.antt =====
-- internal/authorization/authorizer.go. The resolver is an argument; nil parts are left out.
use cockpit_slurm.Base.{
  String, Bool, false, ◌||◌, Option, none, some, List, ◌!=◌, if◌then◌else◌, nat_eq, string_eq,
  is_empty,
}
use cockpit_slurm.Base.Maps.{lookup}
use cockpit_slurm.Identity.Resolver.{UserContext, IdentityResult, ok, err}
use cockpit_slurm.Authorization.Registry.{Registry, RegistryEntry}

pub record Decision : Type 0 where
  pub allowed : Bool
  pub required_capability : String
  pub user_context : UserContext

-- `m[k]` of a map into Booleans, with the zero value for a missing key.
unfoldable pub granted : String → List (String × Bool) → Bool
granted k m = elim (lookup k m) [ none ↦ false | some b ↦ b ]

-- What `Authorize` makes of the resolver's answer for a registered operation.
unfoldable pub decide : UserContext → RegistryEntry → IdentityResult UserContext → Option Decision
decide requester entry (err e) = none
decide requester entry (ok current) =
    if is_empty requester.username
      || (current.username != requester.username
          || (current.uid != requester.uid || current.gid != requester.gid))
    then none
    else some (record {
      allowed = granted entry.required_capability current.capabilities;
      required_capability = entry.required_capability;
      user_context = current;
    })

-- `Authorizer.Authorize`; `none` is an error.
unfoldable pub authorize :
    Registry → (UserContext → IdentityResult UserContext) → UserContext → String → Option Decision
authorize registry resolver requester operation_id = elim (lookup operation_id registry) [
  | none ↦ none
  | some entry ↦ decide requester entry (resolver requester)
]
