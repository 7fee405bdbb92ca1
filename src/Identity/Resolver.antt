-- ===== src/Identity/Resolver.antt =====
-- internal/identity/capabilities.go, with `UserContext` of internal/connection/connection.go. The
-- lookup of a user in SlurmDB is an argument; a nil resolver is left out.
use mathlib.Core.List.{reverse}
use cockpit_slurm.Base.{
  ℕ, ◌+◌, String, Bool, ◌&&◌, ◌||◌, List, [], ◌∷◌, map, leb, ◌==◌, ◌!=◌, if◌then◌else◌, nat_eq,
  string_eq, list_eq, is_empty, is_space, codes,
}

pub record UserContext : Type 0 where
  pub uid : ℕ
  pub gid : ℕ
  pub username : String
  pub admin_level : String
  pub accounts : List String
  pub coordinator_accounts : List String
  pub capabilities : List (String × Bool)

pub record SlurmUser : Type 0 where
  pub username : String
  pub admin_level : String
  pub accounts : List String
  pub coordinator_accounts : List String

pub data IdentityError : Type 0 where
  identity_unavailable slurm_user_not_found slurm_user_lookup unknown_admin_level : IdentityError

pub data IdentityResult {ℓ} (A : Type ℓ) : Type ℓ where
  ok : A → IdentityResult A
  err : IdentityError → IdentityResult A

infixl 5 ◌>>=◌
abbrev ◌>>=◌ {ℓ κ} :
    {A : Type ℓ} {B : Type κ} → IdentityResult A → (A → IdentityResult B) → IdentityResult B
ok a >>= f = f a
err e >>= f = err e

-- What `LookupUser` returns.
pub data UserLookup : Type 0 where
  lookup_failed not_found : UserLookup
  found : SlurmUser → UserLookup

abbrev pub capability_node_drain : String
capability_node_drain = "nodes.drain"

abbrev pub capability_node_resume : String
capability_node_resume = "nodes.resume"

-- `unicode.ToLower`, exact on ASCII and on the two letters beyond it that it maps into ASCII. The
-- result is only compared with ASCII texts, so that the other letters, which stay outside ASCII,
-- may stay as they are.
unfoldable pub to_lower : ℕ → ℕ
to_lower c =
    if leb b'A' c && leb c b'Z'
    then c + 32
    else if c == 0x130
    then b'i'
    else if c == 0x212a
    then b'k'
    else c

unfoldable pub drop_spaces : List ℕ → List ℕ
drop_spaces [] = []
drop_spaces (c ∷ cs) = if is_space c then drop_spaces cs else c ∷ cs

-- `strings.TrimSpace`
unfoldable pub trim_space : List ℕ → List ℕ
unfolding drop_spaces is_space
trim_space cs = reverse (drop_spaces (reverse (drop_spaces cs)))

unfoldable pub normalize_admin_level : String → IdentityResult String
unfolding trim_space to_lower
normalize_admin_level level =
    let cs = map to_lower (trim_space (codes level)) in
    if cs == codes "none"
    then ok "none"
    else if cs == codes "operator"
    then ok "operator"
    else if cs == codes "admin" || cs == codes "administrator"
    then ok "admin"
    else err unknown_admin_level

-- The context that `Resolve` returns for a user and the normalized level.
unfoldable pub resolved_context : UserContext → SlurmUser → String → UserContext
resolved_context requester user level = record requester {
  admin_level = level;
  accounts = user.accounts;
  coordinator_accounts = user.coordinator_accounts;
  capabilities =
      (capability_node_drain, level == "admin") ∷ (capability_node_resume, level == "admin") ∷ [];
}

unfoldable pub resolve_user : UserContext → UserLookup → IdentityResult UserContext
resolve_user requester lookup_failed = err slurm_user_lookup
resolve_user requester not_found = err slurm_user_not_found
resolve_user requester (found user) =
    if is_empty user.username || user.username != requester.username
    then err identity_unavailable
    else do
      level ← normalize_admin_level user.admin_level
      ok (resolved_context requester user level)

-- `CapabilityResolver.Resolve`
unfoldable pub resolve : (String → UserLookup) → UserContext → IdentityResult UserContext
resolve users requester =
    if is_empty requester.username
    then err identity_unavailable
    else resolve_user requester (users requester.username)
