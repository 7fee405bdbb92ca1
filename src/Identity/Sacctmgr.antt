-- ===== src/Identity/Sacctmgr.antt =====
-- internal/identity/sacctmgr.go: the lookup of a user in SlurmDB. The run of sacctmgr and the JSON
-- package are arguments; the timeout belongs to the run.
use Prim.Native.String.{len}
use cockpit_slurm.Base.{
  ℕ, String, Bool, false, not, ◌&&◌, ◌||◌, Option, none, some, List, [], ◌∷◌, ◌==◌, ◌!=◌,
  if◌then◌else◌, nat_eq, string_eq, is_empty, is_alphanumeric, is_name_mark, codes, ltb, all,
  length, member, ◌<>◌,
}
use cockpit_slurm.Base.Maps.{GoMap, lookup}
use cockpit_slurm.Base.Order.{sort_strings}
use cockpit_slurm.Identity.Resolver.{
  SlurmUser, UserLookup, lookup_failed, not_found, found, trim_space,
}

-- The fields that are read of the generated models `V0043User` and `V0043OpenapiUsersResp`; a pointer
-- is an option.
pub record UserRecord : Type 0 where
  pub name : String
  pub administrator_level : Option (List String)
  pub associations : Option (List (Option String))
  pub coordinators : Option (List String)

pub record UsersResponse : Type 0 where
  pub errors : Option (List String)
  pub users : List UserRecord

-- `json.Unmarshal` into a map of raw messages, and into the generated model.
pub record SacctmgrJson : Type 0 where
  pub unmarshal_shape : String → Option (GoMap String)
  pub unmarshal_response : String → Option UsersResponse

-- `validSlurmUsername`
unfoldable pub valid_slurm_username : String → Bool
unfolding is_alphanumeric is_name_mark
valid_slurm_username username =
    not (is_empty username || ltb 255 (len username))
    && all (λ c. is_alphanumeric c || is_name_mark c) (codes username)

-- `len(trimmed) == 0 || trimmed[0] != '['`, negated
unfoldable pub begins_array : List ℕ → Bool
begins_array [] = false
begins_array (c ∷ cs) = c == b'['

-- `ok` and the test of `rawUsers`
unfoldable pub has_users_array : GoMap String → Bool
has_users_array shape = elim (lookup "users" shape) [
  | none ↦ false
  | some raw ↦ begins_array (trim_space (codes raw))
]

unfoldable pub has_errors : Option (List String) → Bool
has_errors none = false
has_errors (some es) = length es != 0

-- The admin level; `none` is the error for several values.
unfoldable pub admin_level_of : Option (List String) → Option String
admin_level_of none = some ""
admin_level_of (some []) = some ""
admin_level_of (some (l ∷ [])) = some l
admin_level_of (some (l ∷ k ∷ ls)) = none

-- The loop over the associations, with the map `seen`.
unfoldable pub distinct_accounts : List String → List (Option String) → List String
distinct_accounts seen [] = []
distinct_accounts seen (none ∷ rows) = distinct_accounts seen rows
distinct_accounts seen (some a ∷ rows) =
    let skipped = distinct_accounts seen rows in
    let taken = a ∷ distinct_accounts (a ∷ seen) rows in
    if is_empty a then skipped else if member a seen then skipped else taken

unfoldable pub accounts_of : Option (List (Option String)) → List String
accounts_of none = []
accounts_of (some rows) = distinct_accounts [] rows

-- The loop over the coordinators.
unfoldable pub named_coordinators : List String → List String
named_coordinators [] = []
named_coordinators (c ∷ cs) =
    if not (is_empty c) then c ∷ named_coordinators cs else named_coordinators cs

unfoldable pub coordinators_of : Option (List String) → List String
coordinators_of none = []
coordinators_of (some cs) = named_coordinators cs

-- The loop of `compactStrings` behind the value that was kept last.
unfoldable pub compact_from : String → List String → List String
compact_from last [] = []
compact_from last (v ∷ vs) = if v != last then v ∷ compact_from v vs else compact_from last vs

-- `compactStrings`
unfoldable pub compact_strings : List String → List String
compact_strings [] = []
compact_strings (v ∷ vs) = v ∷ compact_from v vs

-- The `SlurmUser` of a record, with its admin level.
unfoldable pub slurm_user : UserRecord → String → SlurmUser
slurm_user user level = record {
  username = user.name;
  admin_level = level;
  accounts = sort_strings (accounts_of user.associations);
  coordinator_accounts = compact_strings (sort_strings (coordinators_of user.coordinators));
}

-- What is made of the records of the response.
unfoldable pub single_user : String → List UserRecord → UserLookup
single_user requested [] = not_found
single_user requested (user ∷ []) =
    if user.name != requested
    then lookup_failed
    else elim (admin_level_of user.administrator_level) [
      | none ↦ lookup_failed
      | some level ↦ found (slurm_user user level)
    ]
single_user requested (user ∷ other ∷ users) = lookup_failed

unfoldable pub user_of_response : String → Option UsersResponse → UserLookup
user_of_response requested none = lookup_failed
user_of_response requested (some r) =
    if has_errors r.errors then lookup_failed else single_user requested r.users

-- `parseSacctmgrUser`
unfoldable pub parse_sacctmgr_user : SacctmgrJson → String → String → UserLookup
parse_sacctmgr_user json output requested = elim (json.unmarshal_shape output) [
  | none ↦ lookup_failed
  | some shape ↦
      if not (has_users_array shape)
      then lookup_failed
      else user_of_response requested (json.unmarshal_response output)
]

abbrev pub sacctmgr_args : String → List String
sacctmgr_args username =
    "--readonly"
    ∷ "--json"
    ∷ "show"
    ∷ "user"
    ∷ "where"
    ∷ ("name=" <> username)
    ∷ "withcoords"
    ∷ "withassoc"
    ∷ []

-- `LookupUser`; `run` takes the arguments and returns the output, where there is no error.
unfoldable pub lookup_user : SacctmgrJson → (List String → Option String) → String → UserLookup
lookup_user json run username =
    if not (valid_slurm_username username)
    then lookup_failed
    else elim (run (sacctmgr_args username)) [
      | none ↦ lookup_failed
      | some output ↦ parse_sacctmgr_user json output username
    ]
