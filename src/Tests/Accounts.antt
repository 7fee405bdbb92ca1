-- ===== src/Tests/Accounts.antt =====
-- A user record of sacctmgr with repeated accounts (internal/identity/sacctmgr_test.go).
use cockpit_slurm.Identity.Sacctmgr.{
  valid_slurm_username, parse_sacctmgr_user, has_users_array, begins_array, user_of_response,
  has_errors, single_user, admin_level_of, slurm_user, compact_strings, compact_from, accounts_of,
  coordinators_of, distinct_accounts, named_coordinators,
}
use cockpit_slurm.Base.{is_empty, is_space, is_alphanumeric, is_name_mark}
use cockpit_slurm.Base.Maps.{lookup}
use cockpit_slurm.Identity.Resolver.{trim_space, drop_spaces}
use cockpit_slurm.Base.Order.{sort_strings, insert_string}
use cockpit_slurm.Base.{refl, some, none, Option, List, String, [], ◌∷◌}
use cockpit_slurm.Identity.Resolver.{SlurmUser}
use cockpit_slurm.Identity.Sacctmgr.{UserRecord, SacctmgrJson, lookup_user}
use cockpit_slurm.Identity.Accounts.{Printed, Describes, lookup_user-found}

abbrev row : UserRecord
row = record {
  name = "alice";
  administrator_level = some ("Administrator" ∷ []);
  associations = some (some "physics" ∷ some "" ∷ none ∷ some "astro" ∷ some "physics" ∷ []);
  coordinators = some ("physics" ∷ "physics" ∷ []);
}

abbrev json : SacctmgrJson
json = record {
  unmarshal_shape = λ out. some (("users", " [ ]") ∷ []);
  unmarshal_response = λ out. some (record { errors = some []; users = row ∷ [] });
}

abbrev print_users : List String → Option String
print_users args = some "{}"

abbrev user : SlurmUser
user = record {
  username = "alice";
  admin_level = "Administrator";
  accounts = "astro" ∷ "physics" ∷ [];
  coordinator_accounts = "physics" ∷ [];
}

lookup_user-found_example :
    (r : UserRecord) × Printed json print_users "alice" r × Describes "alice" r user
unfolding lookup_user valid_slurm_username parse_sacctmgr_user has_users_array begins_array
    user_of_response has_errors single_user admin_level_of slurm_user compact_strings compact_from
    accounts_of coordinators_of distinct_accounts named_coordinators is_empty is_space
    is_alphanumeric is_name_mark lookup trim_space drop_spaces sort_strings insert_string
lookup_user-found_example = lookup_user-found json print_users "alice" user refl
