-- ===== src/Identity/Accounts.antt =====
-- What the Slurm lookup says of a user's accounts (internal/identity/sacctmgr.go).
use cockpit_slurm.Base.{
  String, ◌≡◌, refl, inl, inr, true, false, not, ◌&&◌, Option, none, some, List, [], ◌∷◌, string_eq,
  string_iff, is_empty, arith, Option-cases, member, subst,
}
use cockpit_slurm.Base.Order.{Ascending, sort_strings, sort_strings-Sorted}
use cockpit_slurm.Identity.Resolver.{SlurmUser, found}
use cockpit_slurm.Identity.Sacctmgr.{
  UserRecord, UsersResponse, SacctmgrJson, valid_slurm_username, admin_level_of, coordinators_of,
  slurm_user, single_user, has_errors, user_of_response, parse_sacctmgr_user, sacctmgr_args,
  lookup_user,
}
use cockpit_slurm.Identity.AccountLists.{
  associated, coordinates, accounts-are, accounts-ascend, coordinators-are,
  compact_strings-Ascending,
}

-- What a found record says: the one record of the response, under the name that was asked for.
pub record Describes (requested : String) (record_of : UserRecord) (user : SlurmUser) : Type 0 where
  pub named : user.username ≡ requested
  pub level : admin_level_of record_of.administrator_level ≡ some user.admin_level
  pub accounts_ascend : Ascending user.accounts
  pub accounts_are :
      (k : String)
      → member k user.accounts ≡ (associated k record_of.associations && not (is_empty k))
  pub coordinators_ascend : Ascending user.coordinator_accounts
  pub coordinators_are :
      (k : String)
      → member k user.coordinator_accounts
        ≡ (coordinates k record_of.coordinators && not (is_empty k))

slurm_user-Describes :
    (requested level : String) (r : UserRecord)
    → r.name ≡ requested
    → admin_level_of r.administrator_level ≡ some level
    → Describes requested r (slurm_user r level)
unfolding slurm_user
slurm_user-Describes requested level r n l = record {
  named = n;
  level = l;
  accounts_ascend = accounts-ascend r.associations;
  accounts_are = λ k. accounts-are k r.associations;
  coordinators_ascend =
      compact_strings-Ascending (sort_strings (coordinators_of r.coordinators))
        (sort_strings-Sorted (coordinators_of r.coordinators));
  coordinators_are = λ k. coordinators-are k r.coordinators;
}

-- The response that sacctmgr prints for a user.
pub record Printed (json : SacctmgrJson) (run : List String → Option String) (username : String)
    (r : UserRecord) : Type 0 where
  pub valid : valid_slurm_username username ≡ true
  pub output : String
  pub printed : run (sacctmgr_args username) ≡ some output
  pub response : UsersResponse
  pub decoded : json.unmarshal_response output ≡ some response
  pub no_errors : has_errors response.errors ≡ false
  pub alone : response.users ≡ r ∷ []

single_user-found :
    (requested : String) (users : List UserRecord) (user : SlurmUser)
    → single_user requested users ≡ found user
    → (r : UserRecord) × (users ≡ r ∷ []) × Describes requested r user
unfolding single_user
single_user-found requested [] user h = absurd (cc)
single_user-found requested (r ∷ s ∷ rs) user h = absurd (cc)
single_user-found requested (r ∷ []) user h =
    elim (Option-cases (admin_level_of r.administrator_level)) [
      | inl e ↦ absurd (ground (arith, e))
      | inr (l, e) ↦
          let n : r.name ≡ requested = ground (arith, e, string_iff r.name requested) in
          let q : slurm_user r l ≡ user = ground (arith, e) in
          (r, refl, subst (Describes requested r) q (slurm_user-Describes requested l r n e))
    ]

user_of_response-found :
    (requested : String) (response : Option UsersResponse) (user : SlurmUser)
    → user_of_response requested response ≡ found user
    → (u : UsersResponse) × (response ≡ some u)
      × (has_errors u.errors ≡ false)
      × (single_user requested u.users ≡ found user)
unfolding user_of_response
user_of_response-found requested none user h = absurd (cc)
user_of_response-found requested (some u) user h = (u, refl, ground arith, ground arith)

parse_sacctmgr_user-found :
    (json : SacctmgrJson) (output requested : String) (user : SlurmUser)
    → parse_sacctmgr_user json output requested ≡ found user
    → user_of_response requested (json.unmarshal_response output) ≡ found user
unfolding parse_sacctmgr_user
parse_sacctmgr_user-found json output requested user h =
    elim (Option-cases (json.unmarshal_shape output)) [
      | inl e ↦ absurd (ground (arith, e))
      | inr (shape, e) ↦ ground (arith, e)
    ]

-- A user is found only under a valid name, for which sacctmgr printed one record, without errors; he
-- has that name and the record's only admin level, or none; his accounts are exactly the nonempty
-- account names of the record's associations, each once, in ascending order, and so are the
-- coordinator accounts of its nonempty coordinator names.
pub lookup_user-found :
    (json : SacctmgrJson) (run : List String → Option String) (username : String) (user : SlurmUser)
    → lookup_user json run username ≡ found user
    → (r : UserRecord) × Printed json run username r × Describes username r user
unfolding lookup_user
lookup_user-found json run username user h = elim (Option-cases (run (sacctmgr_args username))) [
  | inl e ↦ absurd (ground (arith, e))
  | inr (output, e) ↦
      let parsed = parse_sacctmgr_user-found json output username user (ground (arith, e)) in
      let (u, q, n, s) =
        user_of_response-found username (json.unmarshal_response output) user parsed in
      let (r, one, d) = single_user-found username u.users user s in
      (
        r,
        record {
          valid = ground (arith, e);
          output = output;
          printed = e;
          response = u;
          decoded = q;
          no_errors = n;
          alone = one;
        },
        d,
      )
]
