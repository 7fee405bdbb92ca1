-- ===== src/Identity/Privilege.antt =====
-- Which users the resolver makes node administrators (internal/identity/capabilities.go).
use cockpit_slurm.Base.{subst}
use cockpit_slurm.Base.{ℕ}
use cockpit_slurm.Identity.Resolver.{unknown_admin_level}
use cockpit_slurm.Base.{◌||◌}
use cockpit_slurm.Base.{List}
use cockpit_slurm.Base.{if◌then◌else◌}
use cockpit_slurm.Base.{list_test_iff}
use cockpit_slurm.Base.{codes}
use cockpit_slurm.Identity.Resolver.{trim_space}
use cockpit_slurm.Base.{◌↔◌}
use cockpit_slurm.Identity.Resolver.{to_lower}
use cockpit_slurm.Base.{true}
use cockpit_slurm.Base.{map}
use cockpit_slurm.Base.{
  String, ◌≡◌, refl, ap, ◌∙◌, ◌⊎◌, inl, inr, Bool, false, some, [], ◌∷◌, ◌==◌, nat_eq, string_eq,
  string_iff, list_eq, is_empty, arith, Bool-cases,
}
use cockpit_slurm.Base.Maps.{lookup}
use cockpit_slurm.Identity.Resolver.{
  UserContext, SlurmUser, IdentityError, IdentityResult, ok, err, UserLookup, lookup_failed,
  not_found, found, capability_node_drain, capability_node_resume, normalize_admin_level,
  resolved_context, resolve_user, resolve,
}

-- The context of a requester whose Slurm record is `user`, resolved.
pub record Resolved (requester : UserContext) (user : SlurmUser) (c : UserContext) : Type 0 where
  pub same_name : user.username ≡ requester.username
  pub named : is_empty requester.username ≡ false
  pub level : normalize_admin_level user.admin_level ≡ ok c.admin_level
  pub context : c ≡ resolved_context requester user c.admin_level

Result-cases :
    (r : IdentityResult String) → ((s : String) × (r ≡ ok s)) ⊎ ((e : IdentityError) × (r ≡ err e))
Result-cases (ok s) = inl (s, refl)
Result-cases (err e) = inr (e, refl)

resolve_user-ok :
    (requester : UserContext) (l : UserLookup) (c : UserContext)
    → is_empty requester.username ≡ false
    → resolve_user requester l ≡ ok c
    → (user : SlurmUser) × (l ≡ found user) × Resolved requester user c
unfolding resolve_user resolved_context
resolve_user-ok requester lookup_failed c n h = absurd (cc)
resolve_user-ok requester not_found c n h = absurd (cc)
resolve_user-ok requester (found user) c n h =
    elim (Result-cases (normalize_admin_level user.admin_level)) [
      | inr (e, q) ↦ absurd (ground (arith, q))
      | inl (s, q) ↦ (
        user,
        refl,
        record {
          same_name = ground (arith, string_iff user.username requester.username);
          named = n;
          level = ground (arith, q);
          context = ground (arith, q);
        },
      )
    ]

-- `Resolve` succeeds only with the Slurm record of the requester's own name, and returns the
-- requester's identity with the normalized admin level.
pub resolve-ok :
    (users : String → UserLookup) (requester c : UserContext)
    → resolve users requester ≡ ok c
    → (user : SlurmUser) × (users requester.username ≡ found user) × Resolved requester user c
unfolding resolve
resolve-ok users requester c h = elim (Bool-cases (is_empty requester.username)) [
  | inl e ↦ absurd (ground (arith, e))
  | inr e ↦ resolve_user-ok requester (users requester.username) c e (ground (arith, e))
]

lookup_capabilities :
    (a b : Bool)
    → (lookup capability_node_drain ((capability_node_drain, a) ∷ (capability_node_resume, b) ∷ [])
        ≡ some a)
      × (lookup capability_node_resume
            ((capability_node_drain, a) ∷ (capability_node_resume, b) ∷ [])
          ≡ some b)
unfolding lookup
lookup_capabilities a b = (refl, refl)

-- Both node capabilities of a resolved context are present and are granted exactly to an
-- administrator: a user whose Slurm record normalizes to the level "admin".
pub resolve_capabilities :
    (users : String → UserLookup) (requester c : UserContext)
    → resolve users requester ≡ ok c
    → (lookup capability_node_drain c.capabilities ≡ some (c.admin_level == "admin"))
      × (lookup capability_node_resume c.capabilities ≡ some (c.admin_level == "admin"))
      × (c.uid ≡ requester.uid)
      × (c.gid ≡ requester.gid)
      × (c.username ≡ requester.username)
unfolding resolved_context
resolve_capabilities users requester c h =
    let (user, _, r) = resolve-ok users requester c h in
    let both = lookup_capabilities (c.admin_level == "admin") (c.admin_level == "admin") in
    (
      ap (λ x. lookup capability_node_drain x.capabilities) r.context ∙ both.0,
      ap (λ x. lookup capability_node_resume x.capabilities) r.context ∙ both.1,
      ap (λ x. x.uid) r.context,
      ap (λ x. x.gid) r.context,
      ap (λ x. x.username) r.context,
    )

-- The levels that a record can have after normalization.
pub normalize_admin_level-ok :
    (raw level : String)
    → normalize_admin_level raw ≡ ok level
    → (level ≡ "none") ⊎ ((level ≡ "operator") ⊎ (level ≡ "admin"))
unfolding normalize_admin_level
normalize_admin_level-ok raw level h = ground arith

-- A record whose admin level reads "admin" or "administrator", in any case and between any spaces.
abbrev pub IsAdministrator : SlurmUser → Type 0
IsAdministrator user =
    let level = map to_lower (trim_space (codes user.admin_level)) in
    (level ≡ codes "admin") ⊎ (level ≡ codes "administrator")

-- The level for a text by what it equals.
abbrev level_for : Bool → Bool → Bool → IdentityResult String
level_for is_none is_operator is_admin =
    if is_none
    then ok "none"
    else if is_operator
    then ok "operator"
    else if is_admin
    then ok "admin"
    else err unknown_admin_level

abbrev level_of_text : List ℕ → IdentityResult String
level_of_text cs =
    level_for (cs == codes "none") (cs == codes "operator")
      (cs == codes "admin" || cs == codes "administrator")

or_right : (a b : Bool) → a ≡ false → a || b ≡ true → b ≡ true
or_right a b e h = ground arith

any_text :
    (cs : List ℕ)
    → cs == codes "admin" || cs == codes "administrator" ≡ true
    → (cs ≡ codes "admin") ⊎ (cs ≡ codes "administrator")
any_text cs h = elim (Bool-cases (cs == codes "admin")) [
  | inl e ↦ inl ((list_test_iff cs (codes "admin")).0 e)
  | inr e ↦ inr (
      (list_test_iff cs (codes "administrator")).0
        (or_right (cs == codes "admin") (cs == codes "administrator") e h))
]

other_level :
    (s level : String)
    → (s == "admin") ≡ false
    → IdentityResult.ok s ≡ ok level
    → (level == "admin") ≡ true
    → ⊥
other_level s level e h l =
    let same : s ≡ level = cc in let q : (s == "admin") ≡ true = rw same l in cc

level_for-admin :
    (n o a : Bool) (level : String)
    → level_for n o a ≡ ok level
    → (level == "admin") ≡ true
    → a ≡ true
level_for-admin true o a level h e = absurd (other_level "none" level refl h e)
level_for-admin false true a level h e = absurd (other_level "operator" level refl h e)
level_for-admin false false true level h e = refl
level_for-admin false false false level h e = absurd (cc)

ok-admin : (level : String) → IdentityResult.ok "admin" ≡ ok level → (level == "admin") ≡ true
ok-admin level h = ground (arith, string_iff level "admin")

pub normalize_admin_level-admin :
    (user : SlurmUser) (level : String)
    → normalize_admin_level user.admin_level ≡ ok level
    → ((level == "admin") ≡ true) ↔ IsAdministrator user
unfolding normalize_admin_level
normalize_admin_level-admin user level h =
    let cs = map to_lower (trim_space (codes user.admin_level)) in
    let h' : level_of_text cs ≡ ok level = h in
    (
      (λ e. any_text cs (
          level_for-admin (cs == codes "none") (cs == codes "operator")
            (cs == codes "admin" || cs == codes "administrator") level h' e)),
      (λ a. elim a [
        | inl q ↦ ok-admin level (subst (λ x. level_of_text x ≡ ok level) q h')
        | inr q ↦ ok-admin level (subst (λ x. level_of_text x ≡ ok level) q h')
      ]),
    )
