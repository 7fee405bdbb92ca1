-- ===== src/Ledger/Schema.antt =====
-- internal/ledger/ledger.go: `configure`, `migrate`, `applyMigration` and `ensureColumn`. The schema is
-- the version of the database and the columns of the table `commands`, where it exists. SQLite
-- refuses to create a table that exists, to alter one that does not, and to add a column twice;
-- whatever else fails is an argument.
use cockpit_slurm.Base.{
  ℕ, zero, suc, String, Bool, true, false, not, ◌||◌, Option, none, some, List, [], ◌∷◌, ◌++◌, ◌==◌,
  if◌then◌else◌, string_eq, member,
}
use cockpit_slurm.Base.Int.{ℤ, pos, negsuc, int_eq, int_leb}
use cockpit_slurm.Ledger.Store.{Commit, commit_ok, commit_failed, commit_uncertain}

abbrev pub schema_version : ℤ
schema_version = pos 3

pub record Schema : Type 0 where
  pub version : ℤ
  pub columns : Option (List String)

-- The columns of the first version.
abbrev pub first_columns : List String
first_columns =
    "caller_uid" ∷ "command_id" ∷ "request_fingerprint" ∷ "request_payload" ∷ "requesting_username"
    ∷ "resource" ∷ "command" ∷ "operation_id" ∷ "required_capability" ∷ "target_node" ∷ "status"
    ∷ "admin_level" ∷ "authorization_metadata" ∷ "execution_uid" ∷ "execution_username"
    ∷ "execution_boundary" ∷ "result_payload" ∷ "error_payload" ∷ "created_at" ∷ "updated_at"
    ∷ "expires_at" ∷ []

-- `CREATE TABLE commands`
unfoldable pub create_table : Option (List String) → Option (List String)
create_table none = some first_columns
create_table (some columns) = none

-- `ALTER TABLE commands ADD COLUMN`
unfoldable pub add_column : String → Option (List String) → Option (List String)
add_column column none = none
add_column column (some columns) =
    if member column columns then none else some (columns ++ column ∷ [])

-- `ensureColumn`; `table_info` returns no rows where there is no table.
unfoldable pub ensure_column : String → Option (List String) → Option (List String)
ensure_column column none = add_column column none
ensure_column column (some columns) =
    if member column columns then some columns else add_column column (some columns)

-- `applyMigration`; `none` is an error.
unfoldable pub apply_migration : ℤ → Option (List String) → Option (List String)
apply_migration version columns =
    if version == pos 1
    then create_table columns
    else if version == pos 2
    then (elim (add_column "requesting_gid" columns) [
      | none ↦ none
      | some a ↦ elim (add_column "request_message_id" (some a)) [
        | none ↦ none
        | some b ↦ elim (add_column "service_uid" (some b)) [
          | none ↦ none
          | some c ↦ add_column "service_username" (some c)
        ]
      ]
    ])
    else if version == pos 3
    then (elim (ensure_column "service_uid" columns) [
      | none ↦ none
      | some a ↦ ensure_column "service_username" (some a)
    ])
    else none

-- What else happens to the migration to one version.
pub record Attempt : Type 0 where
  pub begin_fails : Bool
  pub apply_fails : Bool
  pub set_fails : Bool
  pub commit : Commit

-- How `migrate` ends, and the schema it leaves; or that the fuel of the model ran out.
pub data Migrated : Type 0 where
  out_of_fuel : Migrated
  failed_at : Schema → Migrated
  migrated : Schema → Migrated

unfoldable pub next_version : ℤ → ℤ
next_version (pos n) = pos (suc n)
next_version (negsuc zero) = pos zero
next_version (negsuc (suc n)) = negsuc n

-- The end of one round of the loop: the commit. An uncertain commit, which fails, may have been
-- carried out.
unfoldable pub commit_round : Commit → Schema → Schema → (Schema → Migrated) → Migrated
commit_round commit_ok old new continue = continue new
commit_round commit_failed old new continue = failed_at old
commit_round commit_uncertain old new continue = failed_at new

-- The loop of `migrate`.
unfoldable pub migrate_loop : ℕ → (ℤ → Attempt) → Schema → Migrated
migrate_loop zero attempts s = out_of_fuel
migrate_loop (suc fuel) attempts s =
    let target = next_version s.version in
    let t = attempts target in
    elim (int_leb schema_version s.version) [
      | true ↦ migrated s
      | false ↦ if t.begin_fails then failed_at s else elim (apply_migration target s.columns) [
        | none ↦ failed_at s
        | some columns ↦
            if t.apply_fails || t.set_fails
            then failed_at s
            else commit_round t.commit s (record { version = target; columns = some columns })
                (migrate_loop fuel attempts)
      ]
    ]

-- `migrate`; `version_fails` is an error of the query for the version.
unfoldable pub migrate : Bool → (ℤ → Attempt) → Schema → Migrated
migrate version_fails attempts s =
    if version_fails
    then failed_at s
    else if not (int_leb s.version schema_version)
    then failed_at s
    else migrate_loop 4 attempts s

-- What the statements of `configure` meet.
pub record Pragmas : Type 0 where
  pub busy_timeout_fails : Bool
  pub journal_mode : Option String
  pub synchronous_fails : Bool
  pub foreign_keys_fails : Bool
  pub temp_store_fails : Bool

unfoldable pub is_wal : Option String → Bool
is_wal none = false
is_wal (some mode) = mode == "wal"

-- `configure`; true where it returns no error.
unfoldable pub configure : Pragmas → Bool
configure p =
    if p.busy_timeout_fails
    then false
    else if not (is_wal p.journal_mode)
    then false
    else if p.synchronous_fails
    then false
    else if p.foreign_keys_fails
    then false
    else if p.temp_store_fails
    then false
    else true
