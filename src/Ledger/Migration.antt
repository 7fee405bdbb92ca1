-- ===== src/Ledger/Migration.antt =====
-- Where a migration of the command ledger ends (internal/ledger/ledger.go, `migrate`).
use cockpit_slurm.Ledger.Columns.{KnownColumns}
use cockpit_slurm.Ledger.Columns.{Known}
use cockpit_slurm.Base.{
  ℕ, zero, suc, String, ◌≡◌, refl, sym, subst, inl, inr, Bool, true, false, ◌||◌, Option, none,
  some, List, if◌then◌else◌, string_eq, arith, Bool-cases,
}
use cockpit_slurm.Base.Int.{ℤ, pos, int_eq, int_leb}
use cockpit_slurm.Ledger.Store.{Commit, commit_ok, commit_failed, commit_uncertain}
use cockpit_slurm.Ledger.Schema.{
  schema_version, Schema, first_columns, create_table, apply_migration, Attempt, Migrated,
  out_of_fuel, failed_at, migrated, next_version, commit_round, migrate_loop, migrate,
}
use cockpit_slurm.Ledger.Columns.{second_table, apply_third, apply_second}

-- Nothing but the statements of the migrations can fail.
abbrev pub Quiet : (ℤ → Attempt) → Type 0
Quiet attempts =
    (v : ℤ)
    → ((attempts v).begin_fails ≡ false)
      × ((attempts v).apply_fails ≡ false)
      × ((attempts v).set_fails ≡ false)
      × ((attempts v).commit ≡ commit_ok)

-- A migration ends at a known schema, which is the last one where it succeeds, as it does where
-- nothing but its statements can fail.
abbrev pub Ended : (ℤ → Attempt) → Migrated → Type 0
Ended attempts out_of_fuel = ⊥
Ended attempts (failed_at s) = Known s × (Quiet attempts → ⊥)
Ended attempts (migrated s) = Known s × (s.version ≡ schema_version)

commit_round-Ended :
    (attempts : ℤ → Attempt) (c : Commit) (old new : Schema) (continue : Schema → Migrated)
    → Known old
    → Known new
    → Ended attempts (continue new)
    → (Quiet attempts → c ≡ commit_ok)
    → Ended attempts (commit_round c old new continue)
unfolding commit_round
commit_round-Ended attempts commit_ok old new continue k l e q = e
commit_round-Ended attempts commit_failed old new continue k l e q = (k, (λ h. absurd (c_ne (q h))))
  where
    c_ne : commit_failed ≡ commit_ok → ⊥
    c_ne h = cc
commit_round-Ended attempts commit_uncertain old new continue k l e q =
    (l, (λ h. absurd (c_ne (q h))))
  where
    c_ne : commit_uncertain ≡ commit_ok → ⊥
    c_ne h = cc

if-Ended :
    (attempts : ℤ → Attempt) (b : Bool) (s : Schema) (m : Migrated)
    → Known s
    → (Quiet attempts → b ≡ false)
    → Ended attempts m
    → Ended attempts (if b then failed_at s else m)
if-Ended attempts true s m k q e = (k, (λ h. absurd (ground (arith, q h))))
if-Ended attempts false s m k q e = e

round-Ended :
    (attempts : ℤ → Attempt) (target : ℤ) (s new : Schema) (continue : Schema → Migrated)
    → Known s
    → Known new
    → Ended attempts (continue new)
    → Ended attempts (
        if (attempts target).begin_fails
        then failed_at s
        else if (attempts target).apply_fails || (attempts target).set_fails
        then failed_at s
        else commit_round (attempts target).commit s new continue)
round-Ended attempts target s new continue k l e =
    if-Ended attempts (attempts target).begin_fails s _ k (λ q. (q target).0)
      (if-Ended attempts ((attempts target).apply_fails || (attempts target).set_fails) s _ k
        (λ q. ground (arith, (q target).1, (q target).2))
        (commit_round-Ended attempts (attempts target).commit s new continue k l e
          (λ q. (q target).3)))

abbrev schema : ℕ → Option (List String) → Schema
schema n columns = record { version = pos n; columns = columns }

known : (n : ℕ) (columns : Option (List String)) → KnownColumns n columns → Known (schema n columns)
known n columns k = record { number = n; version = refl; columns = k }

last-Ended :
    (fuel : ℕ) (attempts : ℤ → Attempt) (columns : Option (List String))
    → KnownColumns 3 columns
    → Ended attempts (migrate_loop (suc fuel) attempts (schema 3 columns))
unfolding migrate_loop
last-Ended fuel attempts columns k = (known 3 columns k, refl)

third-Ended :
    (fuel : ℕ) (attempts : ℤ → Attempt) (columns : Option (List String))
    → KnownColumns 2 columns
    → Ended attempts (migrate_loop (suc (suc fuel)) attempts (schema 2 columns))
unfolding migrate_loop next_version
third-Ended fuel attempts columns (cs, e, h, d) =
    let (ds, a, h', d') = apply_third cs h d in
    let k : KnownColumns 3 (some ds) = (refl, (ds, refl, h', d')) in
    subst (λ c. Ended attempts (migrate_loop (suc (suc fuel)) attempts (schema 2 c))) (sym e)
      (rw (migrate_loop, a)
        (round-Ended attempts (pos 3) (schema 2 (some cs)) (schema 3 (some ds))
          (migrate_loop (suc fuel) attempts) (known 2 (some cs) (cs, refl, h, d))
          (known 3 (some ds) k) (last-Ended fuel attempts (some ds) k)))

second-Ended :
    (fuel : ℕ) (attempts : ℤ → Attempt)
    → Ended attempts (migrate_loop (suc (suc (suc fuel))) attempts (schema 1 (some first_columns)))
unfolding migrate_loop next_version
second-Ended fuel attempts =
    let (a, h, d) = apply_second in
    let k : KnownColumns 2 (some second_table) = (second_table, refl, h, d) in
    rw (migrate_loop, a)
      (round-Ended attempts (pos 2) (schema 1 (some first_columns)) (schema 2 (some second_table))
        (migrate_loop (suc (suc fuel)) attempts) (known 1 (some first_columns) refl)
        (known 2 (some second_table) k) (third-Ended fuel attempts (some second_table) k))

first-Ended :
    (fuel : ℕ) (attempts : ℤ → Attempt)
    → Ended attempts (migrate_loop (suc (suc (suc (suc fuel)))) attempts (schema 0 none))
unfolding migrate_loop next_version apply_migration create_table
first-Ended fuel attempts =
    round-Ended attempts (pos 1) (schema 0 none) (schema 1 (some first_columns))
      (migrate_loop (suc (suc (suc fuel))) attempts) (known 0 none refl)
      (known 1 (some first_columns) refl) (second-Ended fuel attempts)

migrate_loop-Ended :
    (n : ℕ) (attempts : ℤ → Attempt) (columns : Option (List String))
    → KnownColumns n columns
    → Ended attempts (migrate_loop 4 attempts (schema n columns))
migrate_loop-Ended zero attempts columns k =
    subst (λ c. Ended attempts (migrate_loop 4 attempts (schema 0 c))) (sym k)
      (first-Ended 0 attempts)
migrate_loop-Ended (suc zero) attempts columns k =
    subst (λ c. Ended attempts (migrate_loop 4 attempts (schema 1 c))) (sym k)
      (second-Ended 1 attempts)
migrate_loop-Ended (suc (suc zero)) attempts columns k = third-Ended 2 attempts columns k
migrate_loop-Ended (suc (suc (suc zero))) attempts columns k = last-Ended 3 attempts columns k
migrate_loop-Ended (suc (suc (suc (suc n)))) attempts columns (e, k) = absurd (omega (arith, e))

unknown_above :
    (n : ℕ) (columns : Option (List String))
    → KnownColumns n columns
    → int_leb (pos n) schema_version ≡ false
    → ⊥
unknown_above zero columns k h = ground arith
unknown_above (suc zero) columns k h = ground arith
unknown_above (suc (suc zero)) columns k h = ground arith
unknown_above (suc (suc (suc n))) columns k h = ground (arith, k.0)

-- A migration that starts from a schema which some version of the program leaves, and whose query
-- for the version succeeds, ends: at such a schema again, whatever fails on the way; where it
-- succeeds, at version 3 with every column that the ledger uses, once each; and it succeeds if
-- nothing but its own statements could fail, so that those do not.
pub migrate-Ended :
    (attempts : ℤ → Attempt) (n : ℕ) (columns : Option (List String))
    → KnownColumns n columns
    → Ended attempts (migrate false attempts (record { version = pos n; columns = columns }))
unfolding migrate
migrate-Ended attempts n columns k = elim (Bool-cases (int_leb (pos n) schema_version)) [
  | inl e ↦ rw e (migrate_loop-Ended n attempts columns k)
  | inr e ↦ absurd (unknown_above n columns k e)
]
