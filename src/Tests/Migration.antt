-- ===== src/Tests/Migration.antt =====
-- The migration of a new database (internal/ledger/ledger_test.go).
use cockpit_slurm.Base.{refl, false, none}
use cockpit_slurm.Base.Int.{ℤ, pos}
use cockpit_slurm.Ledger.Store.{commit_ok}
use cockpit_slurm.Ledger.Schema.{Attempt, migrate}
use cockpit_slurm.Ledger.Migration.{Ended, migrate-Ended}

abbrev quiet : ℤ → Attempt
quiet v = record { begin_fails = false; apply_fails = false; set_fails = false; commit = commit_ok }

migrate-Ended_example :
    Ended quiet (migrate false quiet (record { version = pos 0; columns = none }))
migrate-Ended_example = migrate-Ended quiet 0 none refl
