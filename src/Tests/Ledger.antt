-- ===== src/Tests/Ledger.antt =====
-- The ledger's theorems on one table (internal/ledger/ledger.go).
use cockpit_slurm.Base.{is_missing}
use cockpit_slurm.Base.{◌≡◌, ◌≢◌, refl, true, some, List, [], ◌∷◌, arith}
use cockpit_slurm.Ledger.Status.{accepted, authorization_pending, allowed_transition}
use cockpit_slurm.Ledger.Table.{
  Record, select, delete_expired, set_status, has_key, update_status, insert_claim, is_interrupted,
}
use cockpit_slurm.Ledger.Store.{
  persistence_failed, commit_uncertain, commit_failed, validate_claim, reserve_authorization,
  transition, has_required_data, commit_rows, finish_reserve,
}
use cockpit_slurm.Ledger.History.{run, step, moves, reserves, Op}
use cockpit_slurm.Ledger.Finality.{run-Descends, run-finished, Descends}
use cockpit_slurm.Ledger.Audit.{IsAudited}
use cockpit_slurm.Ledger.AuditHistory.{run-IsAudited}
use cockpit_slurm.Ledger.Outcomes.{Moved, transition-ok, transition_error}
use cockpit_slurm.Tests.Data.{claim, call, grant, pending, finished, empty, holding, history}

run-Descends_example :
    (r : Record) × (select 1000 "c-1" (run history (holding pending)).commands ≡ some r)
    × Descends pending r
unfolding select has_key
run-Descends_example =
    run-Descends 1000 "c-1" pending history (holding pending) (refl, tt) refl
      (omega arith, (omega arith, (omega arith, (omega arith, (omega arith, (omega arith, tt))))))

run-finished_example : select 1000 "c-1" (run history (holding finished)).commands ≡ some finished
unfolding select has_key is_interrupted
run-finished_example =
    run-finished 1000 "c-1" finished history (holding finished) (refl, tt) refl refl
      (omega arith, (omega arith, (omega arith, (omega arith, (omega arith, (omega arith, tt))))))

-- The command is reserved and accepted.
abbrev admission : List Op
admission = reserves call claim ∷ moves call 1000 "c-1" authorization_pending accepted grant ∷ []

abbrev admitted : Record
admitted = record pending {
  status = accepted;
  admin_level = "admin";
  authorization_metadata = some "{}";
  created_at = 200;
  updated_at = 200;
  expires_at = 2592200;
}

run-IsAudited_example : IsAudited admitted
unfolding run step reserve_authorization is_missing select transition allowed_transition
    has_required_data validate_claim insert_claim delete_expired finish_reserve has_key commit_rows
    update_status set_status
run-IsAudited_example = run-IsAudited admission 1000 "c-1" empty admitted refl refl

transition-ok_example :
    (r : Record) × Moved call 1000 "c-1" authorization_pending accepted grant (holding pending) r
unfolding select has_key transition has_required_data allowed_transition is_missing update_status
    commit_rows
transition-ok_example =
    transition-ok call 1000 "c-1" authorization_pending accepted grant (holding pending) (refl, tt)
      refl

transition_error_example :
    ((commit_failed ≢ commit_uncertain)
      → (transition
          (record call { commit = commit_failed })
          1000
          "c-1"
          authorization_pending
          accepted
          grant
          (holding pending)).1.commands
        ≡ pending ∷ [])
    × ((persistence_failed ≡ persistence_failed)
        → (transition
            (record call { commit = commit_failed })
            1000
            "c-1"
            authorization_pending
            accepted
            grant
            (holding pending)).1.blocked
          ≡ true)
unfolding transition allowed_transition has_required_data is_missing update_status has_key
    commit_rows
transition_error_example =
    transition_error (record call { commit = commit_failed }) 1000 "c-1" authorization_pending
      accepted grant (holding pending) persistence_failed refl
