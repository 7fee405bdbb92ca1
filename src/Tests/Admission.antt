-- ===== src/Tests/Admission.antt =====
-- The ledger's reservations and reconciliation on one table (internal/ledger/ledger.go).
use cockpit_slurm.Base.{◌⊎◌}
use cockpit_slurm.Ledger.Store.{commit_uncertain}
use cockpit_slurm.Ledger.Store.{integrity_check}
use cockpit_slurm.Ledger.Store.{commit_rows}
use cockpit_slurm.Ledger.Table.{has_key}
use cockpit_slurm.Ledger.Store.{finish_reserve}
use cockpit_slurm.Ledger.Table.{insert_claim}
use cockpit_slurm.Base.{is_empty}
use cockpit_slurm.Base.{◌≡◌, refl, true, false}
use cockpit_slurm.Ledger.Table.{count_interrupted, select, delete_expired}
use cockpit_slurm.Ledger.Store.{
  ok, command_id_conflict, validate_claim, reserve_authorization, reconcile,
}
use cockpit_slurm.Ledger.Reservations.{Claimed, reserve_authorization-ok, reconcile_opens}
use cockpit_slurm.Ledger.Refusals.{RefusedBy, reserve_authorization_error}
use cockpit_slurm.Tests.Data.{
  claim, other_claim, call, pending, empty, holding, recovery, new_pending, interrupted,
}

reserve_authorization-ok_example : Claimed call claim empty new_pending true
unfolding reserve_authorization validate_claim is_empty insert_claim select delete_expired
    finish_reserve has_key commit_rows
reserve_authorization-ok_example = reserve_authorization-ok call claim empty new_pending true refl

reserve_authorization_error_example :
    RefusedBy call other_claim (holding pending) command_id_conflict (holding pending)
    × ((call.commit ≡ commit_uncertain) ⊎ ((holding pending).commands ≡ (holding pending).commands))
unfolding reserve_authorization validate_claim is_empty insert_claim select delete_expired
    finish_reserve has_key
reserve_authorization_error_example =
    reserve_authorization_error call other_claim (holding pending) command_id_conflict refl

reconcile_opens_example :
    ((reconcile recovery interrupted).0 ≡ ok tt)
    × ((reconcile recovery interrupted).1.blocked ≡ false)
    × (count_interrupted (reconcile recovery interrupted).1.commands ≡ 0)
unfolding integrity_check
reconcile_opens_example = reconcile_opens recovery interrupted refl (refl, refl, refl, refl, refl)
