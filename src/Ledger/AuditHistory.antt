-- ===== src/Ledger/AuditHistory.antt =====
-- The audit columns over whole histories of the ledger (internal/ledger/ledger.go).
use cockpit_slurm.Base.{ℕ, String, ◌≡◌, inl, inr, true, some, List, [], ◌∷◌, arith, All}
use cockpit_slurm.Ledger.Status.{Status, allowed_transition}
use cockpit_slurm.Ledger.Table.{
  Record, TransitionData, select, delete_expired, update_status, recover_rows,
}
use cockpit_slurm.Ledger.Store.{Ledger, has_required_data, recover_interrupted, purge_expired}
use cockpit_slurm.Ledger.Cases.{lookup_rows, transition_cases, reserve_cases, reconcile_cases}
use cockpit_slurm.Ledger.History.{
  open_ledger, Op, reserves, looks_up, moves, reconciles, restarts, step, run,
}
use cockpit_slurm.Ledger.Audit.{
  IsAudited, updated-IsAudited, recovered-IsAudited, pending_record-IsAudited,
}

abbrev AllAudited : List Record → Type 0
AllAudited = All IsAudited

delete_expired-AllAudited :
    (now : ℕ) (rows : List Record) → AllAudited rows → AllAudited (delete_expired now rows)
unfolding delete_expired
delete_expired-AllAudited now [] h = tt
delete_expired-AllAudited now (r ∷ rows) h = ground (arith, delete_expired-AllAudited now rows h.1)

update_status-AllAudited :
    (now uid : ℕ) (id : String) (expected next : Status) (d : TransitionData) (rows : List Record)
    → allowed_transition expected next ≡ true
    → has_required_data next d ≡ true
    → AllAudited rows
    → AllAudited (update_status now uid id expected next d rows).0
unfolding update_status
update_status-AllAudited now uid id expected next d [] a q h = tt
update_status-AllAudited now uid id expected next d (r ∷ rows) a q h = ground (
  arith,
  updated-IsAudited now uid id expected next d r a q h.0,
  update_status-AllAudited now uid id expected next d rows a q h.1,
)

recover_rows-AllAudited :
    (now : ℕ) (rows : List Record) → AllAudited rows → AllAudited (recover_rows now rows)
unfolding recover_rows
recover_rows-AllAudited now [] h = tt
recover_rows-AllAudited now (r ∷ rows) h =
    (recovered-IsAudited now r h.0, recover_rows-AllAudited now rows h.1)

step-AllAudited : (o : Op) (l : Ledger) → AllAudited l.commands → AllAudited (step o l).commands
unfolding step open_ledger recover_interrupted purge_expired
step-AllAudited (reserves call c) l h = elim (reserve_cases call c l) [
  | inl e ↦ rw e h
  | inr (inl e) ↦ rw e (delete_expired-AllAudited call.now l.commands h)
  | inr (inr (e, _, _)) ↦
      rw e (pending_record-IsAudited call.now c, delete_expired-AllAudited call.now l.commands h)
]
step-AllAudited (looks_up call uid id) l h = rw (lookup_rows call uid id l) h
step-AllAudited (moves call uid id expected next d) l h =
    elim (transition_cases call uid id expected next d l) [
      | inl e ↦ rw e h
      | inr (e, a, q) ↦
          rw e (update_status-AllAudited call.now uid id expected next d l.commands a q h)
    ]
step-AllAudited (reconciles rec) l h = elim (reconcile_cases rec l) [
  | inl e ↦ rw e h
  | inr e ↦ rw e (recover_rows-AllAudited rec.now l.commands h)
]
step-AllAudited (restarts now) l h =
    delete_expired-AllAudited now _ (recover_rows-AllAudited now l.commands h)

run-AllAudited :
    (os : List Op) (l : Ledger) → AllAudited l.commands → AllAudited (run os l).commands
unfolding run
run-AllAudited [] l h = h
run-AllAudited (o ∷ os) l h = run-AllAudited os (step o l) (step-AllAudited o l h)

select-IsAudited :
    (uid : ℕ) (id : String) (rows : List Record) (r : Record)
    → AllAudited rows
    → select uid id rows ≡ some r
    → IsAudited r
unfolding select
select-IsAudited uid id [] r h e = cc
select-IsAudited uid id (x ∷ rows) r h e = ground (arith, select-IsAudited uid id rows r h.1)

-- From an empty table, over any history, every record is audited: an accepted command that waits for
-- its execution names the admin level "admin" and its authorization metadata, one that was handed to
-- the executor names its execution user and boundary, whatever became of it, and one whose
-- authorization was refused or failed has an error payload.
pub run-IsAudited :
    (os : List Op) (uid : ℕ) (id : String) (l : Ledger) (r : Record)
    → l.commands ≡ []
    → select uid id (run os l).commands ≡ some r
    → IsAudited r
run-IsAudited os uid id l r e found =
    select-IsAudited uid id (run os l).commands r (run-AllAudited os l (rw e tt)) found
