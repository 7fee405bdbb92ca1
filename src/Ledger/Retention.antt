-- ===== src/Ledger/Retention.antt =====
-- How long the rows of the ledger stay (internal/ledger/ledger.go, `Retention`).
use cockpit_slurm.Base.{ℕ, ◌+◌, ◌≤◌, String, ◌≡◌, inl, inr, some, List, [], ◌∷◌, arith, All}
use cockpit_slurm.Ledger.Status.{Status}
use cockpit_slurm.Ledger.Table.{
  Record, TransitionData, retention, select, delete_expired, update_status, recover_rows,
  pending_record, set_status,
}
use cockpit_slurm.Ledger.Store.{Ledger, recover_interrupted, purge_expired}
use cockpit_slurm.Ledger.Cases.{lookup_rows, transition_cases, reserve_cases, reconcile_cases}
use cockpit_slurm.Ledger.History.{
  open_ledger, Op, reserves, looks_up, moves, reconciles, restarts, time, step,
}

-- No row expires before the time.
abbrev pub Outlasts : ℕ → List Record → Type 0
Outlasts end rows = All (λ r. end ≤ r.expires_at) rows

module _ (end : ℕ) where
  delete_expired-Outlasts :
      (now : ℕ) (rows : List Record) → Outlasts end rows → Outlasts end (delete_expired now rows)
  unfolding delete_expired
  delete_expired-Outlasts now [] h = tt
  delete_expired-Outlasts now (r ∷ rows) h = ground (arith, delete_expired-Outlasts now rows h.1)

  update_status-Outlasts :
      (now uid : ℕ) (id : String) (expected to : Status) (d : TransitionData) (rows : List Record)
      → Outlasts end rows
      → Outlasts end (update_status now uid id expected to d rows).0
  unfolding update_status set_status
  update_status-Outlasts now uid id expected to d [] h = tt
  update_status-Outlasts now uid id expected to d (r ∷ rows) h =
      ground (arith, update_status-Outlasts now uid id expected to d rows h.1)

  recover_rows-Outlasts :
      (now : ℕ) (rows : List Record) → Outlasts end rows → Outlasts end (recover_rows now rows)
  unfolding recover_rows
  recover_rows-Outlasts now [] h = tt
  recover_rows-Outlasts now (r ∷ rows) h = ground (arith, recover_rows-Outlasts now rows h.1)

  -- No operation brings a row that expires before the time, as long as the clock is at most the
  -- retention before it.
  pub step-Outlasts :
      (o : Op) (l : Ledger)
      → end ≤ time o + retention
      → Outlasts end l.commands
      → Outlasts end (step o l).commands
  unfolding step open_ledger recover_interrupted purge_expired
  step-Outlasts (reserves call c) l k h = elim (reserve_cases call c l) [
    | inl e ↦ rw e h
    | inr (inl e) ↦ rw e (delete_expired-Outlasts call.now l.commands h)
    | inr (inr (e, _, _)) ↦
        rw e (unfold pending_record in (k, delete_expired-Outlasts call.now l.commands h))
  ]
  step-Outlasts (looks_up call uid id) l k h = rw (lookup_rows call uid id l) h
  step-Outlasts (moves call uid id expected to d) l k h =
      elim (transition_cases call uid id expected to d l) [
        | inl e ↦ rw e h
        | inr (e, _, _) ↦ rw e (update_status-Outlasts call.now uid id expected to d l.commands h)
      ]
  step-Outlasts (reconciles rec) l k h = elim (reconcile_cases rec l) [
    | inl e ↦ rw e h
    | inr e ↦ rw e (recover_rows-Outlasts rec.now l.commands h)
  ]
  step-Outlasts (restarts now) l k h =
      delete_expired-Outlasts now _ (recover_rows-Outlasts now l.commands h)

pub select-Outlasts :
    (end uid : ℕ) (id : String) (rows : List Record) (r : Record)
    → Outlasts end rows
    → select uid id rows ≡ some r
    → end ≤ r.expires_at
unfolding select
select-Outlasts end uid id [] r h e = ground arith
select-Outlasts end uid id (q ∷ rows) r h e = ground (arith, select-Outlasts end uid id rows r h.1)
