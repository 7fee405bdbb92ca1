-- ===== src/Ledger/Cases.antt =====
-- Case rules for the ledger's operations: which rows each one can leave behind.
use cockpit_slurm.Base.{
  ℕ, String, ◌≡◌, refl, ◌⊎◌, inl, inr, true, none, List, ◌∷◌, nat_eq, string_eq, arith,
}
use cockpit_slurm.Ledger.Status.{Status, allowed_transition}
use cockpit_slurm.Ledger.Table.{
  Claim, Record, TransitionData, select, delete_expired, insert_claim, update_status,
  pending_record, recover_rows,
}
use cockpit_slurm.Ledger.Store.{
  Ledger, Call, Commit, Error, err, Result, ok, commit_ok, commit_failed, commit_uncertain,
  commit_rows, finish_reserve, reserve_authorization, lookup, transition_conflict, transition,
  has_required_data, reconcile, finish_reconcile, Recovery, validate_claim, block_persistence,
  recover_interrupted,
}

pub commit_rows_cases {ℓ} :
    {A : Type ℓ} (c : Commit) (rows : List Record) (a : A) (l : Ledger)
    → ((commit_rows c rows a l).1.commands ≡ l.commands)
      ⊎ ((commit_rows c rows a l).1.commands ≡ rows)
unfolding commit_rows
commit_rows_cases commit_ok rows a l = inr refl
commit_rows_cases commit_failed rows a l = inl refl
commit_rows_cases commit_uncertain rows a l = inr refl

pub lookup_rows :
    (call : Call) (uid : ℕ) (id : String) (l : Ledger)
    → (lookup call uid id l).1.commands ≡ l.commands
unfolding lookup
lookup_rows call uid id l = ground arith

pub transition_conflict_rows :
    (call : Call) (uid : ℕ) (id : String) (l : Ledger)
    → (transition_conflict call uid id l).1.commands ≡ l.commands
unfolding transition_conflict lookup
transition_conflict_rows call uid id l = ground arith

pub transition_cases :
    (call : Call) (uid : ℕ) (id : String) (expected next : Status) (d : TransitionData) (l : Ledger)
    → ((transition call uid id expected next d l).1.commands ≡ l.commands)
      ⊎ (((transition call uid id expected next d l).1.commands
            ≡ (update_status call.now uid id expected next d l.commands).0)
          × (allowed_transition expected next ≡ true)
          × (has_required_data next d ≡ true))
unfolding transition block_persistence
transition_cases call uid id expected next d l = ground (
  arith,
  transition_conflict_rows call uid id l,
  commit_rows_cases {A = Unit {0}} call.commit
      (update_status call.now uid id expected next d l.commands).0 tt l,
)

-- After a reservation the table is as it was, or it has lost its expired rows, and beyond that at
-- most gained the pending row of a claim whose key was free.
pub reserve_cases :
    (call : Call) (c : Claim) (l : Ledger)
    → ((reserve_authorization call c l).1.commands ≡ l.commands)
      ⊎ ((reserve_authorization call c l).1.commands ≡ delete_expired call.now l.commands)
      ⊎ (((reserve_authorization call c l).1.commands
            ≡ pending_record call.now c ∷ delete_expired call.now l.commands)
          × (select c.caller_uid c.command_id (delete_expired call.now l.commands) ≡ none)
          × (validate_claim c ≡ true))
unfolding reserve_authorization finish_reserve insert_claim commit_rows
reserve_cases call c l = ground arith

pub reconcile_cases :
    (rec : Recovery) (l : Ledger)
    → ((reconcile rec l).1.commands ≡ l.commands)
      ⊎ ((reconcile rec l).1.commands ≡ recover_rows rec.now l.commands)
unfolding reconcile finish_reconcile recover_interrupted block_persistence
reconcile_cases rec l = ground arith

pub Result-cases {ℓ} :
    {A : Type ℓ} (r : Result A) → ((a : A) × (r ≡ ok a)) ⊎ ((e : Error) × (r ≡ err e))
Result-cases (ok a) = inl (a, refl)
Result-cases (err e) = inr (e, refl)
