-- ===== src/Ledger/Lifecycle.antt =====
-- The life of one command record (internal/ledger/ledger.go): it keeps its claim, its status moves
-- along the allowed transitions, and a finished record does not change until it expires.
use cockpit_slurm.Base.{
  ℕ, String, ◌≡◌, refl, ◌<◌, ◌⊎◌, inl, inr, true, ◌&&◌, none, some, List, ◌∷◌, nat_eq, string_eq,
  arith, Bool-cases,
}
use cockpit_slurm.Ledger.Status.{Status, allowed_transition, same_status, same_status_iff}
use cockpit_slurm.Ledger.Table.{
  Claim, Record, TransitionData, select, delete_expired, pending_record, has_key, set_status,
  recover_rows, is_interrupted,
}
use cockpit_slurm.Ledger.Store.{Ledger, recover_interrupted, purge_expired, live_row}
use cockpit_slurm.Ledger.Keys.{
  Distinct, select-delete_expired, select-update_status, select-recover_rows,
  update_status-Distinct, delete_expired-Distinct, recover_rows-Distinct, has_key_iff, updated,
  recovered,
}
use cockpit_slurm.Ledger.Cases.{lookup_rows, transition_cases, reserve_cases, reconcile_cases}
use cockpit_slurm.Ledger.History.{
  open_ledger, Op, reserves, looks_up, moves, reconciles, restarts, time, step, StatusStep, allowed,
  recover,
}

open_ledger-Distinct :
    (now : ℕ) (l : Ledger) → Distinct l.commands → Distinct (open_ledger now l).commands
unfolding open_ledger recover_interrupted purge_expired
open_ledger-Distinct now l u =
    delete_expired-Distinct now _ (recover_rows-Distinct now l.commands u)

-- No operation gives two rows one key.
pub step-Distinct : (o : Op) (l : Ledger) → Distinct l.commands → Distinct (step o l).commands
unfolding step
step-Distinct (reserves call c) l u = elim (reserve_cases call c l) [
  | inl e ↦ rw e u
  | inr (inl e) ↦ rw e (delete_expired-Distinct call.now l.commands u)
  | inr (inr (e, free, _)) ↦
      rw e (unfold pending_record in (free, delete_expired-Distinct call.now l.commands u))
]
step-Distinct (looks_up call uid id) l u = rw (lookup_rows call uid id l) u
step-Distinct (moves call uid id expected next d) l u =
    elim (transition_cases call uid id expected next d l) [
      | inl e ↦ rw e u
      | inr (e, _, _) ↦ rw e (update_status-Distinct call.now uid id expected next d l.commands u)
    ]
step-Distinct (reconciles rec) l u = elim (reconcile_cases rec l) [
  | inl e ↦ rw e u
  | inr e ↦ rw e (recover_rows-Distinct rec.now l.commands u)
]
step-Distinct (restarts now) l u = open_ledger-Distinct now l u

-- What a step may make of a record: the same claim and expiry, and a status that stays or moves.
pub record Continues (r r' : Record) : Type 0 where
  pub same_claim : r'.claim ≡ r.claim
  pub same_expiry : r'.expires_at ≡ r.expires_at
  pub moved : (r' ≡ r) ⊎ (StatusStep r.status r'.status)

updated-Continues :
    (now uid : ℕ) (id : String) (expected next : Status) (d : TransitionData) (r : Record)
    → allowed_transition expected next ≡ true
    → Continues r (updated now uid id expected next d r)
unfolding set_status
updated-Continues now uid id expected next d r a =
    elim (Bool-cases (has_key uid id r && same_status r.status expected)) [
      | inr e ↦ rw e (record { same_claim = refl; same_expiry = refl; moved = inl refl })
      | inl e ↦ rw e (record {
        same_claim = refl;
        same_expiry = refl;
        moved = inr (allowed (ground (arith, same_status_iff r.status expected)));
      })
    ]

recovered-Continues : (now : ℕ) (r : Record) → Continues r (recovered now r)
recovered-Continues now r = elim (Bool-cases (is_interrupted r.status)) [
  | inr e ↦ rw e (record { same_claim = refl; same_expiry = refl; moved = inl refl })
  | inl e ↦ rw e (record { same_claim = refl; same_expiry = refl; moved = inr (recover e refl) })
]

-- The record behind a key after a step, where the record behind it before was `r`.
abbrev pub Continued : ℕ → String → Record → List Record → Type 0
Continued uid id r rows = (r' : Record) × (select uid id rows ≡ some r') × Continues r r'

same-Continues : (r : Record) → Continues r r
same-Continues r = record { same_claim = refl; same_expiry = refl; moved = inl refl }

module _ (uid : ℕ) (id : String) (r : Record) where
  live_kept :
      (now : ℕ) (rows : List Record)
      → Distinct rows
      → select uid id rows ≡ some r
      → now < r.expires_at
      → select uid id (delete_expired now rows) ≡ some r
  unfolding live_row
  live_kept now rows u e h = ground (arith, select-delete_expired now uid id rows u)

  reserve_kept :
      (now : ℕ) (c : Claim) (rows : List Record)
      → select uid id rows ≡ some r
      → select c.caller_uid c.command_id rows ≡ none
      → select uid id (pending_record now c ∷ rows) ≡ some r
  unfolding select pending_record has_key
  reserve_kept now c rows e free = ground (arith, has_key_iff uid id (pending_record now c))

  recover_kept :
      (now : ℕ) (rows : List Record)
      → select uid id rows ≡ some r
      → select uid id (recover_rows now rows) ≡ some (recovered now r)
  recover_kept now rows e = rw (select-recover_rows now uid id rows, e)

  pub restart_kept :
      (now : ℕ) (l : Ledger)
      → Distinct l.commands
      → select uid id l.commands ≡ some r
      → now < r.expires_at
      → select uid id (open_ledger now l).commands ≡ some (recovered now r)
  unfolding open_ledger recover_interrupted purge_expired live_row
  restart_kept now l u e h = ground (
    arith,
    select-delete_expired now uid id (recover_rows now l.commands)
        (recover_rows-Distinct now l.commands u),
    recover_kept now l.commands e,
  )

  -- One step continues every record that has not expired.
  pub step-Continued :
      (o : Op) (l : Ledger)
      → Distinct l.commands
      → select uid id l.commands ≡ some r
      → time o < r.expires_at
      → Continued uid id r (step o l).commands
  unfolding step
  step-Continued (reserves call c) l u e h =
      let kept = live_kept call.now l.commands u e h in
      elim (reserve_cases call c l) [
        | inl q ↦ rw q (r, e, same-Continues r)
        | inr (inl q) ↦ rw q (r, kept, same-Continues r)
        | inr (inr (q, free, _)) ↦ rw q (r, reserve_kept call.now c _ kept free, same-Continues r)
      ]
  step-Continued (looks_up call v j) l u e h = rw (lookup_rows call v j l) (r, e, same-Continues r)
  step-Continued (moves call v j expected next d) l u e h =
      elim (transition_cases call v j expected next d l) [
        | inl q ↦ rw q (r, e, same-Continues r)
        | inr (q, a, _) ↦ rw q (
          updated call.now v j expected next d r,
          rw (select-update_status call.now v j expected next d uid id l.commands, e) refl,
          updated-Continues call.now v j expected next d r a,
        )
      ]
  step-Continued (reconciles rec) l u e h = elim (reconcile_cases rec l) [
    | inl q ↦ rw q (r, e, same-Continues r)
    | inr q ↦
        rw q (recovered rec.now r, recover_kept rec.now l.commands e, recovered-Continues rec.now r)
  ]
  step-Continued (restarts now) l u e h =
      (recovered now r, restart_kept now l u e h, recovered-Continues now r)
