-- ===== src/Ledger/Finality.antt =====
-- Whole histories of the ledger (internal/ledger/ledger.go), from any table with distinct keys.
use cockpit_slurm.Base.{
  ℕ, String, ◌≡◌, refl, sym, ◌∙◌, ◌<◌, inl, inr, Bool, true, some, List, [], ◌∷◌, arith, All, subst,
  ap, not,
}
use cockpit_slurm.Ledger.Status.{Status, allowed_transition}
use cockpit_slurm.Ledger.Table.{Record, select, is_interrupted}
use cockpit_slurm.Ledger.Store.{Ledger}
use cockpit_slurm.Ledger.Keys.{Distinct}
use cockpit_slurm.Ledger.History.{
  Op, time, step, run, StatusStep, StatusPath, allowed, recover, stay, move,
}
use cockpit_slurm.Ledger.Lifecycle.{step-Distinct, step-Continued, Continues}

-- Every call of the history happens before the time.
abbrev pub Before : ℕ → List Op → Type 0
Before t os = All (λ o. time o < t) os

-- No history gives two rows one key.
pub run-Distinct : (os : List Op) (l : Ledger) → Distinct l.commands → Distinct (run os l).commands
unfolding run
run-Distinct [] l u = u
run-Distinct (o ∷ os) l u = run-Distinct os (step o l) (step-Distinct o l u)

trans-StatusPath : {s t u : Status} → StatusPath s t → StatusPath t u → StatusPath s u
trans-StatusPath p stay = p
trans-StatusPath p (move q st) = move (trans-StatusPath p q) st

-- The record that a history makes of a record.
pub record Descends (r r' : Record) : Type 0 where
  pub same_claim : r'.claim ≡ r.claim
  pub same_expiry : r'.expires_at ≡ r.expires_at
  pub path : StatusPath r.status r'.status

Continues-Descends : (r r' : Record) → Continues r r' → Descends r r'
Continues-Descends r r' c = record {
  same_claim = c.same_claim;
  same_expiry = c.same_expiry;
  path = elim c.moved [
    | inl e ↦ subst (λ x. StatusPath r.status x.status) (sym e) stay
    | inr st ↦ move stay st
  ];
}

trans-Descends : (r s t : Record) → Descends r s → Descends s t → Descends r t
trans-Descends r s t a b = record {
  same_claim = b.same_claim ∙ a.same_claim;
  same_expiry = b.same_expiry ∙ a.same_expiry;
  path = trans-StatusPath a.path b.path;
}

-- Until its expiry time a record survives every history of reservations, lookups, transitions,
-- reconciliations and restarts, with its claim and expiry, and its status follows allowed moves.
pub run-Descends :
    (uid : ℕ) (id : String) (r : Record) (os : List Op) (l : Ledger)
    → Distinct l.commands
    → select uid id l.commands ≡ some r
    → Before r.expires_at os
    → (r' : Record) × (select uid id (run os l).commands ≡ some r') × Descends r r'
unfolding run
run-Descends uid id r [] l u e b =
    (r, e, record { same_claim = refl; same_expiry = refl; path = stay })
run-Descends uid id r (o ∷ os) l u e b =
    let (s, f, c) = step-Continued uid id r o l u e b.0 in
    let (t, g, d) =
      run-Descends uid id s os (step o l) (step-Distinct o l u) f
        (subst (λ (n : ℕ). Before n os) (sym c.same_expiry) b.1) in
    (t, g, trans-Descends r s t (Continues-Descends r s c) d)

-- The statuses that no statement of the ledger changes.
abbrev pub is_finished : Status → Bool
is_finished s = not (is_interrupted s)

no-StatusStep : (s t : Status) → is_finished s ≡ true → ¬ StatusStep s t
unfolding allowed_transition is_interrupted
no-StatusStep s t f (allowed a) = ground arith
no-StatusStep s t f (recover i e) = ground arith

step-finished : (r r' : Record) → is_finished r.status ≡ true → Continues r r' → r' ≡ r
step-finished r r' f c = elim c.moved [
  | inl e ↦ e
  | inr st ↦ absurd (no-StatusStep r.status r'.status f st)
]

-- A record with an outcome is final: no history changes any of its columns before it expires.
pub run-finished :
    (uid : ℕ) (id : String) (r : Record) (os : List Op) (l : Ledger)
    → Distinct l.commands
    → select uid id l.commands ≡ some r
    → is_finished r.status ≡ true
    → Before r.expires_at os
    → select uid id (run os l).commands ≡ some r
unfolding run
run-finished uid id r [] l u e f b = e
run-finished uid id r (o ∷ os) l u e f b =
    let (s, g, c) = step-Continued uid id r o l u e b.0 in
    run-finished uid id r os (step o l) (step-Distinct o l u) (g ∙ ap some (step-finished r s f c))
      f b.1
