-- ===== src/Ledger/Outcomes.antt =====
-- What the ledger's operations return (internal/ledger/ledger.go): what success guarantees, what
-- each failure leaves behind, and the admission gate.
use mathlib.Core.Option
use cockpit_slurm.Base.{
  ℕ, String, ◌≡◌, ◌≢◌, refl, ◌⊎◌, inl, inr, true, false, some, nat_eq, string_eq, arith,
  Option-cases,
}
use cockpit_slurm.Ledger.Status.{Status, allowed_transition, same_status_iff}
use cockpit_slurm.Ledger.Table.{
  Claim, Record, TransitionData, has_key, select, update_status, set_status, satisfies_checks,
}
use cockpit_slurm.Ledger.Store.{
  Ledger, Call, commit_uncertain, ok, err, Error, persistence_failed, admission_blocked,
  commit_rows, block_persistence, validate_claim, has_required_data, reserve_authorization, lookup,
  transition, transition_conflict,
}
use cockpit_slurm.Ledger.Keys.{
  Distinct, updated, has_key_iff, select-has_key, select-update_status, count_absent, count_present,
}
use cockpit_slurm.Ledger.Cases.{transition_cases}

-- A claim that passes `validateClaim` meets every CHECK constraint of the table.
pub validate_claim-satisfies_checks :
    (c : Claim) → validate_claim c ≡ true → satisfies_checks c ≡ true
unfolding validate_claim satisfies_checks
validate_claim-satisfies_checks c h = ground arith

transition_conflict-ne-ok :
    (call : Call) (uid : ℕ) (id : String) (l : Ledger)
    → (transition_conflict call uid id l).0 ≢ ok tt
unfolding transition_conflict lookup block_persistence
transition_conflict-ne-ok call uid id l = ground arith

module _ (call : Call) (uid : ℕ) (id : String) (expected next : Status) (d : TransitionData)
    (l : Ledger) where
  -- What a transition that reports success has checked and done.
  pub record Moved (r : Record) : Type 0 where
    pub admitted : l.blocked ≡ false
    pub is_allowed : allowed_transition expected next ≡ true
    pub has_data : has_required_data next d ≡ true
    pub found : select uid id l.commands ≡ some r
    pub was : r.status ≡ expected
    pub now_holds :
        select uid id (transition call uid id expected next d l).1.commands
        ≡ some (set_status call.now next d r)
    pub still_open : (transition call uid id expected next d l).1.blocked ≡ false

  ok_facts :
      (transition call uid id expected next d l).0 ≡ ok tt
      → (l.blocked ≡ false)
        × (allowed_transition expected next ≡ true)
        × (has_required_data next d ≡ true)
        × ((update_status call.now uid id expected next d l.commands).1 ≡ 1)
        × ((transition call uid id expected next d l).1
            ≡ record l { commands = (update_status call.now uid id expected next d l.commands).0 })
  unfolding transition commit_rows block_persistence
  ok_facts h = ground (arith, transition_conflict-ne-ok call uid id l)

  updated_match :
      (r : Record)
      → select uid id l.commands ≡ some r
      → r.status ≡ expected
      → updated call.now uid id expected next d r ≡ set_status call.now next d r
  updated_match r f w =
      rw (select-has_key uid id l.commands r f, (same_status_iff r.status expected).1 w)

  -- A transition reports success only if the gate was open, the move is allowed with its data, and
  -- the key's record had the expected status; the record then has the new status and data.
  pub transition-ok :
      Distinct l.commands
      → (transition call uid id expected next d l).0 ≡ ok tt
      → (r : Record) × Moved r
  transition-ok u h = elim (Option-cases (select uid id l.commands)) [
    | inl e ↦
        absurd
          (omega (arith, count_absent call.now uid id expected next d l.commands e, (ok_facts h).3))
    | inr (r, e) ↦
        let w : r.status ≡ expected = ground (
          arith,
          ok_facts h,
          count_present call.now uid id expected next d l.commands r u e,
          same_status_iff r.status expected,
        ) in
        (
          r,
          record {
            admitted = (ok_facts h).0;
            is_allowed = (ok_facts h).1;
            has_data = (ok_facts h).2;
            found = e;
            was = w;
            now_holds =
                rw
                  (
                    (ok_facts h).4,
                    select-update_status call.now uid id expected next d uid id l.commands,
                    e,
                  )
                  (rw (updated_match r e w) refl);
            still_open = rw (ok_facts h).4 (ok_facts h).0;
          },
        )
  ]

  foreign :
      (v : ℕ) (j : String) (r : Record)
      → (v ≢ uid) ⊎ (j ≢ id)
      → has_key v j r ≡ true
      → has_key uid id r ≡ false
  foreign v j r ne h = ground (arith, has_key_iff v j r, has_key_iff uid id r)

  updated_other :
      (v : ℕ) (j : String)
      → (v ≢ uid) ⊎ (j ≢ id)
      → Option.map (updated call.now uid id expected next d) (select v j l.commands)
        ≡ select v j l.commands
  updated_other v j ne = elim (Option-cases (select v j l.commands)) [
    | inl e ↦ rw e refl
    | inr (r, e) ↦ rw e (rw (foreign v j r ne (select-has_key v j l.commands r e)) refl)
  ]

  -- A transition leaves the record of every other key as it was, whatever it reports.
  pub transition_other :
      (v : ℕ) (j : String)
      → (v ≢ uid) ⊎ (j ≢ id)
      → select v j (transition call uid id expected next d l).1.commands ≡ select v j l.commands
  transition_other v j ne = elim (transition_cases call uid id expected next d l) [
    | inl e ↦ rw e refl
    | inr (e, _, _) ↦
        rw (e, select-update_status call.now uid id expected next d v j l.commands)
          (updated_other v j ne)
  ]

  -- A transition that reports an error has changed no row, unless the commit is uncertain; where it
  -- reports a persistence failure the gate is closed.
  pub transition_error :
      (e : Error)
      → (transition call uid id expected next d l).0 ≡ err e
      → ((call.commit ≢ commit_uncertain)
          → (transition call uid id expected next d l).1.commands ≡ l.commands)
        × (e ≡ persistence_failed → (transition call uid id expected next d l).1.blocked ≡ true)
  unfolding transition commit_rows block_persistence transition_conflict lookup
  transition_error e h = ground arith

-- While the gate is closed a reservation and a transition change nothing and report an error.
pub blocked_refuses :
    (call : Call) (c : Claim) (uid : ℕ) (id : String) (expected next : Status) (d : TransitionData)
    (l : Ledger)
    → l.blocked ≡ true
    → ((reserve_authorization call c l).1 ≡ l)
      × ((transition call uid id expected next d l).1 ≡ l)
      × (validate_claim c ≡ true → (reserve_authorization call c l).0 ≡ err admission_blocked)
      × ((transition call uid id expected next d l).0 ≢ ok tt)
unfolding reserve_authorization transition
blocked_refuses call c uid id expected next d l b =
    (ground arith, ground arith, ground arith, ground arith)
