-- ===== src/Ledger/Reservations.antt =====
-- `ReserveAuthorization` and `Reconcile` (internal/ledger/ledger.go): the result of a claim
-- against the record that its key already has, and how the gate opens again.
use cockpit_slurm.Base.{
  ℕ, ◌≡◌, refl, sym, ◌∙◌, ◌⊎◌, inl, inr, Bool, true, false, Option, none, some, List, [], ◌∷◌, ◌==◌,
  nat_eq, string_eq, arith, string_iff, Option-cases,
}
use cockpit_slurm.Ledger.Table.{
  Claim, Record, select, delete_expired, insert_claim, pending_record, recover_rows,
  recovered_status, is_interrupted, count_interrupted,
}
use cockpit_slurm.Ledger.Store.{
  Ledger, Call, Recovery, ok, commit_rows, block_persistence, validate_claim, reserve_authorization,
  finish_reserve, reconcile, finish_reconcile, integrity_check, recover_interrupted,
}
use cockpit_slurm.Ledger.Keys.{has_key_self}
use cockpit_slurm.Ledger.Outcomes.{validate_claim-satisfies_checks}

module _ (call : Call) (c : Claim) (l : Ledger) where
  pub select-pending :
      (rows : List Record)
      → select c.caller_uid c.command_id (pending_record call.now c ∷ rows)
        ≡ some (pending_record call.now c)
  unfolding select pending_record
  select-pending rows = ground (arith, has_key_self (pending_record call.now c))

  -- What a reservation that reports success returns: the live record that the key had, which is of
  -- the same request, or a new pending one.
  abbrev pub Reserved : Option Record → Record → Bool → Type 0
  Reserved none r created = (created ≡ true) × (r ≡ pending_record call.now c)
  Reserved (some old) r created =
      (created ≡ false) × (r ≡ old) × (old.request_fingerprint ≡ c.request_fingerprint)

  finish_reserve-ok :
      (rows : List Record) (n : ℕ) (r : Record) (created : Bool)
      → (finish_reserve call c (rows, n) l).0 ≡ ok (r, created)
      → (select c.caller_uid c.command_id rows ≡ some r)
        × (r.request_fingerprint ≡ c.request_fingerprint)
        × (created ≡ (n == 1))
        × ((finish_reserve call c (rows, n) l).1.commands ≡ rows)
        × ((finish_reserve call c (rows, n) l).1.blocked ≡ l.blocked)
  unfolding finish_reserve commit_rows block_persistence
  finish_reserve-ok rows n r created h =
      elim (Option-cases (select c.caller_uid c.command_id rows)) [
        | inl e ↦ ground arith
        | inr (old, e) ↦ ground (arith, e, string_iff old.request_fingerprint c.request_fingerprint)
      ]

  pub insert_free :
      (rows : List Record)
      → validate_claim c ≡ true
      → select c.caller_uid c.command_id rows ≡ none
      → insert_claim call.now c rows ≡ some (pending_record call.now c ∷ rows, 1)
  unfolding insert_claim
  insert_free rows v e = rw (validate_claim-satisfies_checks c v, e) refl

  pub insert_taken :
      (rows : List Record) (old : Record)
      → validate_claim c ≡ true
      → select c.caller_uid c.command_id rows ≡ some old
      → insert_claim call.now c rows ≡ some (rows, 0)
  unfolding insert_claim
  insert_taken rows old v e = rw (validate_claim-satisfies_checks c v, e) refl

  reserve_passed :
      (r : Record) (created : Bool)
      → (reserve_authorization call c l).0 ≡ ok (r, created)
      → (validate_claim c ≡ true)
        × (l.blocked ≡ false)
        × (done : List Record × ℕ) × (insert_claim call.now c (delete_expired call.now l.commands)
            ≡ some done)
        × (reserve_authorization call c l ≡ finish_reserve call c done l)
  unfolding reserve_authorization block_persistence
  reserve_passed r created h =
      elim (Option-cases (insert_claim call.now c (delete_expired call.now l.commands))) [
        | inl e ↦ absurd (ground (arith, e))
        | inr (done, e) ↦ (ground (arith, e), ground (arith, e), done, e, ground (arith, e))
      ]

  -- The facts of a reservation that reports success.
  pub record Claimed (r : Record) (created : Bool) : Type 0 where
    pub admitted : l.blocked ≡ false
    pub reserved :
        Reserved (select c.caller_uid c.command_id (delete_expired call.now l.commands)) r created
    pub now_holds :
        select c.caller_uid c.command_id (reserve_authorization call c l).1.commands ≡ some r
    pub same_request : r.request_fingerprint ≡ c.request_fingerprint
    pub still_open : (reserve_authorization call c l).1.blocked ≡ false

  finish_reserve-Claimed :
      (rows : List Record) (n : ℕ) (r : Record) (created : Bool)
      → l.blocked ≡ false
      → reserve_authorization call c l ≡ finish_reserve call c (rows, n) l
      → (reserve_authorization call c l).0 ≡ ok (r, created)
      → (select c.caller_uid c.command_id rows ≡ some r
          → created ≡ (n == 1)
          → r.request_fingerprint ≡ c.request_fingerprint
          → Reserved
              (select c.caller_uid c.command_id (delete_expired call.now l.commands))
              r
              created)
      → Claimed r created
  finish_reserve-Claimed rows n r created b q h is =
      let f = finish_reserve-ok rows n r created (rw q at h) in
      record {
        admitted = b;
        reserved = is f.0 f.2 f.1;
        now_holds = rw (q, f.3) f.0;
        same_request = f.1;
        still_open = rw (q, f.4) b;
      }

  -- A reservation that reports success returns the pending record that it created, exactly where the
  -- key had no live record, and otherwise the live record, which is of the same request; the key
  -- then has the returned record.
  pub reserve_authorization-ok :
      (r : Record) (created : Bool)
      → (reserve_authorization call c l).0 ≡ ok (r, created)
      → Claimed r created
  reserve_authorization-ok r created h =
      let live = delete_expired call.now l.commands in
      let (v, b, done, i, q) = reserve_passed r created h in
      elim (Option-cases (select c.caller_uid c.command_id live)) [
        | inl e ↦
            let p : some (pending_record call.now c ∷ live, 1) ≡ some done =
              sym (insert_free live v e) ∙ i in
            finish_reserve-Claimed (pending_record call.now c ∷ live) 1 r created b (rw q (cc p)) h
              (λ s n _. rw e (ground (arith, n), ground (arith, select-pending live)))
        | inr (old, e) ↦
            let p : some (live, 0) ≡ some done = sym (insert_taken live old v e) ∙ i in
            finish_reserve-Claimed live 0 r created b (rw q (cc p)) h
              (λ s n f. rw e (ground (arith, n), ground (arith, e), ground (arith, e)))
      ]

count_recover_rows : (now : ℕ) (rows : List Record) → count_interrupted (recover_rows now rows) ≡ 0
unfolding count_interrupted recover_rows is_interrupted recovered_status
count_recover_rows now [] = refl
count_recover_rows now (r ∷ rows) = ground (arith, count_recover_rows now rows)

-- The database answers every query of `Reconcile`.
abbrev pub Answers : Recovery → Type 0
Answers rec =
    (integrity_check rec.integrity_rows rec.integrity_rows_fail ≡ true)
    × (rec.recover_fails ≡ false)
    × (rec.checkpoint_fails ≡ false)
    × (rec.checkpoint_busy ≡ false)
    × (rec.count_fails ≡ false)

-- `Reconcile` opens a closed gate whenever the database answers and the integrity check passes, and
-- then no command is pending, accepted or running.
pub reconcile_opens :
    (rec : Recovery) (l : Ledger)
    → l.blocked ≡ true
    → Answers rec
    → ((reconcile rec l).0 ≡ ok tt)
      × ((reconcile rec l).1.blocked ≡ false)
      × (count_interrupted (reconcile rec l).1.commands ≡ 0)
unfolding reconcile finish_reconcile recover_interrupted
reconcile_opens rec l b a = ground (arith, count_recover_rows rec.now l.commands)

-- `Reconcile` never opens a closed gate otherwise: a result without error means that the gate was
-- open already, or that the database answered.
pub reconcile-ok :
    (rec : Recovery) (l : Ledger)
    → (reconcile rec l).0 ≡ ok tt
    → ((l.blocked ≡ false) × ((reconcile rec l).1 ≡ l)) ⊎ Answers rec
unfolding reconcile finish_reconcile recover_interrupted block_persistence
reconcile-ok rec l h = ground arith
