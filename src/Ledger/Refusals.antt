-- ===== src/Ledger/Refusals.antt =====
-- What an error of `ReserveAuthorization` tells (internal/ledger/ledger.go).
use cockpit_slurm.Base.{if◌then◌else◌}
use cockpit_slurm.Base.{subst}
use cockpit_slurm.Base.{not}
use cockpit_slurm.Ledger.Store.{Commit}
use cockpit_slurm.Ledger.Store.{Result}
use cockpit_slurm.Base.{ap}
use cockpit_slurm.Ledger.Store.{commit_uncertain}
use cockpit_slurm.Ledger.Store.{Error}
use cockpit_slurm.Base.{
  ℕ, ◌≡◌, ◌≢◌, refl, sym, ◌∙◌, ◌⊎◌, inl, inr, Bool, true, false, ◌||◌, none, some, List, ◌∷◌, ◌==◌,
  nat_eq, string_eq, arith, string_iff, Option-cases,
}
use cockpit_slurm.Ledger.Table.{Claim, Record, select, delete_expired, insert_claim, pending_record}
use cockpit_slurm.Ledger.Store.{
  Ledger, Call, ok, err, command_id_conflict, commit_rows, block_persistence, validate_claim,
  reserve_authorization, finish_reserve,
}
use cockpit_slurm.Ledger.Reservations.{select-pending, insert_free, insert_taken}

module _ (call : Call) (c : Claim) (l : Ledger) where
  -- The state of the ledger that each error of a reservation goes with.
  abbrev pub RefusedBy : Error → Ledger → Type 0
  RefusedBy command_id_conflict after =
      (old : Record) × (select c.caller_uid c.command_id (delete_expired call.now l.commands)
        ≡ some old)
      × (old.request_fingerprint ≢ c.request_fingerprint)
      × (after ≡ l)
  RefusedBy Error.invalid_transition after = (validate_claim c ≡ false) × (after ≡ l)
  RefusedBy Error.admission_blocked after = (l.blocked ≡ true) × (after ≡ l)
  RefusedBy Error.persistence_failed after = after.blocked ≡ true
  RefusedBy _ after = ⊥

  some_record : {r q : Record} → some r ≡ some q → r ≡ q
  some_record h = cc

  fingerprint_of :
      (old : Record)
      → pending_record call.now c ≡ old
      → old.request_fingerprint ≡ c.request_fingerprint
  unfolding pending_record
  fingerprint_of old q = ap (λ r. r.request_fingerprint) (sym q)

  -- What a reservation returns, where it is an error.
  abbrev Told : Result (Record × Bool) × Ledger → Type 0
  Told (ok r, after) = Unit
  Told (err e, after) =
      RefusedBy e after × ((call.commit ≡ commit_uncertain) ⊎ (after.commands ≡ l.commands))

  Told-error :
      (e : Error) (r : Result (Record × Bool) × Ledger)
      → r.0 ≡ err e
      → Told r
      → RefusedBy e r.1 × ((call.commit ≡ commit_uncertain) ⊎ (r.1.commands ≡ l.commands))
  Told-error e (ok x, after) h t = absurd (cc)
  Told-error e (err d, after) h t =
      let q : d ≡ e = cc in
      subst
        (λ x.
          RefusedBy x after × ((call.commit ≡ commit_uncertain) ⊎ (after.commands ≡ l.commands)))
        q t

  if-Told :
      (b : Bool) (x y : Result (Record × Bool) × Ledger)
      → (b ≡ true → Told x)
      → (b ≡ false → Told y)
      → Told (if b then x else y)
  if-Told true x y f g = f refl
  if-Told false x y f g = g refl

  commit_rows-Told :
      (o : Commit) (rows : List Record) (x : Record × Bool)
      → call.commit ≡ o
      → Told (commit_rows o rows x l)
  unfolding commit_rows block_persistence
  commit_rows-Told Commit.commit_ok rows x e = tt
  commit_rows-Told Commit.commit_failed rows x e = (refl, inr refl)
  commit_rows-Told Commit.commit_uncertain rows x e = (refl, inl e)

  finish_reserve-Told :
      (rows : List Record) (n : ℕ)
      → ((old : Record)
          → select c.caller_uid c.command_id rows ≡ some old
          → old.request_fingerprint ≢ c.request_fingerprint
          → select c.caller_uid c.command_id (delete_expired call.now l.commands) ≡ some old)
      → Told (finish_reserve call c (rows, n) l)
  unfolding finish_reserve block_persistence
  finish_reserve-Told rows n live =
      if-Told (call.inspect_fails || call.select_fails) _ _ (λ _. (refl, inr refl))
        (λ _. elim (Option-cases (select c.caller_uid c.command_id rows)) [
          | inl e ↦ rw e (refl, inr refl)
          | inr (old, e) ↦ rw e (
              if-Told (old.request_fingerprint == c.request_fingerprint) _ _
                (λ _. commit_rows-Told call.commit rows (old, n == 1) refl)
                (λ f.
                  let differs : old.request_fingerprint ≢ c.request_fingerprint = λ q. absurd (
                    ground
                      (arith, f, q, string_iff old.request_fingerprint c.request_fingerprint)) in
                  ((old, live old e differs, differs, refl), inr refl)))
        ])

  insert-Told :
      (v : validate_claim c ≡ true)
      → Told
          (elim (insert_claim call.now c (delete_expired call.now l.commands))
            as (λ x. Result (Record × Bool) × Ledger) [
              | none ↦ block_persistence l
              | some done ↦ finish_reserve call c done l
            ])
  insert-Told v =
      let live = delete_expired call.now l.commands in
      elim (Option-cases (select c.caller_uid c.command_id live)) [
        | inl e ↦ rw (insert_free call c l live v e) (
            finish_reserve-Told (pending_record call.now c ∷ live) 1 (λ old h d.
              let q : pending_record call.now c ≡ old =
                some_record (sym (select-pending call c l live) ∙ h) in
              absurd (d (fingerprint_of old q))))
        | inr (old, e) ↦
            rw (insert_taken call c l live old v e) (finish_reserve-Told live 0 (λ x h d. h))
      ]

  reserve-Told : Told (reserve_authorization call c l)
  unfolding reserve_authorization block_persistence
  reserve-Told =
      if-Told (not (validate_claim c)) _ _ (λ v. ((ground (arith, v), refl), inr refl))
        (λ v.
          if-Told l.blocked _ _ (λ b. ((b, refl), inr refl))
            (λ _.
              if-Told (call.begin_fails || (call.delete_fails || call.write_fails)) _ _
                (λ _. (refl, inr refl)) (λ _. insert-Told (ground (arith, v)))))

  -- An error of a reservation tells what happened: a conflict, that the key has a live record of
  -- another request and nothing has changed; a refusal of the claim or of the gate, that it was invalid
  -- or the gate closed, and nothing has changed; any other error is a persistence failure, which
  -- closes the gate. No row has changed unless the commit is uncertain.
  pub reserve_authorization_error :
      (e : Error)
      → (reserve_authorization call c l).0 ≡ err e
      → RefusedBy e (reserve_authorization call c l).1
        × ((call.commit ≡ commit_uncertain)
            ⊎ ((reserve_authorization call c l).1.commands ≡ l.commands))
  reserve_authorization_error e h = Told-error e _ h reserve-Told
