-- ===== src/Ledger/Keys.antt =====
-- The primary key of the `commands` table: how each statement acts on the row of a key.
use mathlib.Core.Option
use cockpit_slurm.Base.{
  ℕ, String, ◌≡◌, refl, ◌↔◌, true, ◌&&◌, none, some, List, [], ◌∷◌, ◌==◌, if◌then◌else◌, nat_eq,
  string_eq, string_iff, arith,
}
use cockpit_slurm.Ledger.Status.{Status, status_eq}
use cockpit_slurm.Ledger.Table.{
  Record, TransitionData, has_key, select, delete_expired, set_status, update_status,
  recovered_status, is_interrupted, recover_rows,
}
use cockpit_slurm.Ledger.Store.{live_row}

pub has_key_iff :
    (uid : ℕ) (id : String) (r : Record)
    → (has_key uid id r ≡ true) ↔ ((r.caller_uid ≡ uid) × (r.command_id ≡ id))
unfolding has_key
has_key_iff uid id r = ground (arith, string_iff r.command_id id)

pub has_key_self : (r : Record) → has_key r.caller_uid r.command_id r ≡ true
has_key_self r = (has_key_iff r.caller_uid r.command_id r).1 (refl, refl)

pub has_key_unique :
    (u v : ℕ) (i j : String) (r : Record)
    → has_key u i r ≡ true
    → has_key v j r ≡ true
    → (u ≡ v) × (i ≡ j)
has_key_unique u v i j r h k = ground (arith, has_key_iff u i r, has_key_iff v j r)

-- The record behind a key has that key.
pub select-has_key :
    (uid : ℕ) (id : String) (rows : List Record) (r : Record)
    → select uid id rows ≡ some r
    → has_key uid id r ≡ true
unfolding select
select-has_key uid id [] r h = cc
select-has_key uid id (x ∷ rows) r h = ground (arith, select-has_key uid id rows r)

-- No two rows have one key.
abbrev pub Distinct : List Record → Type 0
Distinct [] = Unit
Distinct (r ∷ rows) = (select r.caller_uid r.command_id rows ≡ none) × Distinct rows

-- A row with the key of the head is missing behind it.
pub Distinct-tail :
    (uid : ℕ) (id : String) (r : Record) (rows : List Record)
    → has_key uid id r ≡ true
    → select r.caller_uid r.command_id rows ≡ none
    → select uid id rows ≡ none
Distinct-tail uid id r rows h d = let e = (has_key_iff uid id r).0 h in rw (← e.0, ← e.1) d

pub select-delete_expired-none :
    (now uid : ℕ) (id : String) (rows : List Record)
    → select uid id rows ≡ none
    → select uid id (delete_expired now rows) ≡ none
unfolding select delete_expired
select-delete_expired-none now uid id [] h = refl
select-delete_expired-none now uid id (r ∷ rows) h =
    ground (arith, select-delete_expired-none now uid id rows)

-- Expiry hides exactly the rows whose time has come.
pub select-delete_expired :
    (now uid : ℕ) (id : String) (rows : List Record)
    → Distinct rows
    → select uid id (delete_expired now rows) ≡ live_row now (select uid id rows)
unfolding select delete_expired live_row
select-delete_expired now uid id [] d = refl
select-delete_expired now uid id (r ∷ rows) d = ground (
  arith,
  select-delete_expired now uid id rows d.1,
  Distinct-tail uid id r rows,
  select-delete_expired-none now uid id rows,
)

pub delete_expired-Distinct :
    (now : ℕ) (rows : List Record) → Distinct rows → Distinct (delete_expired now rows)
unfolding delete_expired
delete_expired-Distinct now [] d = tt
delete_expired-Distinct now (r ∷ rows) d = ground (
  arith,
  delete_expired-Distinct now rows d.1,
  select-delete_expired-none now r.caller_uid r.command_id rows,
)

module _ (now uid : ℕ) (id : String) (expected next : Status) (d : TransitionData) where
  -- What the UPDATE statement makes of one row.
  abbrev pub updated : Record → Record
  updated r = if has_key uid id r && r.status == expected then set_status now next d r else r

  pub has_key-set_status :
      (v : ℕ) (j : String) (r : Record) → has_key v j (set_status now next d r) ≡ has_key v j r
  unfolding has_key set_status
  has_key-set_status v j r = refl

  pub select-update_status :
      (v : ℕ) (j : String) (rows : List Record)
      → select v j (update_status now uid id expected next d rows).0
        ≡ Option.map updated (select v j rows)
  unfolding select update_status
  select-update_status v j [] = refl
  select-update_status v j (r ∷ rows) =
      ground (arith, has_key-set_status v j r, select-update_status v j rows)

  pub count_absent :
      (rows : List Record)
      → select uid id rows ≡ none
      → (update_status now uid id expected next d rows).1 ≡ 0
  unfolding select update_status
  count_absent [] h = refl
  count_absent (r ∷ rows) h = ground (arith, count_absent rows)

  -- Under distinct keys the statement affects one row exactly when the key's row has the expected
  -- status.
  pub count_present :
      (rows : List Record) (r : Record)
      → Distinct rows
      → select uid id rows ≡ some r
      → (update_status now uid id expected next d rows).1 ≡ (if r.status == expected then 1 else 0)
  unfolding select update_status
  count_present [] r u h = cc
  count_present (x ∷ rows) r u h =
      ground (arith, Distinct-tail uid id x rows, count_absent rows, count_present rows r u.1)

  pub update_status-Distinct :
      (rows : List Record)
      → Distinct rows
      → Distinct (update_status now uid id expected next d rows).0
  unfolding update_status set_status
  update_status-Distinct [] u = tt
  update_status-Distinct (r ∷ rows) u =
      ground (
        arith,
        update_status-Distinct rows u.1,
        select-update_status r.caller_uid r.command_id rows,
      )

-- What `recoverInterrupted` makes of one row.
abbrev pub recovered : ℕ → Record → Record
recovered now r =
    if is_interrupted r.status
    then record r { status = recovered_status r.status; updated_at = now }
    else r

pub select-recover_rows :
    (now v : ℕ) (j : String) (rows : List Record)
    → select v j (recover_rows now rows) ≡ Option.map (recovered now) (select v j rows)
unfolding select recover_rows has_key
select-recover_rows now v j [] = refl
select-recover_rows now v j (r ∷ rows) = ground (arith, select-recover_rows now v j rows)

pub recover_rows-Distinct :
    (now : ℕ) (rows : List Record) → Distinct rows → Distinct (recover_rows now rows)
unfolding recover_rows
recover_rows-Distinct now [] u = tt
recover_rows-Distinct now (r ∷ rows) u = ground (
  arith,
  recover_rows-Distinct now rows u.1,
  select-recover_rows now r.caller_uid r.command_id rows,
)
