-- ===== src/Ledger/Store.antt =====
-- The ledger's operations (internal/ledger/ledger.go): `ReserveAuthorization`, `Lookup`,
-- `Transition`, `Reconcile` and the start-up steps. An operation takes what its database calls
-- report, and returns its result with the new ledger. SQLite itself is not modelled: that a call
-- fails, and when, is an argument. A nil receiver and a nil context are left out.
use cockpit_slurm.Base.{
  ℕ, String, Bool, true, false, not, ◌&&◌, ◌||◌, Option, none, some, List, [], ◌∷◌, ◌==◌, ◌!=◌,
  if◌then◌else◌, is_empty, is_missing, nat_eq, string_eq,
}
use cockpit_slurm.Ledger.Status.{
  Status, accepted, running, denied, authorization_failed, status_eq, allowed_transition,
}
use cockpit_slurm.Ledger.Table.{
  Claim, Record, TransitionData, select, delete_expired, insert_claim, update_status, recover_rows,
  count_interrupted,
}
use cockpit_slurm.Base.{ltb}

pub data Error : Type 0 where
  integrity_check_failed persistence_failed admission_blocked command_id_conflict : Error
  invalid_transition command_not_found cancelled : Error

pub data Result {ℓ} (A : Type ℓ) : Type ℓ where
  ok : A → Result A
  err : Error → Result A

-- What `tx.Commit` does: it may report an error although the transaction is durable.
pub data Commit : Type 0 where
  commit_ok commit_failed commit_uncertain : Commit

-- What the query of `Lookup` reports beside its row.
pub data Read : Type 0 where
  read_ok read_cancelled read_failed : Read

-- The clock and the database's answers to one operation.
pub record Call : Type 0 where
  pub now : ℕ
  pub begin_fails : Bool
  pub delete_fails : Bool
  pub write_fails : Bool
  pub inspect_fails : Bool
  pub select_fails : Bool
  pub read : Read
  pub commit : Commit

-- The struct `Ledger`: the durable rows and the admission gate.
pub record Ledger : Type 0 where
  pub commands : List Record
  pub blocked : Bool

-- `blockPersistence`
unfoldable pub block_persistence {ℓ} : {A : Type ℓ} → Ledger → Result A × Ledger
block_persistence l = (err persistence_failed, record l { blocked = true })

unfoldable pub validate_claim : Claim → Bool
validate_claim c =
    not (
      is_empty c.command_id
      || (is_empty c.requesting_username
          || (is_empty c.request_message_id
              || (is_empty c.service_username
                  || (is_empty c.request_fingerprint
                      || (is_empty c.request_payload || is_empty c.target_node))))))
    && (not (c.resource != "node" || c.command != "update")
        && not (
            (c.operation_id != "node.drain" || c.required_capability != "nodes.drain")
            && (c.operation_id != "node.resume" || c.required_capability != "nodes.resume")))

-- `commit` and the error path behind it: the rows that are durable afterwards, and the result.
unfoldable pub commit_rows {ℓ} :
    {A : Type ℓ} → Commit → List Record → A → Ledger → Result A × Ledger
unfolding block_persistence
commit_rows commit_ok rows a l = (ok a, record l { commands = rows })
commit_rows commit_failed rows a l = block_persistence l
commit_rows commit_uncertain rows a l = block_persistence (record l { commands = rows })

-- The part of `ReserveAuthorization` that follows the INSERT statement.
unfoldable pub finish_reserve :
    Call → Claim → List Record × ℕ → Ledger → Result (Record × Bool) × Ledger
finish_reserve call c (rows, n) l =
    if call.inspect_fails || call.select_fails
    then block_persistence l
    else elim (select c.caller_uid c.command_id rows) [
      | none ↦ block_persistence l
      | some r ↦
          if r.request_fingerprint == c.request_fingerprint
          then commit_rows call.commit rows (r, n == 1) l
          else (err command_id_conflict, l)
    ]

unfoldable pub reserve_authorization : Call → Claim → Ledger → Result (Record × Bool) × Ledger
reserve_authorization call c l =
    if not (validate_claim c)
    then (err invalid_transition, l)
    else if l.blocked
    then (err admission_blocked, l)
    else if call.begin_fails || (call.delete_fails || call.write_fails)
    then block_persistence l
    else elim (insert_claim call.now c (delete_expired call.now l.commands)) [
      | none ↦ block_persistence l
      | some done ↦ finish_reserve call c done l
    ]

-- `expires_at > ?`
unfoldable pub live_row : ℕ → Option Record → Option Record
live_row now none = none
live_row now (some r) = if ltb now r.expires_at then some r else none

unfoldable pub lookup : Call → ℕ → String → Ledger → Result (Option Record) × Ledger
unfolding block_persistence
lookup call uid id l = elim call.read [
  | read_ok ↦ (ok (live_row call.now (select uid id l.commands)), l)
  | read_cancelled ↦ (err cancelled, l)
  | read_failed ↦ block_persistence l
]

-- The three guards of `Transition` on the data of a status.
unfoldable pub has_required_data : Status → TransitionData → Bool
has_required_data next d =
    not (next == accepted && (d.admin_level != "admin" || is_missing d.authorization_metadata))
    && (not (
          next == running
          && (elim d.execution_uid [ none ↦ true | some _ ↦ false ]
              || (is_empty d.execution_username || is_empty d.execution_boundary)))
        && not ((next == denied || next == authorization_failed) && is_missing d.error_payload))

-- `transitionConflict`
unfoldable pub transition_conflict : Call → ℕ → String → Ledger → Result (Unit {0}) × Ledger
transition_conflict call uid id l =
    let (found, l') = lookup call uid id l in
    elim found [
      | err e ↦ block_persistence l'
      | ok none ↦ (err command_not_found, l')
      | ok (some _) ↦ (err invalid_transition, l')
    ]

unfoldable pub transition :
    Call → ℕ → String → Status → Status → TransitionData → Ledger → Result (Unit {0}) × Ledger
transition call uid id expected next d l =
    if not (allowed_transition expected next && has_required_data next d)
    then (err invalid_transition, l)
    else if l.blocked
    then (err admission_blocked, l)
    else if call.begin_fails || (call.write_fails || call.inspect_fails)
    then block_persistence l
    else let (rows, n) = update_status call.now uid id expected next d l.commands in
      if n == 1 then commit_rows call.commit rows tt l else transition_conflict call uid id l

unfoldable pub purge_expired : ℕ → Ledger → Ledger
purge_expired now l = record l { commands = delete_expired now l.commands }

unfoldable pub recover_interrupted : ℕ → Ledger → Ledger
recover_interrupted now l = record l { commands = recover_rows now l.commands }

-- The rows of `PRAGMA integrity_check`; `none` is a row that cannot be scanned.
unfoldable pub all_ok : List (Option String) → Bool
all_ok [] = true
all_ok (none ∷ rows) = false
all_ok (some s ∷ rows) = s == "ok" && all_ok rows

unfoldable pub integrity_check : Option (List (Option String)) → Bool → Bool
unfolding all_ok
integrity_check none rows_fail = false
integrity_check (some []) rows_fail = false
integrity_check (some (r ∷ rows)) rows_fail = all_ok (r ∷ rows) && not rows_fail

-- What the database answers to `Reconcile`.
pub record Recovery : Type 0 where
  pub now : ℕ
  pub integrity_rows : Option (List (Option String))
  pub integrity_rows_fail : Bool
  pub recover_fails : Bool
  pub checkpoint_fails : Bool
  pub checkpoint_busy : Bool
  pub count_fails : Bool

-- The part of `Reconcile` that follows `recoverInterrupted`.
unfoldable pub finish_reconcile : Recovery → Ledger → Result (Unit {0}) × Ledger
unfolding block_persistence
finish_reconcile rec l =
    if rec.checkpoint_fails || (rec.checkpoint_busy || rec.count_fails)
    then block_persistence l
    else if count_interrupted l.commands == 0
    then (ok tt, record l { blocked = false })
    else block_persistence l

unfoldable pub reconcile : Recovery → Ledger → Result (Unit {0}) × Ledger
reconcile rec l =
    if not l.blocked
    then (ok tt, l)
    else if not (integrity_check rec.integrity_rows rec.integrity_rows_fail) || rec.recover_fails
    then block_persistence l
    else finish_reconcile rec (recover_interrupted rec.now l)
