-- ===== src/Ledger/Table.antt =====
-- The `commands` table of the command ledger and the SQL statements that work on it
-- (internal/ledger/ledger.go, `Claim`, `Record` and the statement texts). A text column that holds
-- NULL reads as the empty text, as `scanRecord` reads it; a blob column that holds NULL is `none`.
use cockpit_slurm.Base.{
  ℕ, suc, ◌+◌, String, Bool, true, false, not, ◌&&◌, ◌||◌, Option, none, some, List, [], ◌∷◌, ltb,
  ◌==◌, if◌then◌else◌, is_empty, nat_eq, string_eq,
}
use cockpit_slurm.Ledger.Status.{
  Status, authorization_pending, authorization_uncertain, accepted, running, unknown, status_eq,
}

pub record Claim : Type 0 where
  pub caller_uid : ℕ
  pub command_id : String
  pub request_fingerprint : String
  pub request_payload : String
  pub requesting_username : String
  pub requesting_gid : ℕ
  pub request_message_id : String
  pub service_uid : ℕ
  pub service_username : String
  pub resource : String
  pub command : String
  pub operation_id : String
  pub required_capability : String
  pub target_node : String

-- The columns that a claim fills stand in `claim`.
pub record Record : Type 0 where
  pub claim : Claim
  pub open claim use *
  pub status : Status
  pub admin_level : String
  pub authorization_metadata : Option String
  pub execution_uid : Option ℕ
  pub execution_username : String
  pub execution_boundary : String
  pub result_payload : Option String
  pub error_payload : Option String
  pub created_at : ℕ
  pub updated_at : ℕ
  pub expires_at : ℕ

pub record TransitionData : Type 0 where
  pub admin_level : String
  pub authorization_metadata : Option String
  pub execution_uid : Option ℕ
  pub execution_username : String
  pub execution_boundary : String
  pub result_payload : Option String
  pub error_payload : Option String

-- 30 days, in seconds.
abbrev pub retention : ℕ
retention = 2592000

-- `caller_uid = ? AND command_id = ?`
unfoldable pub has_key : ℕ → String → Record → Bool
has_key uid id r = r.caller_uid == uid && r.command_id == id

-- `SELECT ... WHERE caller_uid = ? AND command_id = ?`
unfoldable pub select : ℕ → String → List Record → Option Record
select uid id [] = none
select uid id (r ∷ rows) = if has_key uid id r then some r else select uid id rows

-- `DELETE FROM commands WHERE expires_at <= ?`
unfoldable pub delete_expired : ℕ → List Record → List Record
delete_expired now [] = []
delete_expired now (r ∷ rows) =
    if ltb now r.expires_at then r ∷ delete_expired now rows else delete_expired now rows

-- The CHECK constraints of the schema on the columns that a claim fills; a status is one of the
-- nine by its type, and the numbers are not negative.
unfoldable pub satisfies_checks : Claim → Bool
satisfies_checks c =
    not (is_empty c.command_id)
    && (not (is_empty c.requesting_username)
        && (c.resource == "node"
            && (c.command == "update"
                && ((c.operation_id == "node.drain" || c.operation_id == "node.resume")
                    && ((c.required_capability == "nodes.drain"
                          || c.required_capability == "nodes.resume")
                        && not (is_empty c.target_node))))))

-- The row that the INSERT statement writes.
unfoldable pub pending_record : ℕ → Claim → Record
pending_record now c = record {
  claim = c;
  status = authorization_pending;
  admin_level = "";
  authorization_metadata = none;
  execution_uid = none;
  execution_username = "";
  execution_boundary = "";
  result_payload = none;
  error_payload = none;
  created_at = now;
  updated_at = now;
  expires_at = now + retention;
}

-- `INSERT ... ON CONFLICT (caller_uid, command_id) DO NOTHING`: the table and the rows affected,
-- or `none` where a CHECK constraint fails.
unfoldable pub insert_claim : ℕ → Claim → List Record → Option (List Record × ℕ)
unfolding satisfies_checks pending_record
insert_claim now c rows =
    if satisfies_checks c
    then elim (select c.caller_uid c.command_id rows) [
      | none ↦ some (pending_record now c ∷ rows, 1)
      | some _ ↦ some (rows, 0)
    ]
    else none

-- `COALESCE(NULLIF(?, ''), column)`
unfoldable pub coalesce_text : String → String → String
coalesce_text new old = if is_empty new then old else new

-- `COALESCE(?, column)`
unfoldable pub coalesce {ℓ} : {A : Type ℓ} → Option A → Option A → Option A
coalesce none old = old
coalesce (some v) old = some v

-- The SET clause of the UPDATE statement of `Transition`.
unfoldable pub set_status : ℕ → Status → TransitionData → Record → Record
unfolding coalesce_text coalesce
set_status now next d r = record r {
  status = next;
  updated_at = now;
  admin_level = coalesce_text d.admin_level r.admin_level;
  authorization_metadata = coalesce d.authorization_metadata r.authorization_metadata;
  execution_uid = coalesce d.execution_uid r.execution_uid;
  execution_username = coalesce_text d.execution_username r.execution_username;
  execution_boundary = coalesce_text d.execution_boundary r.execution_boundary;
  result_payload = coalesce d.result_payload r.result_payload;
  error_payload = coalesce d.error_payload r.error_payload;
}

-- `UPDATE commands SET ... WHERE caller_uid = ? AND command_id = ? AND status = ?`: the table and
-- the rows affected.
unfoldable pub update_status :
    ℕ → ℕ → String → Status → Status → TransitionData → List Record → List Record × ℕ
update_status now uid id expected next d [] = ([], 0)
update_status now uid id expected next d (r ∷ rows) =
    let (rest, n) = update_status now uid id expected next d rows in
    if has_key uid id r && r.status == expected
    then (set_status now next d r ∷ rest, suc n)
    else (r ∷ rest, n)

-- The CASE expression of `recoverInterrupted`.
unfoldable pub recovered_status : Status → Status
recovered_status authorization_pending = authorization_uncertain
recovered_status accepted = authorization_uncertain
recovered_status running = unknown
recovered_status s = s

-- `status IN ('authorization_pending', 'accepted', 'running')`
unfoldable pub is_interrupted : Status → Bool
is_interrupted authorization_pending = true
is_interrupted accepted = true
is_interrupted running = true
is_interrupted _ = false

-- The UPDATE statement of `recoverInterrupted`.
unfoldable pub recover_rows : ℕ → List Record → List Record
recover_rows now [] = []
recover_rows now (r ∷ rows) =
    (if is_interrupted r.status
      then record r { status = recovered_status r.status; updated_at = now }
      else r)
    ∷ recover_rows now rows

-- `SELECT COUNT(*) FROM commands WHERE status IN (...)`
unfoldable pub count_interrupted : List Record → ℕ
count_interrupted [] = 0
count_interrupted (r ∷ rows) =
    let rest = count_interrupted rows in if is_interrupted r.status then suc rest else rest
