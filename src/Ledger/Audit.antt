-- ===== src/Ledger/Audit.antt =====
-- What the columns of a command record say about its status (internal/ledger/ledger.go): the guards
-- of `Transition` on `TransitionData`.
use cockpit_slurm.Base.{
  ℕ, String, ◌≡◌, refl, inl, inr, Bool, true, false, ◌&&◌, Option, none, some, string_eq, arith,
  is_empty, is_missing, string_iff, Bool-cases, nat_eq,
}
use cockpit_slurm.Ledger.Status.{
  Status, accepted, running, succeeded, failed, denied, unknown, authorization_failed,
  allowed_transition, same_status, same_status_iff,
}
use cockpit_slurm.Ledger.Table.{
  Claim, Record, TransitionData, set_status, pending_record, is_interrupted, recovered_status,
  coalesce_text, has_key,
}
use cockpit_slurm.Ledger.Store.{has_required_data}
use cockpit_slurm.Ledger.Keys.{updated, recovered}

-- The command was handed to the executor.
abbrev pub is_executed : Status → Bool
is_executed running = true
is_executed succeeded = true
is_executed failed = true
is_executed unknown = true
is_executed _ = false

-- The authorization ended with an error for the caller.
abbrev pub is_refused : Status → Bool
is_refused denied = true
is_refused authorization_failed = true
is_refused _ = false

abbrev pub has_value {ℓ} : {A : Type ℓ} → Option A → Bool
has_value none = false
has_value (some a) = true

-- The audit columns that each status promises.
pub record IsAudited (r : Record) : Type 0 where
  pub by_admin : r.status ≡ accepted → r.admin_level ≡ "admin"
  pub with_evidence : r.status ≡ accepted → is_missing r.authorization_metadata ≡ false
  pub has_uid : is_executed r.status ≡ true → has_value r.execution_uid ≡ true
  pub has_username : is_executed r.status ≡ true → is_empty r.execution_username ≡ false
  pub has_boundary : is_executed r.status ≡ true → is_empty r.execution_boundary ≡ false
  pub explained : is_refused r.status ≡ true → is_missing r.error_payload ≡ false

required_admin :
    (d : TransitionData) → has_required_data accepted d ≡ true → d.admin_level ≡ "admin"
unfolding has_required_data same_status
required_admin d h = ground (arith, string_iff d.admin_level "admin")

coalesce_text-new : (new old : String) → new ≡ "admin" → coalesce_text new old ≡ "admin"
unfolding coalesce_text is_empty
coalesce_text-new new old h = rw h refl

required_evidence :
    (d : TransitionData)
    → has_required_data accepted d ≡ true
    → is_missing d.authorization_metadata ≡ false
unfolding has_required_data same_status
required_evidence d h = ground (arith, Bool-cases (is_missing d.authorization_metadata))

set_status-IsAudited :
    (now : ℕ) (next : Status) (d : TransitionData) (r : Record)
    → allowed_transition r.status next ≡ true
    → has_required_data next d ≡ true
    → IsAudited r
    → IsAudited (set_status now next d r)
unfolding allowed_transition has_required_data set_status is_missing same_status
set_status-IsAudited now next d r a q h = record {
  by_admin = λ e. coalesce_text-new d.admin_level r.admin_level (required_admin d (rw e at q));
  with_evidence = ground arith;
  has_uid = ground arith;
  has_username = ground arith;
  has_boundary = ground arith;
  explained = ground arith;
}

pub updated-IsAudited :
    (now uid : ℕ) (id : String) (expected next : Status) (d : TransitionData) (r : Record)
    → allowed_transition expected next ≡ true
    → has_required_data next d ≡ true
    → IsAudited r
    → IsAudited (updated now uid id expected next d r)
updated-IsAudited now uid id expected next d r a q h =
    elim (Bool-cases (has_key uid id r && same_status r.status expected)) [
      | inr e ↦ rw e h
      | inl e ↦ rw e (
          set_status-IsAudited now next d r
            (let same : r.status ≡ expected = ground (arith, same_status_iff r.status expected) in
              rw same a)
            q h)
    ]

pub recovered-IsAudited : (now : ℕ) (r : Record) → IsAudited r → IsAudited (recovered now r)
unfolding is_interrupted recovered_status
recovered-IsAudited now r h = ground arith

pub pending_record-IsAudited : (now : ℕ) (c : Claim) → IsAudited (pending_record now c)
unfolding pending_record
pending_record-IsAudited now c = ground arith
