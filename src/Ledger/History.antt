-- ===== src/Ledger/History.antt =====
-- A history of the ledger: calls of its operations, failed reconciliations and restarts included
-- (internal/ledger/ledger.go; a restart is the part of `Open` behind `migrate`).
use cockpit_slurm.Base.{ℕ, String, true, false, List, [], ◌∷◌, ◌≡◌}
use cockpit_slurm.Ledger.Status.{Status, allowed_transition}
use cockpit_slurm.Ledger.Table.{Claim, TransitionData, is_interrupted, recovered_status}
use cockpit_slurm.Ledger.Store.{
  Ledger, Call, Recovery, reserve_authorization, lookup, transition, reconcile, recover_interrupted,
  purge_expired,
}

-- The start of a daemon over the rows that the last one left: the gate is open in a new `Ledger`,
-- interrupted commands are closed and expired rows deleted.
unfoldable pub open_ledger : ℕ → Ledger → Ledger
open_ledger now l = purge_expired now (recover_interrupted now (record l { blocked = false }))

pub data Op : Type 0 where
  reserves : Call → Claim → Op
  looks_up : Call → ℕ → String → Op
  moves : Call → ℕ → String → Status → Status → TransitionData → Op
  reconciles : Recovery → Op
  restarts : ℕ → Op

-- The clock at an operation.
abbrev pub time : Op → ℕ
time (reserves call c) = call.now
time (looks_up call uid id) = call.now
time (moves call uid id expected next d) = call.now
time (reconciles rec) = rec.now
time (restarts now) = now

unfoldable pub step : Op → Ledger → Ledger
step (reserves call c) l = (reserve_authorization call c l).1
step (looks_up call uid id) l = (lookup call uid id l).1
step (moves call uid id expected next d) l = (transition call uid id expected next d l).1
step (reconciles rec) l = (reconcile rec l).1
step (restarts now) l = open_ledger now l

unfoldable pub run : List Op → Ledger → Ledger
run [] l = l
run (o ∷ os) l = run os (step o l)

-- One move of a status: a transition that the table allows, or the closing of an interrupted
-- command.
pub data StatusStep : Status → Status → Type 0 where
  allowed : {s t : Status} → allowed_transition s t ≡ true → StatusStep s t
  recover : {s t : Status} → is_interrupted s ≡ true → t ≡ recovered_status s → StatusStep s t

-- Any number of such moves.
pub data StatusPath (s : Status) : Status → Type 0 where
  stay : StatusPath s s
  move : {t u : Status} → StatusPath s t → StatusStep t u → StatusPath s u
