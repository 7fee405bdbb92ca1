-- ===== src/Command/Steps.antt =====
-- The command service seen from the ledger (internal/command/service.go): a request is a sequence of
-- ledger operations, its own and others', and a call of the executor is tied to one transition.
use cockpit_slurm.Base.{ℕ, ◌+◌, ◌≤◌, ◌<◌, ◌≡◌, List, ◌∷◌, All}
use cockpit_slurm.Ledger.Status.{accepted, running}
use cockpit_slurm.Ledger.Table.{TransitionData, retention}
use cockpit_slurm.Ledger.Store.{Call, ok, transition}
use cockpit_slurm.Ledger.History.{Op, moves, time, step}
use cockpit_slurm.Command.World.{Execution, World, Access, Turn}

-- A span of time that is no longer than the retention of a record.
pub record Window : Type 0 where
  pub from : ℕ
  pub until : ℕ
  pub short : until ≤ from + retention

abbrev pub Within : Window → ℕ → Type 0
Within v n = (v.from ≤ n) × (n < v.until)

abbrev pub OpsWithin : Window → List Op → Type 0
OpsWithin v os = All (λ o. Within v (time o)) os

pub data WorldStep (v : Window) (w : World) : World → Type 0 where
  works : (o : Op) → Within v (time o) → WorldStep v w (record w { ledger = step o w.ledger })
  refreshes : (n : ℕ) → WorldStep v w (record w { refreshes = n })
  starts :
      (call : Call) (d : TransitionData) (e : Execution)
      → Within v call.now
      → (transition call e.caller_uid e.command_id accepted running d w.ledger).0 ≡ ok tt
      → WorldStep v w (record w {
        ledger = step (moves call e.caller_uid e.command_id accepted running d) w.ledger;
        executed = e ∷ w.executed;
      })

pub data WorldSteps (v : Window) (w : World) : World → Type 0 where
  here : WorldSteps v w w
  next : {u u' : World} → WorldSteps v w u → WorldStep v u u' → WorldSteps v w u'

pub trans-WorldSteps :
    {v : Window} {w u x : World} → WorldSteps v w u → WorldSteps v u x → WorldSteps v w x
trans-WorldSteps p here = p
trans-WorldSteps p (next q st) = next (trans-WorldSteps p q) st

abbrev pub AccessWithin : Window → Access → Type 0
AccessWithin v a = OpsWithin v a.before × Within v a.call.now

-- Every clock that a request reads, its own and others', lies in the window.
pub record TurnWithin (v : Window) (t : Turn) : Type 0 where
  pub looks : AccessWithin v t.lookup_access
  pub claims : AccessWithin v t.reserve_access
  pub refuses : AccessWithin v t.refuse_access
  pub accepts : AccessWithin v t.accept_access
  pub runs : AccessWithin v t.run_access
  pub finishes : AccessWithin v t.finish_access
  pub polls_all : All (AccessWithin v) t.polls
  pub others_recover : OpsWithin v t.recover_before
  pub recovers : Within v t.recovery.now
