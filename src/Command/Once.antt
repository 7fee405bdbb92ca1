-- ===== src/Command/Once.antt =====
-- At most one call of the executor for each command (internal/command/service.go).
use cockpit_slurm.Base.{
  ℕ, suc, ◌≤◌, String, ◌≡◌, refl, sym, ap, subst, ◌⊎◌, inl, inr, true, ◌&&◌, some, List, [], ◌∷◌,
  All, arith, ◌==◌, nat_eq, string_eq, string_iff, if◌then◌else◌, Bool-cases,
}
use cockpit_slurm.Protocol.Envelope.{Envelope}
use cockpit_slurm.Ledger.Status.{accepted, running, Status, allowed_transition}
use cockpit_slurm.Ledger.Table.{
  Record, TransitionData, select, is_interrupted, recovered_status, set_status,
}
use cockpit_slurm.Ledger.Store.{Call, Ledger, ok, transition}
use cockpit_slurm.Ledger.Keys.{Distinct}
use cockpit_slurm.Ledger.History.{Op, moves, time, step, StatusStep, allowed, recover}
use cockpit_slurm.Ledger.Lifecycle.{step-Distinct, step-Continued}
use cockpit_slurm.Ledger.Outcomes.{transition-ok}
use cockpit_slurm.Ledger.Retention.{Outlasts, step-Outlasts, select-Outlasts}
use cockpit_slurm.Ledger.Audit.{is_executed}
use cockpit_slurm.Identity.Resolver.{UserContext}
use cockpit_slurm.Command.World.{Service, Execution, World, Turn}
use cockpit_slurm.Command.Handle.{handle}
use cockpit_slurm.Command.Steps.{
  Window, Within, WorldStep, works, refreshes, starts, WorldSteps, here, next, TurnWithin,
}
use cockpit_slurm.Command.Refines.{handle-Steps}

-- How often the executor was called for a command.
abbrev pub executions : ℕ → String → List Execution → ℕ
executions uid id [] = 0
executions uid id (e ∷ es) =
    let n = executions uid id es in if e.caller_uid == uid && e.command_id == id then suc n else n

-- The record of a command shows that it was handed to the executor.
abbrev pub HasRun : ℕ → String → List Record → Type 0
HasRun uid id rows = (r : Record) × (select uid id rows ≡ some r) × (is_executed r.status ≡ true)

abbrev pub Counted : ℕ → String → World → Type 0
Counted uid id w =
    (executions uid id w.executed ≡ 0)
    ⊎ ((executions uid id w.executed ≡ 1) × HasRun uid id w.ledger.commands)

-- Every command was executed at most once, and its record tells.
pub record Once (v : Window) (w : World) : Type 0 where
  pub distinct : Distinct w.ledger.commands
  pub outlasts : Outlasts v.until w.ledger.commands
  pub counted : (uid : ℕ) (id : String) → Counted uid id w

executed_stays : (s t : Status) → is_executed s ≡ true → StatusStep s t → is_executed t ≡ true
unfolding allowed_transition is_interrupted recovered_status
executed_stays s t h (allowed a) = ground arith
executed_stays s t h (recover a e) = ground arith

same_command :
    (e : Execution) (uid : ℕ) (id : String)
    → (e.caller_uid == uid && e.command_id == id) ≡ true
    → (e.caller_uid ≡ uid) × (e.command_id ≡ id)
same_command e uid id h = ground (arith, string_iff e.command_id id)

not_accepted :
    (uid : ℕ) (id : String) (rows : List Record) (r : Record)
    → select uid id rows ≡ some r
    → r.status ≡ accepted
    → ¬ HasRun uid id rows
not_accepted uid id rows r f w (q, e, x) = ground arith

module _ (v : Window) where
  step-HasRun :
      (o : Op) (l : Ledger) (uid : ℕ) (id : String)
      → Within v (time o)
      → Distinct l.commands
      → Outlasts v.until l.commands
      → HasRun uid id l.commands
      → HasRun uid id (step o l).commands
  step-HasRun o l uid id k u h (r, e, x) =
      let long = select-Outlasts v.until uid id l.commands r h e in
      let (r', e', c) = step-Continued uid id r o l u e (omega (arith, k.1, long)) in
      (r', e', elim c.moved [ inl q ↦ rw q x | inr st ↦ executed_stays r.status r'.status x st ])

  step-Counted :
      (o : Op) (w : World)
      → Within v (time o)
      → Once v w
      → Once v (record w { ledger = step o w.ledger })
  step-Counted o w k h = record {
    distinct = step-Distinct o w.ledger h.distinct;
    outlasts = step-Outlasts v.until o w.ledger (omega (arith, k.0, v.short)) h.outlasts;
    counted = λ uid id. elim (h.counted uid id) [
      | inl z ↦ inl z
      | inr (n, x) ↦ inr (n, step-HasRun o w.ledger uid id k h.distinct h.outlasts x)
    ];
  }

  accepted_not_run :
      (call : Call) (d : TransitionData) (e : Execution) (w : World)
      → Once v w
      → (transition call e.caller_uid e.command_id accepted running d w.ledger).0 ≡ ok tt
      → (executions e.caller_uid e.command_id w.executed ≡ 0)
        × HasRun e.caller_uid e.command_id
            (transition call e.caller_uid e.command_id accepted running d w.ledger).1.commands
  unfolding set_status
  accepted_not_run call d e w h t =
      let (r, m) =
        transition-ok call e.caller_uid e.command_id accepted running d w.ledger h.distinct t in
      (
        elim (h.counted e.caller_uid e.command_id) [
          | inl z ↦ z
          | inr (_, x) ↦ absurd (not_accepted _ _ _ r m.found m.was x)
        ],
        (set_status call.now running d r, m.now_holds, refl),
      )

  starts-Counted :
      (call : Call) (d : TransitionData) (e : Execution) (w : World) (uid : ℕ) (id : String)
      → Within v call.now
      → Once v w
      → (transition call e.caller_uid e.command_id accepted running d w.ledger).0 ≡ ok tt
      → Counted uid id (record w {
        ledger = step (moves call e.caller_uid e.command_id accepted running d) w.ledger;
        executed = e ∷ w.executed;
      })
  unfolding step
  starts-Counted call d e w uid id k h t =
      let o = moves call e.caller_uid e.command_id accepted running d in
      let (z, x) = accepted_not_run call d e w h t in
      elim (Bool-cases (e.caller_uid == uid && e.command_id == id)) [
        | inr f ↦ elim (h.counted uid id) [
          | inl n ↦ inl (rw f n)
          | inr (n, y) ↦ inr (rw f n, step-HasRun o w.ledger uid id k h.distinct h.outlasts y)
        ]
        | inl f ↦
            let (a, b) = same_command e uid id f in
            let z' = subst (λ (n : ℕ). executions n e.command_id w.executed ≡ 0) a z in
            let n = subst (λ (i : String). executions uid i w.executed ≡ 0) b z' in
            inr (rw f (ap suc n), rw (sym a, sym b) x)
      ]

  pub WorldStep-Once : (w u : World) → WorldStep v w u → Once v w → Once v u
  WorldStep-Once w u (works o k) h = step-Counted o w k h
  WorldStep-Once w u (refreshes n) h = record {
    distinct = h.distinct;
    outlasts = h.outlasts;
    counted = h.counted;
  }
  WorldStep-Once w u (starts call d e k t) h =
      let o = moves call e.caller_uid e.command_id accepted running d in
      let went = step-Counted o w k h in
      record {
        distinct = went.distinct;
        outlasts = went.outlasts;
        counted = λ uid id. starts-Counted call d e w uid id k h t;
      }

  -- However the steps of the requests on one ledger interleave, as long as every clock lies in a
  -- window no longer than the retention, each command stays executed at most once.
  pub WorldSteps-Once : (w u : World) → WorldSteps v w u → Once v w → Once v u
  WorldSteps-Once w u here h = h
  WorldSteps-Once w u (next {u = x} p st) h = WorldStep-Once x u st (WorldSteps-Once w x p h)

-- A request of a client, with the service that handles it and what its collaborators answer.
pub record Request : Type 0 where
  pub service : Service
  pub turn : Turn
  pub requester : UserContext
  pub message : Envelope

unfoldable pub handle_all : List Request → World → World
handle_all [] w = w
handle_all (q ∷ qs) w = handle_all qs (handle q.service q.turn q.requester q.message w).1

handle_all-Once :
    (v : Window) (qs : List Request) (w : World)
    → All (λ q. TurnWithin v q.turn) qs
    → Once v w
    → Once v (handle_all qs w)
unfolding handle_all
handle_all-Once v [] w k h = h
handle_all-Once v (q ∷ qs) w k h =
    handle_all-Once v qs _ k.1
      (WorldSteps-Once v w _ (handle-Steps v q.service q.turn k.0 q.requester q.message w) h)

-- From an empty ledger, however many requests arrive and whatever other ledger operations run
-- between their calls, the executor is called at most once for each caller and command id, as long
-- as every clock lies in a window no longer than the retention.
pub handle_all_once :
    (v : Window) (qs : List Request) (w : World) (uid : ℕ) (id : String)
    → All (λ q. TurnWithin v q.turn) qs
    → w.ledger.commands ≡ []
    → w.executed ≡ []
    → executions uid id (handle_all qs w).executed ≤ 1
handle_all_once v qs w uid id k e f =
    let h : Once v w = record {
      distinct = rw e tt;
      outlasts = rw e tt;
      counted = λ u i. inl (rw f refl);
    } in
    let c = (handle_all-Once v qs w k h).counted uid id in
    elim c [ inl z ↦ omega (arith, z) | inr (n, _) ↦ omega (arith, n) ]
