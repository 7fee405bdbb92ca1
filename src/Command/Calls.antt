-- ===== src/Command/Calls.antt =====
-- The calls that a request makes to the ledger, as steps (internal/command/service.go).
use cockpit_slurm.Base.{
  ℕ, String, inl, inr, Bool, true, false, not, none, some, List, [], ◌∷◌, All, Bool-cases,
  if◌then◌else◌, ◌==◌, string_eq, nat_eq,
}
use cockpit_slurm.Protocol.Envelope.{Envelope}
use cockpit_slurm.Protocol.Command.{ErrorPayload}
use cockpit_slurm.Ledger.Status.{Status}
use cockpit_slurm.Ledger.Table.{TransitionData, Record, Claim}
use cockpit_slurm.Ledger.Cases.{Result-cases}
use cockpit_slurm.Ledger.History.{Op, moves, reserves, looks_up, reconciles, time, step, run}
use cockpit_slurm.Command.World.{
  Service, World, Access, Turn, others, lookup_with, reserve_with, transition_with,
}
use cockpit_slurm.Command.Service.{
  Reply, Plan, persistence_error, await_record, close_with, no_data, is_waiting,
}
use cockpit_slurm.Command.Execute.{request_refresh}
use cockpit_slurm.Command.Steps.{
  Window, Within, OpsWithin, works, refreshes, WorldSteps, here, next, trans-WorldSteps,
  AccessWithin, TurnWithin,
}

module _ (v : Window) where
  abbrev pub Steps : World → World → Type 0
  Steps w u = WorldSteps v w u

  pub run-Steps :
      (os : List Op) (w : World) → OpsWithin v os → Steps w (record w { ledger = run os w.ledger })
  unfolding run
  run-Steps [] w h = here
  run-Steps (o ∷ os) w h =
      trans-WorldSteps (next here (works o h.0))
        (run-Steps os (record w { ledger = step o w.ledger }) h.1)

  -- One call of the ledger behind others' operations.
  pub op-Steps :
      (os : List Op) (o : Op) (w : World)
      → OpsWithin v os
      → Within v (time o)
      → Steps w (record w { ledger = step o (run os w.ledger) })
  op-Steps os o w h k = next (run-Steps os w h) (works o k)

  pub lookup_with-Steps :
      (a : Access) (uid : ℕ) (id : String) (w : World)
      → AccessWithin v a
      → Steps w (lookup_with a uid id w).1
  unfolding lookup_with step
  lookup_with-Steps a uid id w h = op-Steps a.before (looks_up a.call uid id) w h.0 h.1

  pub reserve_with-Steps :
      (a : Access) (c : Claim) (w : World) → AccessWithin v a → Steps w (reserve_with a c w).1
  unfolding reserve_with step
  reserve_with-Steps a c w h = op-Steps a.before (reserves a.call c) w h.0 h.1

  pub transition_with-Steps :
      (a : Access) (uid : ℕ) (id : String) (expected to : Status) (d : TransitionData) (w : World)
      → AccessWithin v a
      → Steps w (transition_with a uid id expected to d w).1
  unfolding transition_with step
  transition_with-Steps a uid id expected to d w h =
      op-Steps a.before (moves a.call uid id expected to d) w h.0 h.1

  pub if-Steps : (b : Bool) (w u x : World) → Steps w u → Steps w x → Steps w (if b then u else x)
  if-Steps true w u x p q = p
  if-Steps false w u x p q = q

  pub reply-Steps :
      (b : Bool) (w : World) (x y : Reply)
      → Steps w x.1
      → Steps w y.1
      → Steps w (if b then x else y).1
  reply-Steps true w x y p q = p
  reply-Steps false w x y p q = q

  pub request_refresh-Steps : (s : Service) (w : World) → Steps w (request_refresh s w)
  unfolding request_refresh
  request_refresh-Steps s w = if-Steps s.has_refresh w _ _ (next here (refreshes _)) here

  module _ (s : Service) (t : Turn) (within : TurnWithin v t) where
    pub persistence_error-Steps :
        (m : Envelope) (id : String) (w : World) → Steps w (persistence_error s t m id w).1
    unfolding persistence_error others step
    persistence_error-Steps m id w =
        if-Steps (run t.recover_before w.ledger).blocked w _ _
          (op-Steps t.recover_before (reconciles t.recovery) w within.others_recover
            within.recovers)
          (run-Steps t.recover_before w within.others_recover)

    pub failed-Steps :
        {w u : World} (m : Envelope) (id : String)
        → Steps w u
        → Steps w (persistence_error s t m id u).1
    failed-Steps m id p = trans-WorldSteps p (persistence_error-Steps m id _)

    pub await_record-Steps :
        (m : Envelope) (fp : String) (polls : List Access) (r : Record) (w : World)
        → All (AccessWithin v) polls
        → Steps w (await_record s t m fp polls r w).1
    unfolding await_record
    await_record-Steps m fp [] r w h =
        reply-Steps (not (is_waiting r.status)) w _ _ here
          (reply-Steps w.ledger.blocked w _ _ (persistence_error-Steps m r.command_id w) here)
    await_record-Steps m fp (a ∷ polls) r w h = reply-Steps (not (is_waiting r.status)) w _ _ here (
        reply-Steps w.ledger.blocked w _ _ (persistence_error-Steps m r.command_id w) (
          let went = lookup_with-Steps a r.caller_uid r.command_id w h.0 in
          elim (Result-cases (lookup_with a r.caller_uid r.command_id w).0) [
            | inr (x, q) ↦ rw q (failed-Steps m r.command_id went)
            | inl (none, q) ↦ rw q (failed-Steps m r.command_id went)
            | inl (some u, q) ↦ elim (Bool-cases (u.request_fingerprint == fp)) [
              | inr f ↦ rw (q, f) went
              | inl f ↦
                  rw (q, f)
                    (trans-WorldSteps went (
                      await_record-Steps m fp polls u (lookup_with a r.caller_uid r.command_id w).1
                        h.1))
            ]
          ]))

    pub close_with-Steps :
        (a : Access) (p : Plan) (expected to : Status) (failure : ErrorPayload) (w : World)
        → AccessWithin v a
        → Steps w (close_with s t a p expected to failure w).1
    unfolding close_with
    close_with-Steps a p expected to failure w h =
        let d = record no_data { error_payload = s.codec.marshal_error failure } in
        let moved = transition_with a p.requester.uid p.request.command_id expected to d w in
        let went = transition_with-Steps a p.requester.uid p.request.command_id expected to d w h in
        elim (Result-cases moved.0) [
          | inr (x, q) ↦ rw (q, close_with) (failed-Steps p.message p.request.command_id went)
          | inl (_, q) ↦ rw (q, close_with) went
        ]
