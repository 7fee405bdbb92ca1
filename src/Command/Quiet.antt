-- ===== src/Command/Quiet.antt =====
-- The parts of a request that never call the executor (internal/command/service.go).
use cockpit_slurm.Base.{
  String, ◌≡◌, refl, inl, inr, Bool, true, false, not, none, some, List, [], ◌∷◌, Bool-cases,
  if◌then◌else◌, ◌==◌, string_eq, nat_eq,
}
use cockpit_slurm.Protocol.Envelope.{Envelope}
use cockpit_slurm.Protocol.Command.{ErrorPayload}
use cockpit_slurm.Ledger.Status.{Status, running, succeeded, failed, unknown}
use cockpit_slurm.Ledger.Table.{Record}
use cockpit_slurm.Ledger.Cases.{Result-cases}
use cockpit_slurm.Command.World.{Service, World, Access, Turn, others, lookup_with, transition_with}
use cockpit_slurm.Command.Service.{
  Reply, Plan, persistence_error, await_record, close_with, no_data, is_waiting,
}
use cockpit_slurm.Command.Execute.{
  request_refresh, finish_failed, finish_succeeded, failure_of, success_response,
}

-- No call of the executor.
abbrev pub Quiet : World → World → Type 0
Quiet w u = u.executed ≡ w.executed

pub reply-Quiet :
    (b : Bool) (w : World) (x y : Reply)
    → Quiet w x.1
    → Quiet w y.1
    → Quiet w (if b then x else y).1
reply-Quiet true w x y p q = p
reply-Quiet false w x y p q = q

if-Quiet : (b : Bool) (w x y : World) → Quiet w x → Quiet w y → Quiet w (if b then x else y)
if-Quiet true w x y p q = p
if-Quiet false w x y p q = q

module _ (s : Service) (t : Turn) where
  request_refresh-Quiet : (w : World) → Quiet w (request_refresh s w)
  unfolding request_refresh
  request_refresh-Quiet w = if-Quiet s.has_refresh w _ _ refl refl

  pub persistence_error-Quiet :
      (m : Envelope) (id : String) (w : World) → Quiet w (persistence_error s t m id w).1
  unfolding persistence_error others
  persistence_error-Quiet m id w =
      if-Quiet (others t.recover_before w).ledger.blocked w _ _ refl refl

  pub close_with-Quiet :
      (a : Access) (p : Plan) (expected to : Status) (failure : ErrorPayload) (w : World)
      → Quiet w (close_with s t a p expected to failure w).1
  unfolding close_with transition_with
  close_with-Quiet a p expected to failure w =
      elim (Result-cases
        (transition_with a p.requester.uid p.request.command_id expected to
          (record no_data { error_payload = s.codec.marshal_error failure }) w).0) [
            | inr (x, q) ↦
                rw (q, close_with) (persistence_error-Quiet p.message p.request.command_id _)
            | inl (_, q) ↦ rw (q, close_with) refl
          ]

  pub finish_failed-Quiet :
      (p : Plan) (lost : Bool) (w : World) → Quiet w (finish_failed s t p lost w).1
  unfolding finish_failed transition_with
  finish_failed-Quiet p lost w =
      elim (Result-cases
        (transition_with t.finish_access p.requester.uid p.request.command_id running
          (if lost then unknown else failed)
          (record no_data { error_payload = s.codec.marshal_error (failure_of p lost) }) w).0) [
            | inr (x, q) ↦
                rw (q, finish_failed) (persistence_error-Quiet p.message p.request.command_id _)
            | inl (_, q) ↦
                rw (q, finish_failed) (if-Quiet lost w _ _ (request_refresh-Quiet _) refl)
          ]

  pub finish_succeeded-Quiet : (p : Plan) (w : World) → Quiet w (finish_succeeded s t p w).1
  unfolding finish_succeeded transition_with
  finish_succeeded-Quiet p w =
      elim (Result-cases
        (transition_with t.finish_access p.requester.uid p.request.command_id running succeeded
          (record no_data { result_payload = s.codec.marshal_response (success_response p) })
          w).0) [
            | inr (x, q) ↦
                rw (q, finish_succeeded) (persistence_error-Quiet p.message p.request.command_id _)
            | inl (_, q) ↦ rw (q, finish_succeeded) (request_refresh-Quiet _)
          ]

  pub await_record-Quiet :
      (m : Envelope) (fp : String) (polls : List Access) (r : Record) (w : World)
      → Quiet w (await_record s t m fp polls r w).1
  unfolding await_record lookup_with
  await_record-Quiet m fp [] r w =
      reply-Quiet (not (is_waiting r.status)) w _ _ refl
        (reply-Quiet w.ledger.blocked w _ _ (persistence_error-Quiet m r.command_id w) refl)
  await_record-Quiet m fp (a ∷ polls) r w = reply-Quiet (not (is_waiting r.status)) w _ _ refl (
      reply-Quiet w.ledger.blocked w _ _ (persistence_error-Quiet m r.command_id w)
        (elim (Result-cases (lookup_with a r.caller_uid r.command_id w).0) [
          | inr (x, q) ↦ rw q (persistence_error-Quiet m r.command_id _)
          | inl (none, q) ↦ rw q (persistence_error-Quiet m r.command_id _)
          | inl (some u, q) ↦ elim (Bool-cases (u.request_fingerprint == fp)) [
            | inr f ↦ rw (q, f) refl
            | inl f ↦ rw (q, f) (await_record-Quiet m fp polls u _)
          ]
        ]))
