-- ===== src/Command/Refines.antt =====
-- `Handle` refines the steps of `Command.Steps` (internal/command/service.go).
use cockpit_slurm.Base.{
  inl, inr, Bool, not, ◌||◌, none, some, ◌∷◌, Option-cases, if◌then◌else◌, ◌==◌, ◌!=◌, string_eq,
  nat_eq, is_empty,
}
use cockpit_slurm.Base.Maps.{lookup}
use cockpit_slurm.Protocol.Envelope.{Envelope}
use cockpit_slurm.Protocol.Command.{NodeCommandRequestPayload, decode_request}
use cockpit_slurm.NodeHelper.Scontrol.{build_scontrol_args}
use cockpit_slurm.Ledger.Status.{
  accepted, running, succeeded, failed, unknown, authorization_pending,
}
use cockpit_slurm.Ledger.Store.{Error, command_id_conflict}
use cockpit_slurm.Ledger.Cases.{Result-cases}
use cockpit_slurm.Ledger.History.{step}
use cockpit_slurm.Resource.Cache.{get}
use cockpit_slurm.Identity.Resolver.{UserContext}
use cockpit_slurm.Authorization.Authorizer.{Decision}
use cockpit_slurm.Command.World.{Service, World, Turn, lookup_with, reserve_with, transition_with}
use cockpit_slurm.Command.Service.{Job, Plan, no_data, operation_for, valid_against_registry}
use cockpit_slurm.Command.Execute.{
  finish_failed, finish_succeeded, execute, execution_of, start, running_data, failure_of,
  success_response,
}
use cockpit_slurm.Command.Handle.{
  accept, authorization_failure, authorize_command, reserve, reserve_error, check_plan, admit,
  handle_job, handle_request, handle, claim_of, plan_of, is_about, accepted_data,
}
use cockpit_slurm.Command.Steps.{
  Window, starts, WorldSteps, here, next, trans-WorldSteps, TurnWithin,
}
use cockpit_slurm.Command.Cases.{Outcome-cases, Helper-cases}
use cockpit_slurm.Command.Calls.{
  Steps, lookup_with-Steps, reserve_with-Steps, transition_with-Steps, if-Steps, reply-Steps,
  run-Steps, failed-Steps, await_record-Steps, close_with-Steps, persistence_error-Steps,
  request_refresh-Steps,
}

module _ (v : Window) where
  module _ (s : Service) (t : Turn) (within : TurnWithin v t) where
    finish_failed-Steps :
        (p : Plan) (lost : Bool) (w : World) → Steps v w (finish_failed s t p lost w).1
    unfolding finish_failed
    finish_failed-Steps p lost w =
        let went =
          transition_with-Steps v t.finish_access p.requester.uid p.request.command_id running
            (if lost then unknown else failed)
            (record no_data { error_payload = s.codec.marshal_error (failure_of p lost) }) w
            within.finishes in
        elim (Result-cases
          (transition_with t.finish_access p.requester.uid p.request.command_id running
            (if lost then unknown else failed)
            (record no_data { error_payload = s.codec.marshal_error (failure_of p lost) }) w).0) [
              | inr (x, q) ↦
                  rw (q, finish_failed)
                    (failed-Steps v s t within p.message p.request.command_id went)
              | inl (_, q) ↦
                  rw (q, finish_failed)
                    (if-Steps v lost w _ _ (trans-WorldSteps went (request_refresh-Steps v s _))
                      went)
            ]

    finish_succeeded-Steps : (p : Plan) (w : World) → Steps v w (finish_succeeded s t p w).1
    unfolding finish_succeeded
    finish_succeeded-Steps p w =
        let went =
          transition_with-Steps v t.finish_access p.requester.uid p.request.command_id running
            succeeded
            (record no_data { result_payload = s.codec.marshal_response (success_response p) }) w
            within.finishes in
        elim (Result-cases
          (transition_with t.finish_access p.requester.uid p.request.command_id running succeeded
            (record no_data { result_payload = s.codec.marshal_response (success_response p) })
            w).0) [
              | inr (x, q) ↦
                  rw (q, finish_succeeded)
                    (failed-Steps v s t within p.message p.request.command_id went)
              | inl (_, q) ↦
                  rw (q, finish_succeeded) (trans-WorldSteps went (request_refresh-Steps v s _))
            ]

    -- What follows the call of the executor, from the world that holds the call.
    execute-Steps :
        (p : Plan) (w : World)
        → WorldSteps v (record w { executed = execution_of p ∷ w.executed }) (execute s t p w).1
    unfolding execute
    execute-Steps p w = elim (Outcome-cases t.outcome) [
      | inl e ↦ rw (e, execute) (finish_succeeded-Steps p _)
      | inr (lost, e) ↦ rw (e, execute) (finish_failed-Steps p lost _)
    ]

    start-Steps : (p : Plan) (w : World) → Steps v w (start s t p w).1
    unfolding start step transition_with execute execution_of
    start-Steps p w =
        let a = t.run_access in
        let moved =
          transition_with a p.requester.uid p.request.command_id accepted running (running_data s)
            w in
        elim (Result-cases moved.0) [
          | inr (x, q) ↦
              rw (q, start)
                (failed-Steps v s t within p.message p.request.command_id (
                  transition_with-Steps v a p.requester.uid p.request.command_id accepted running
                    (running_data s) w within.runs))
          | inl (_, q) ↦
              rw (q, start)
                (trans-WorldSteps
                  (next (run-Steps v a.before w within.runs.0)
                    (starts a.call (running_data s) (execution_of p) within.runs.1 q))
                  (execute-Steps p moved.1))
        ]

    accept-Steps : (p : Plan) (d : Decision) (w : World) → Steps v w (accept s t p d w).1
    unfolding accept
    accept-Steps p d w =
        let went =
          transition_with-Steps v t.accept_access p.requester.uid p.request.command_id
            authorization_pending accepted (accepted_data s t p d) w within.accepts in
        elim (Result-cases
          (transition_with t.accept_access p.requester.uid p.request.command_id
            authorization_pending accepted (accepted_data s t p d) w).0) [
              | inr (x, q) ↦
                  rw (q, accept) (failed-Steps v s t within p.message p.request.command_id went)
              | inl (_, q) ↦ rw (q, accept) (trans-WorldSteps went (start-Steps p _))
            ]

    authorize_command-Steps : (p : Plan) (w : World) → Steps v w (authorize_command s t p w).1
    unfolding authorize_command authorization_failure
    authorize_command-Steps p w = elim (Option-cases (t.authorizer p.requester p.operation_id)) [
      | inl e ↦
          rw (e, authorize_command)
            (close_with-Steps v s t within t.refuse_access p _ _ _ w within.refuses)
      | inr (d, e) ↦
          rw (e, authorize_command)
            (reply-Steps v (not (is_about p d)) w _ _
              (close_with-Steps v s t within t.refuse_access p _ _ _ w within.refuses)
              (reply-Steps v (not d.allowed) w _ _
                (close_with-Steps v s t within t.refuse_access p _ _ _ w within.refuses)
                (reply-Steps v (d.user_context.admin_level != "admin") w _ _
                  (close_with-Steps v s t within t.refuse_access p _ _ _ w within.refuses)
                  (accept-Steps p d w))))
    ]

    reserve_error-Steps :
        (p : Plan) (w u : World) (e : Error) → Steps v w u → Steps v w (reserve_error s t p e u).1
    unfolding reserve_error
    reserve_error-Steps p w u command_id_conflict h = h
    reserve_error-Steps p w u _ h = failed-Steps v s t within p.message p.request.command_id h

    reserve-Steps : (p : Plan) (w : World) → Steps v w (reserve s t p w).1
    unfolding reserve
    reserve-Steps p w =
        let went = reserve_with-Steps v t.reserve_access (claim_of s p) w within.claims in
        elim (Result-cases (reserve_with t.reserve_access (claim_of s p) w).0) [
          | inr (e, q) ↦ rw (q, reserve) (reserve_error-Steps p w _ e went)
          | inl ((r, created), q) ↦
              rw (q, reserve)
                (reply-Steps v created w _ _ (trans-WorldSteps went (authorize_command-Steps p _)) (
                  trans-WorldSteps went (
                    await_record-Steps v s t within p.message p.fingerprint t.polls r _
                      within.polls_all)))
        ]

    check_plan-Steps : (p : Plan) (w : World) → Steps v w (check_plan s t p w).1
    unfolding check_plan
    check_plan-Steps p w =
        elim (Helper-cases
          (build_scontrol_args p.operation_id p.request.target.node_name p.reason)) [
            | inr (e, q) ↦ rw (q, check_plan) here
            | inl (args, q) ↦ elim (Option-cases (get p.request.target.node_name s.nodes)) [
              | inl f ↦ rw (q, f, check_plan) here
              | inr (n, f) ↦
                  rw (q, f, check_plan)
                    (reply-Steps v (is_empty s.execution.username || is_empty s.execution.boundary)
                      w _ _ here (reserve-Steps p w))
            ]
          ]

    admit-Steps : (j : Job) (w : World) → Steps v w (admit s t j w).1
    unfolding admit
    admit-Steps j w = elim (Option-cases (operation_for j.request.parameters.state)) [
      | inl e ↦ rw (e, admit) here
      | inr (op, e) ↦ elim (Option-cases (lookup op s.registry)) [
        | inl f ↦ rw (e, f, admit) here
        | inr (entry, f) ↦
            rw (e, f, admit)
              (reply-Steps v
                (entry.resource != j.request.resource || entry.command != j.request.command) w _ _
                here
                (reply-Steps v (not (valid_against_registry entry j.request)) w _ _ here
                  (check_plan-Steps (plan_of j op entry) w)))
      ]
    ]

    handle_job-Steps : (j : Job) (w : World) → Steps v w (handle_job s t j w).1
    unfolding handle_job
    handle_job-Steps j w =
        let went =
          lookup_with-Steps v t.lookup_access j.requester.uid j.request.command_id w within.looks in
        elim (Result-cases (lookup_with t.lookup_access j.requester.uid j.request.command_id w).0) [
          | inr (e, q) ↦
              rw (q, handle_job) (failed-Steps v s t within j.message j.request.command_id went)
          | inl (none, q) ↦ rw (q, handle_job) (trans-WorldSteps went (admit-Steps j _))
          | inl (some r, q) ↦
              rw (q, handle_job)
                (reply-Steps v (r.request_fingerprint == j.fingerprint) w _ _
                  (trans-WorldSteps went (
                    await_record-Steps v s t within j.message j.fingerprint t.polls r _
                      within.polls_all))
                  went)
        ]

    handle_request-Steps :
        (requester : UserContext) (m : Envelope) (request : NodeCommandRequestPayload) (w : World)
        → Steps v w (handle_request s t requester m request w).1
    unfolding handle_request
    handle_request-Steps requester m request w =
        reply-Steps v (is_empty requester.username) w _ _ here (
          reply-Steps v w.ledger.blocked w _ _
            (persistence_error-Steps v s t within m request.command_id w)
            (elim (Option-cases (s.codec.marshal_request request)) [
              | inl e ↦ rw e here
              | inr (canonical, e) ↦ rw e (handle_job-Steps _ w)
            ]))

    -- The handler of a command does nothing to the ledger, the executor and the refreshes beyond the
    -- steps of the ledger, and calls the executor only in one step with a successful transition of the
    -- command's record from "accepted" to "running", as long as every clock lies in the window.
    pub handle-Steps :
        (requester : UserContext) (m : Envelope) (w : World)
        → WorldSteps v w (handle s t requester m w).1
    unfolding handle
    handle-Steps requester m w =
        elim (Option-cases (decode_request (s.codec.decode_strict m.payload))) [
          | inl e ↦ rw (e, handle) here
          | inr (request, e) ↦ rw (e, handle) (handle_request-Steps requester m request w)
        ]
