-- ===== src/Command/Authorized.antt =====
-- What stands behind a call of the executor (internal/command/service.go).
use cockpit_slurm.Base.{
  String, ◌≡◌, refl, ◌⊎◌, inl, inr, Bool, true, false, not, ◌||◌, none, some, List, ◌∷◌,
  Option-cases, if◌then◌else◌, ◌==◌, ◌!=◌, string_eq, nat_eq, nat_test_iff, string_iff, is_empty,
  arith,
}
use cockpit_slurm.Base.Maps.{lookup}
use cockpit_slurm.Protocol.Envelope.{Envelope}
use cockpit_slurm.Protocol.Command.{NodeCommandRequestPayload, decode_request}
use cockpit_slurm.NodeHelper.Scontrol.{HelperResult, build_scontrol_args}
use cockpit_slurm.Ledger.Status.{accepted, running, authorization_pending}
use cockpit_slurm.Ledger.Store.{Error, command_id_conflict}
use cockpit_slurm.Ledger.Cases.{Result-cases}
use cockpit_slurm.Resource.Node.{Node}
use cockpit_slurm.Resource.Cache.{get}
use cockpit_slurm.Identity.Resolver.{UserContext}
use cockpit_slurm.Authorization.Authorizer.{Decision}
use cockpit_slurm.Command.World.{
  Service, Execution, World, Turn, lookup_with, reserve_with, transition_with,
}
use cockpit_slurm.Command.Service.{Reply, Job, Plan, operation_for, valid_against_registry}
use cockpit_slurm.Command.Execute.{execute, execution_of, start, running_data}
use cockpit_slurm.Command.Handle.{
  accept, authorization_failure, authorize_command, reserve, reserve_error, check_plan, admit,
  handle_job, handle_request, handle, claim_of, plan_of, is_about, accepted_data,
}
use cockpit_slurm.Command.Cases.{Outcome-cases, Helper-cases}
use cockpit_slurm.Command.Quiet.{
  persistence_error-Quiet, close_with-Quiet, finish_failed-Quiet, finish_succeeded-Quiet,
  await_record-Quiet,
}

-- The call is the requester's own, the authorizer granted its operation to this very requester as an
-- administrator, its arguments passed the helper's validation, and its node is in the cache.
pub record IsJustified (s : Service) (t : Turn) (requester : UserContext) (e : Execution)
    : Type 0 where
  pub own : e.caller_uid ≡ requester.uid
  pub decision : Decision
  pub asked : t.authorizer requester e.operation_id ≡ some decision
  pub granted : decision.allowed ≡ true
  pub same_user : decision.user_context.uid ≡ requester.uid
  pub by_admin : decision.user_context.admin_level ≡ "admin"
  pub args : List String
  pub valid : build_scontrol_args e.operation_id e.node_name e.reason ≡ HelperResult.ok args
  pub node : Node
  pub known : get e.node_name s.nodes ≡ some node

about_uid : (p : Plan) (d : Decision) → is_about p d ≡ true → d.user_context.uid ≡ p.requester.uid
unfolding is_about
about_uid p d h = ground (arith, nat_test_iff d.user_context.uid p.requester.uid)

module _ (s : Service) (t : Turn) where
  -- Nothing is executed, or one call that fits.
  abbrev Effect : (Execution → Type 0) → World → World → Type 0
  Effect f w u = (u.executed ≡ w.executed) ⊎ ((e : Execution) × (u.executed ≡ e ∷ w.executed) × f e)

  reply-Effect :
      (f : Execution → Type 0) (b : Bool) (w : World) (x y : Reply)
      → (b ≡ true → Effect f w x.1)
      → (b ≡ false → Effect f w y.1)
      → Effect f w (if b then x else y).1
  reply-Effect f true w x y p q = p refl
  reply-Effect f false w x y p q = q refl

  -- Once the executor is called, the request goes on without another call.
  execute-executed :
      (p : Plan) (w : World) → (execute s t p w).1.executed ≡ execution_of p ∷ w.executed
  unfolding execute
  execute-executed p w = elim (Outcome-cases t.outcome) [
    | inl e ↦ rw (e, execute) (finish_succeeded-Quiet s t p _)
    | inr (lost, e) ↦ rw (e, execute) (finish_failed-Quiet s t p lost _)
  ]

  start-Effect :
      (f : Execution → Type 0) (p : Plan) (w : World)
      → f (execution_of p)
      → Effect f w (start s t p w).1
  unfolding start transition_with
  start-Effect f p w h =
      elim (Result-cases
        (transition_with t.run_access p.requester.uid p.request.command_id accepted running
          (running_data s) w).0) [
            | inr (x, q) ↦
                inl (rw (q, start) (persistence_error-Quiet s t p.message p.request.command_id _))
            | inl (_, q) ↦ inr (execution_of p, rw (q, start) (execute-executed p _), h)
          ]

  accept-Effect :
      (f : Execution → Type 0) (p : Plan) (d : Decision) (w : World)
      → f (execution_of p)
      → Effect f w (accept s t p d w).1
  unfolding accept transition_with
  accept-Effect f p d w h =
      elim (Result-cases
        (transition_with t.accept_access p.requester.uid p.request.command_id authorization_pending
          accepted (accepted_data s t p d) w).0) [
            | inr (x, q) ↦
                inl (rw (q, accept) (persistence_error-Quiet s t p.message p.request.command_id _))
            | inl (_, q) ↦ rw (q, accept) (start-Effect f p _ h)
          ]

  -- The executor is called only behind a decision for this requester that grants the operation to an
  -- administrator.
  authorize_command-Effect :
      (f : Execution → Type 0) (p : Plan) (w : World)
      → ((d : Decision)
          → t.authorizer p.requester p.operation_id ≡ some d
          → is_about p d ≡ true
          → d.allowed ≡ true
          → d.user_context.admin_level ≡ "admin"
          → f (execution_of p))
      → Effect f w (authorize_command s t p w).1
  unfolding authorize_command authorization_failure
  authorize_command-Effect f p w h = elim (Option-cases (t.authorizer p.requester p.operation_id)) [
    | inl e ↦ rw (e, authorize_command) (inl (close_with-Quiet s t t.refuse_access p _ _ _ w))
    | inr (d, e) ↦
        rw (e, authorize_command)
          (reply-Effect f (not (is_about p d)) w _ _
            (λ _. inl (close_with-Quiet s t t.refuse_access p _ _ _ w))
            (λ a.
              reply-Effect f (not d.allowed) w _ _
                (λ _. inl (close_with-Quiet s t t.refuse_access p _ _ _ w))
                (λ b.
                  reply-Effect f (d.user_context.admin_level != "admin") w _ _
                    (λ _. inl (close_with-Quiet s t t.refuse_access p _ _ _ w))
                    (λ c. accept-Effect f p d w (
                      h d e (ground arith) (ground arith)
                        (ground (arith, string_iff d.user_context.admin_level "admin")))))))
  ]

  reserve_error-Effect :
      (f : Execution → Type 0) (p : Plan) (e : Error) (w : World)
      → Effect f w (reserve_error s t p e w).1
  unfolding reserve_error
  reserve_error-Effect f p command_id_conflict w = inl refl
  reserve_error-Effect f p _ w = inl (persistence_error-Quiet s t p.message p.request.command_id w)

  reserve-Effect :
      (f : Execution → Type 0) (p : Plan) (w : World)
      → ((d : Decision)
          → t.authorizer p.requester p.operation_id ≡ some d
          → is_about p d ≡ true
          → d.allowed ≡ true
          → d.user_context.admin_level ≡ "admin"
          → f (execution_of p))
      → Effect f w (reserve s t p w).1
  unfolding reserve reserve_with
  reserve-Effect f p w h = elim (Result-cases (reserve_with t.reserve_access (claim_of s p) w).0) [
    | inr (e, q) ↦ rw (q, reserve) (reserve_error-Effect f p e _)
    | inl ((r, created), q) ↦
        rw (q, reserve)
          (reply-Effect f created w _ _ (λ _. authorize_command-Effect f p _ h)
            (λ _. inl (await_record-Quiet s t p.message p.fingerprint t.polls r _)))
  ]

  check_plan-Effect :
      (p : Plan) (w : World) → Effect (IsJustified s t p.requester) w (check_plan s t p w).1
  unfolding check_plan execution_of
  check_plan-Effect p w =
      elim (Helper-cases (build_scontrol_args p.operation_id p.request.target.node_name p.reason)) [
        | inr (e, q) ↦ rw (q, check_plan) (inl refl)
        | inl (args, q) ↦ elim (Option-cases (get p.request.target.node_name s.nodes)) [
          | inl g ↦ rw (q, g, check_plan) (inl refl)
          | inr (n, g) ↦
              rw (q, g, check_plan)
                (reply-Effect (IsJustified s t p.requester)
                  (is_empty s.execution.username || is_empty s.execution.boundary) w _ _
                  (λ _. inl refl)
                  (λ _. reserve-Effect (IsJustified s t p.requester) p w (λ d a b c l. record {
                    own = refl;
                    decision = d;
                    asked = a;
                    granted = c;
                    same_user = about_uid p d b;
                    by_admin = l;
                    args = args;
                    valid = q;
                    node = n;
                    known = g;
                  })))
        ]
      ]

  admit-Effect : (j : Job) (w : World) → Effect (IsJustified s t j.requester) w (admit s t j w).1
  unfolding admit plan_of
  admit-Effect j w = elim (Option-cases (operation_for j.request.parameters.state)) [
    | inl e ↦ rw (e, admit) (inl refl)
    | inr (op, e) ↦ elim (Option-cases (lookup op s.registry)) [
      | inl f ↦ rw (e, f, admit) (inl refl)
      | inr (entry, f) ↦
          rw (e, f, admit)
            (reply-Effect (IsJustified s t j.requester)
              (entry.resource != j.request.resource || entry.command != j.request.command) w _ _
              (λ _. inl refl)
              (λ _.
                reply-Effect (IsJustified s t j.requester)
                  (not (valid_against_registry entry j.request)) w _ _ (λ _. inl refl)
                  (λ _. check_plan-Effect (plan_of j op entry) w)))
    ]
  ]

  handle_job-Effect :
      (j : Job) (w : World) → Effect (IsJustified s t j.requester) w (handle_job s t j w).1
  unfolding handle_job lookup_with
  handle_job-Effect j w =
      elim (Result-cases (lookup_with t.lookup_access j.requester.uid j.request.command_id w).0) [
        | inr (e, q) ↦
            inl (rw (q, handle_job) (persistence_error-Quiet s t j.message j.request.command_id _))
        | inl (none, q) ↦ rw (q, handle_job) (admit-Effect j _)
        | inl (some r, q) ↦
            rw (q, handle_job)
              (reply-Effect (IsJustified s t j.requester) (r.request_fingerprint == j.fingerprint) w
                _ _ (λ _. inl (await_record-Quiet s t j.message j.fingerprint t.polls r _))
                (λ _. inl refl))
      ]

  handle_request-Effect :
      (requester : UserContext) (m : Envelope) (request : NodeCommandRequestPayload) (w : World)
      → Effect (IsJustified s t requester) w (handle_request s t requester m request w).1
  unfolding handle_request
  handle_request-Effect requester m request w =
      reply-Effect (IsJustified s t requester) (is_empty requester.username) w _ _ (λ _. inl refl)
        (λ _.
          reply-Effect (IsJustified s t requester) w.ledger.blocked w _ _
            (λ _. inl (persistence_error-Quiet s t m request.command_id w))
            (λ _. elim (Option-cases (s.codec.marshal_request request)) [
              | inl e ↦ rw e (inl refl)
              | inr (canonical, e) ↦ rw e (handle_job-Effect _ w)
            ]))

  -- One request calls the executor at most once, and then the call is the requester's own, the
  -- authorizer granted its operation to this very requester as an administrator, its arguments passed
  -- the helper's validation, and its node is in the cache.
  pub handle_authorized :
      (requester : UserContext) (m : Envelope) (w : World)
      → ((handle s t requester m w).1.executed ≡ w.executed)
        ⊎ ((e : Execution) × ((handle s t requester m w).1.executed ≡ e ∷ w.executed)
            × IsJustified s t requester e)
  unfolding handle
  handle_authorized requester m w =
      elim (Option-cases (decode_request (s.codec.decode_strict m.payload))) [
        | inl e ↦ rw (e, handle) (inl refl)
        | inr (request, e) ↦ rw (e, handle) (handle_request-Effect requester m request w)
      ]
