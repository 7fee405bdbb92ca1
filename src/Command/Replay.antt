-- ===== src/Command/Replay.antt =====
-- A command id that the ledger knows already (internal/command/service.go, `Handle`).
use cockpit_slurm.Base.{
  String, ◌≡◌, refl, ◌∙◌, ap, Bool, true, false, not, some, List, [], ◌∷◌, if◌then◌else◌, ◌==◌,
  string_eq, string_iff, is_empty, arith,
}
use cockpit_slurm.Protocol.Envelope.{Envelope}
use cockpit_slurm.Protocol.Command.{NodeCommandRequestPayload, decode_request}
use cockpit_slurm.Ledger.Table.{Record}
use cockpit_slurm.Ledger.Store.{ok}
use cockpit_slurm.Identity.Resolver.{UserContext}
use cockpit_slurm.Command.World.{Service, World, Access, Turn, lookup_with}
use cockpit_slurm.Command.Service.{Job, await_record, is_waiting, record_response, conflict_error}
use cockpit_slurm.Command.Handle.{handle_job, handle_request, handle}

module _ (s : Service) (t : Turn) (requester : UserContext) (m : Envelope) (w : World) where
  -- The message is a request of an identified user, the gate is open, and the ledger has a record
  -- of the command.
  pub record Known (request : NodeCommandRequestPayload) (canonical : String) (r : Record)
      : Type 0 where
    pub decoded : decode_request (s.codec.decode_strict m.payload) ≡ some request
    pub identified : is_empty requester.username ≡ false
    pub open_gate : w.ledger.blocked ≡ false
    pub encoded : s.codec.marshal_request request ≡ some canonical
    pub found : (lookup_with t.lookup_access requester.uid request.command_id w).0 ≡ ok (some r)

  abbrev job_of : NodeCommandRequestPayload → String → Job
  job_of request canonical = record {
    requester = requester;
    message = m;
    request = request;
    canonical = canonical;
    fingerprint = s.codec.sha256 canonical;
  }

  if_false {ℓ} : {A : Type ℓ} (b : Bool) (x y : A) → b ≡ false → (if b then x else y) ≡ y
  if_false true x y e = ground (arith, e)
  if_false false x y e = refl

  handle-Known :
      (request : NodeCommandRequestPayload) (canonical : String) (r : Record)
      → Known request canonical r
      → handle s t requester m w ≡ handle_job s t (job_of request canonical) w
  unfolding handle handle_request
  handle-Known request canonical r k =
      rw (k.decoded, handle)
        (if_false (is_empty requester.username) _ _ k.identified
          ∙ if_false w.ledger.blocked _ _ k.open_gate
          ∙ rw k.encoded refl)

  Known-handle :
      (request : NodeCommandRequestPayload) (canonical : String) (r : Record)
      → Known request canonical r
      → handle s t requester m w ≡ (
          let w' = (lookup_with t.lookup_access requester.uid request.command_id w).1 in
          if r.request_fingerprint == s.codec.sha256 canonical
          then await_record s t m (s.codec.sha256 canonical) t.polls r w'
          else (conflict_error s m request.command_id, w'))
  unfolding handle_job
  Known-handle request canonical r k =
      handle-Known request canonical r k ∙ rw (k.found, handle_job) refl

  if_true {ℓ} : {A : Type ℓ} (b : Bool) (x y : A) → b ≡ true → (if b then x else y) ≡ x
  if_true true x y e = refl
  if_true false x y e = ground (arith, e)

  await_done :
      (fp : String) (polls : List Access) (r : Record) (u : World)
      → is_waiting r.status ≡ false
      → await_record s t m fp polls r u ≡ (record_response s m r, u)
  unfolding await_record
  await_done fp [] r u d = if_true (not (is_waiting r.status)) _ _ (ap not d)
  await_done fp (a ∷ polls) r u d = if_true (not (is_waiting r.status)) _ _ (ap not d)

  -- A repeated request whose record has left the waiting states is answered from the record: the
  -- response is rebuilt from what is stored, and beyond the lookup nothing happens.
  pub handle_replays :
      (request : NodeCommandRequestPayload) (canonical : String) (r : Record)
      → Known request canonical r
      → r.request_fingerprint ≡ s.codec.sha256 canonical
      → is_waiting r.status ≡ false
      → handle s t requester m w ≡ (
        record_response s m r,
        (lookup_with t.lookup_access requester.uid request.command_id w).1,
      )
  handle_replays request canonical r k f d =
      Known-handle request canonical r k
      ∙ (if_true _ _ _ ((string_iff r.request_fingerprint (s.codec.sha256 canonical)).1 f)
          ∙ await_done (s.codec.sha256 canonical) t.polls r _ d)
