-- ===== src/Dispatch/Identified.antt =====
-- Who reaches a handler for authenticated users (internal/dispatcher/dispatcher.go).
use cockpit_slurm.Base.{
  ℕ, String, ◌≡◌, refl, ◌⊎◌, inl, inr, Bool, true, false, Option, none, some, if◌then◌else◌,
  is_empty, Bool-cases, string_eq, string_iff, arith,
}
use cockpit_slurm.Base.Maps.{lookup, lookup-insert}
use cockpit_slurm.Protocol.Envelope.{Envelope}
use cockpit_slurm.Protocol.Command.{ErrorCode, ErrorCategory}
use cockpit_slurm.Identity.Resolver.{UserContext}
use cockpit_slurm.Command.World.{Codec}
use cockpit_slurm.Dispatch.Router.{
  AuthenticatedHandler, MessageDispatcher, Desk, register_authenticated, dispatcher_error,
  is_invalid_envelope, call_authenticated, dispatch,
}

module _ {ℓ} {S : Type ℓ} (c : Codec) (format : ℕ → String) where
  pub dispatcher_error-state :
      (id : String) (code : ErrorCode) (category : ErrorCategory) (detail : String) (desk : Desk S)
      → (dispatcher_error c format id code category detail desk).1.state ≡ desk.state
  unfolding dispatcher_error
  dispatcher_error-state id code category detail desk = elim (Bool-cases (is_empty id)) [
    | inl e ↦ rw e refl
    | inr e ↦ rw e refl
  ]

  -- Either no handler has touched the state, or the handler did, for an identified user and a valid
  -- envelope.
  abbrev pub Identified :
      AuthenticatedHandler S → Option UserContext → Envelope → Desk S → Envelope × Desk S → Type ℓ
  Identified f user m desk result =
      (result.1.state ≡ desk.state)
      ⊎ ((u : UserContext) × (user ≡ some u)
          × (is_empty u.username ≡ false)
          × (is_invalid_envelope m ≡ false)
          × (result.0 ≡ (f u m desk.state).0)
          × (result.1.state ≡ (f u m desk.state).1))

  call_authenticated-Identified :
      (f : AuthenticatedHandler S) (user : Option UserContext) (m : Envelope) (desk : Desk S)
      → is_invalid_envelope m ≡ false
      → Identified f user m desk (call_authenticated c format f user m desk)
  unfolding call_authenticated
  call_authenticated-Identified f none m desk v =
      inl (dispatcher_error-state m.message_id _ _ _ desk)
  call_authenticated-Identified f (some u) m desk v = elim (Bool-cases (is_empty u.username)) [
    | inl e ↦ rw e (inl (dispatcher_error-state m.message_id _ _ _ desk))
    | inr e ↦ inr (u, refl, e, v, (rw e refl), (rw e refl))
  ]

  if-Identified :
      (f : AuthenticatedHandler S) (user : Option UserContext) (m : Envelope) (desk : Desk S)
      (b : Bool) (x y : Envelope × Desk S)
      → (b ≡ true → Identified f user m desk x)
      → (b ≡ false → Identified f user m desk y)
      → Identified f user m desk (if b then x else y)
  if-Identified f user m desk true x y p q = p refl
  if-Identified f user m desk false x y p q = q refl

  -- Once a handler for authenticated users is registered for a message type, a message of that type
  -- reaches no other handler, and reaches that one only in a valid envelope from a connection with
  -- a user name, whose identity it is given.
  pub dispatch-Identified :
      (d : MessageDispatcher S) (f : AuthenticatedHandler S) (user : Option UserContext)
      (m : Envelope) (desk : Desk S)
      → Identified f user m desk
          (dispatch c format (register_authenticated m.message_type f d) user m desk)
  unfolding dispatch register_authenticated
  dispatch-Identified d f user m desk =
      let found : lookup m.message_type
            (register_authenticated m.message_type f d).authenticated_handlers
          ≡ some f =
        ground (
          arith,
          string_iff m.message_type m.message_type,
          lookup-insert m.message_type m.message_type f d.authenticated_handlers,
        ) in
      if-Identified f user m desk (is_invalid_envelope m) _ _
        (λ _. inl (dispatcher_error-state m.message_id _ _ _ desk))
        (λ e. rw found (call_authenticated-Identified f user m desk e))
