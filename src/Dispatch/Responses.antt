-- ===== src/Dispatch/Responses.antt =====
-- The responses of the daemon's own dispatcher (internal/dispatcher/dispatcher.go, internal/service).
use cockpit_slurm.Base.{
  ℕ, String, ◌≡◌, refl, ◌∙◌, sym, subst, inl, inr, Bool, true, false, Option, none, some, [], ◌==◌,
  if◌then◌else◌, nat_eq, string_eq, is_empty, arith, Bool-cases, Option-cases,
}
use cockpit_slurm.Base.Maps.{GoMap, lookup, insert, lookup-insert}
use cockpit_slurm.Protocol.Envelope.{Envelope, new_envelope, message_capabilities_request}
use cockpit_slurm.Protocol.Command.{ErrorCode, ErrorCategory}
use cockpit_slurm.Identity.Resolver.{UserContext}
use cockpit_slurm.Resource.Cache.{NodeCache}
use cockpit_slurm.Command.World.{Codec, new_error_envelope}
use cockpit_slurm.Service.Query.{QueryCodec}
use cockpit_slurm.Service.Capabilities.{CapabilitiesHandler}
use cockpit_slurm.Dispatch.Router.{
  Handler, AuthenticatedHandler, MessageDispatcher, Desk, register_authenticated, dispatcher_error,
  is_invalid_envelope, call_authenticated, dispatch,
}
use cockpit_slurm.Dispatch.Handlers.{
  Greetings, handle_hello, handle_ping, register_handler, new_dispatcher,
}
use cockpit_slurm.Dispatch.Answers.{
  greet-Answers, handle_query-Answers, handle_authenticated-Answers,
}

if_true {ℓ} : {A : Type ℓ} (b : Bool) (x y : A) → b ≡ true → (if b then x else y) ≡ x
if_true true x y h = refl
if_true false x y h = absurd (cc)

lookup-insert_same {ℓ} :
    {V : Type ℓ} (k j : String) (v : V) (m : GoMap V)
    → (k == j) ≡ true
    → lookup j (insert k v m) ≡ some v
lookup-insert_same k j v m s = lookup-insert k j v m ∙ if_true (k == j) (some v) (lookup j m) s

module _ {S : Type 0} where
  -- A response to the message, on an unchanged state.
  abbrev Answers : Envelope → S → Envelope × S → Type 0
  Answers m s (r, s') = (r.message_id ≡ m.message_id) × (s' ≡ s)

  -- A handler that answers every message.
  abbrev Answering : Handler S → Type 0
  Answering h = (m : Envelope) (s : S) → Answers m s (h m s)

  -- Every handler of a map answers.
  abbrev AllAnswering : GoMap (Handler S) → Type 0
  AllAnswering m = (k : String) (h : Handler S) → lookup k m ≡ some h → Answering h

  some_inj : {f g : Handler S} → some f ≡ some g → f ≡ g
  some_inj h = cc

  register_handler-Answering :
      (k : String) (h : Handler S) (d : MessageDispatcher S)
      → Answering h
      → AllAnswering d.handlers
      → AllAnswering (register_handler k h d).handlers
  unfolding register_handler
  register_handler-Answering k h d a all j f e = elim (Bool-cases (k == j)) [
    | inl s ↦
        let q : some h ≡ some f = sym (lookup-insert_same k j h d.handlers s) ∙ e in
        subst Answering (some_inj q) a
    | inr s ↦ all j f (ground (arith, e, lookup-insert k j h d.handlers, s))
  ]

module _ {S : Type 0} (nodes : S → NodeCache) where
  new_dispatcher-Answering :
      (c : Codec) (g : Greetings) (q : QueryCodec) (h : CapabilitiesHandler)
      → AllAnswering (new_dispatcher nodes c g q h).handlers
  unfolding new_dispatcher register_authenticated handle_hello handle_ping lookup
  new_dispatcher-Answering c g q h =
      register_handler-Answering _ _ _ (λ m s. (handle_query-Answers q (nodes s) m, refl))
        (register_handler-Answering _ _ _ (λ m s. (greet-Answers c _ g.marshal_ping m, refl))
          (register_handler-Answering _ _ _ (λ m s. (greet-Answers c _ g.marshal_hello m, refl))
            (λ k f e. absurd (cc))))

module _ {S : Type 0} where
  -- A response to the message from a dispatcher over an unchanged state.
  abbrev pub Responds : Envelope → Desk S → Envelope × Desk S → Type 0
  Responds m desk (r, desk') = (r.message_id ≡ m.message_id) × (desk'.state ≡ desk.state)

  -- An error envelope of the dispatcher for a message with an id.
  dispatcher_error-Answers :
      (c : Codec) (format : ℕ → String) (m : Envelope) (code : ErrorCode) (category : ErrorCategory)
      (detail : String) (desk : Desk S)
      → is_empty m.message_id ≡ false
      → Responds m desk (dispatcher_error c format m.message_id code category detail desk)
  unfolding dispatcher_error new_error_envelope new_envelope
  dispatcher_error-Answers c format m code category detail desk n =
      rw (n, dispatcher_error) (refl, refl)

  if-Responds :
      (m : Envelope) (desk : Desk S) (b : Bool) (x y : Envelope × Desk S)
      → Responds m desk x
      → Responds m desk y
      → Responds m desk (if b then x else y)
  if-Responds m desk true x y p q = p
  if-Responds m desk false x y p q = q

  lookup_single :
      (j k : String) (v : AuthenticatedHandler S)
      → (j == k) ≡ false
      → lookup k (insert j v []) ≡ none
  unfolding lookup insert
  lookup_single j k v s = ground (arith, s)

  none_left : (k : String) (f : AuthenticatedHandler S) → none ≡ some f → ⊥
  none_left k f h = cc

  -- A handler for authenticated users that answers every message.
  abbrev AuthAnswering : AuthenticatedHandler S → Type 0
  AuthAnswering f = (u : UserContext) → Answering (f u)

  auth_inj : {f g : AuthenticatedHandler S} → some f ≡ some g → f ≡ g
  auth_inj h = cc

module _ {S : Type 0} (nodes : S → NodeCache) where
  new_dispatcher-AuthAnswering :
      (c : Codec) (g : Greetings) (q : QueryCodec) (h : CapabilitiesHandler) (k : String)
      (f : AuthenticatedHandler S)
      → lookup k (new_dispatcher nodes c g q h).authenticated_handlers ≡ some f
      → AuthAnswering f
  unfolding new_dispatcher register_authenticated register_handler
  new_dispatcher-AuthAnswering c g q h k f e =
      elim (Bool-cases (message_capabilities_request == k)) [
        | inl s ↦
            subst AuthAnswering
              (auth_inj (sym (lookup-insert_same message_capabilities_request k _ [] s) ∙ e))
              (λ u m s. (handle_authenticated-Answers h u m, refl))
        | inr s ↦
            absurd (none_left k f (sym (lookup_single message_capabilities_request k _ s) ∙ e))
      ]

module _ {S : Type 0} where
  call_authenticated-Responds :
      (c : Codec) (format : ℕ → String) (f : AuthenticatedHandler S) (user : Option UserContext)
      (m : Envelope) (desk : Desk S)
      → is_empty m.message_id ≡ false
      → AuthAnswering f
      → Responds m desk (call_authenticated c format f user m desk)
  unfolding call_authenticated
  call_authenticated-Responds c format f none m desk n a =
      dispatcher_error-Answers c format m _ _ _ desk n
  call_authenticated-Responds c format f (some u) m desk n a =
      if-Responds m desk (is_empty u.username) _ _
        (dispatcher_error-Answers c format m _ _ _ desk n) (a u m desk.state)

module _ {S : Type 0} (nodes : S → NodeCache) where
  -- Every message with an id that comes to the dispatcher that the daemon starts with, whether or not
  -- it is valid, of a known type and from a known user, is answered under its own id, and leaves the
  -- state behind it as it was.
  pub dispatch-Responds :
      (c : Codec) (format : ℕ → String) (g : Greetings) (q : QueryCodec) (h : CapabilitiesHandler)
      (user : Option UserContext) (m : Envelope) (desk : Desk S)
      → is_empty m.message_id ≡ false
      → Responds m desk (dispatch c format (new_dispatcher nodes c g q h) user m desk)
  unfolding dispatch
  dispatch-Responds c format g q h user m desk n =
      if-Responds m desk (is_invalid_envelope m) _ _
        (dispatcher_error-Answers c format m _ _ _ desk n)
        (elim (Option-cases
          (lookup m.message_type (new_dispatcher nodes c g q h).authenticated_handlers)) [
            | inr (f, e) ↦ rw e (
                call_authenticated-Responds c format f user m desk n
                  (new_dispatcher-AuthAnswering nodes c g q h m.message_type f e))
            | inl e ↦
                rw e
                  (elim (Option-cases
                    (lookup m.message_type (new_dispatcher nodes c g q h).handlers)) [
                      | inl k ↦ rw k (dispatcher_error-Answers c format m _ _ _ desk n)
                      | inr (f, k) ↦
                          rw k
                            (new_dispatcher-Answering nodes c g q h m.message_type f k m desk.state)
                    ])
          ])
