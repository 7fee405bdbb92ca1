-- ===== src/Daemon/Justified.antt =====
-- What a connection of the daemon can execute (cmd/cockpit-slurm/main.go, internal/ipc/server.go,
-- internal/connection/connection.go, internal/dispatcher/dispatcher.go, internal/command/service.go).
use cockpit_slurm.Base.{
  ℕ, String, ◌≡◌, refl, ap, ◌∙◌, sym, subst, ◌⊎◌, inl, inr, Bool, true, false, Option, some, List,
  [], ◌∷◌, ◌++◌, ◌==◌, if◌then◌else◌, string_eq, string_iff, is_empty, arith, Bool-cases, All,
}
use cockpit_slurm.Base.Maps.{lookup-insert}
use cockpit_slurm.Protocol.Envelope.{Envelope, message_command}
use cockpit_slurm.Identity.Resolver.{UserContext}
use cockpit_slurm.Command.World.{Codec, Execution}
use cockpit_slurm.Command.Authorized.{IsJustified, handle_authorized}
use cockpit_slurm.Connections.Connection.{Connection, Credentials, new_connection}
use cockpit_slurm.Connections.Peers.{IsPeer, new_connection-Opened}
use cockpit_slurm.Dispatch.Router.{
  AuthenticatedHandler, MessageDispatcher, Desk, register_authenticated, is_invalid_envelope,
  dispatch,
}
use cockpit_slurm.Dispatch.Handlers.{new_dispatcher}
use cockpit_slurm.Dispatch.Identified.{dispatch-Identified, dispatcher_error-state}
use cockpit_slurm.Dispatch.Responses.{dispatch-Responds}
use cockpit_slurm.Ipc.Session.{Session, Frame, serve, first_dispatch, dispatch_message}
use cockpit_slurm.Ipc.Replays.{serve_keeps, dispatch_message_cases}
use cockpit_slurm.Daemon.{Front, Daemon, handle_command, message_dispatcher, connection_ports}

-- A message of another type than the one that is registered last goes to the dispatcher before it.
dispatch_other {ℓ} :
    {S : Type ℓ} (c : Codec) (format : ℕ → String) (d : MessageDispatcher S) (kind : String)
    (f : AuthenticatedHandler S) (user : Option UserContext) (m : Envelope) (desk : Desk S)
    → (kind == m.message_type) ≡ false
    → dispatch c format (register_authenticated kind f d) user m desk
      ≡ dispatch c format d user m desk
unfolding dispatch register_authenticated
dispatch_other c format d kind f user m desk e =
    let q = lookup-insert kind m.message_type f d.authenticated_handlers in rw (q, e) refl

-- Either nothing happened to what the handlers stand over, or the command service handled the
-- message for the user.
abbrev Handled : Daemon → Connection → Envelope → Desk Front → Desk Front → Type 0
Handled d n m desk desk' =
    (desk'.state ≡ desk.state) ⊎ (desk'.state ≡ (handle_command d n.user m desk.state).1)

if-state :
    (desk : Desk Front) (b : Bool) (x y : Envelope × Desk Front)
    → b ≡ true
    → x.1.state ≡ desk.state
    → (if b then x else y).1.state ≡ desk.state
if-state desk true x y e h = h
if-state desk false x y e h = absurd (cc)

some_inj : {u v : UserContext} → some u ≡ some v → u ≡ v
some_inj h = cc

-- The dispatcher before the command service is in it does nothing to what the handlers stand over.
before-state :
    (d : Daemon) (user : Option UserContext) (m : Envelope) (desk : Desk Front)
    → (dispatch d.service.codec d.format
        (new_dispatcher (λ f. d.service.nodes) d.service.codec d.greetings d.queries d.capabilities)
        user
        m
        desk).1.state
      ≡ desk.state
unfolding dispatch is_invalid_envelope
before-state d user m desk = elim (Bool-cases (is_empty m.message_id)) [
  | inr e ↦
      (dispatch-Responds (λ f. d.service.nodes) d.service.codec d.format d.greetings d.queries
        d.capabilities user m desk e).1
  | inl e ↦
      if-state desk (is_invalid_envelope m) _ _ (ground (arith, e))
        (dispatcher_error-state d.service.codec d.format m.message_id _ _ _ desk)
]

-- A command reaches the command service, for the user of the connection, or nothing.
command-Handled :
    (d : Daemon) (n : Connection) (others : MessageDispatcher Front) (m : Envelope)
    (desk : Desk Front)
    → Handled d n m desk
        (dispatch d.service.codec d.format
          (register_authenticated m.message_type (handle_command d) others)
          (some n.user)
          m
          desk).1
command-Handled d n others m desk =
    elim (dispatch-Identified d.service.codec d.format others (handle_command d) (some n.user) m
      desk) [
        | inl h ↦ inl h
        | inr (u, q, _, _, _, h) ↦
            inr (h ∙ ap (λ x. (handle_command d x m desk.state).1) (sym (some_inj q)))
      ]

dispatch-Handled :
    (d : Daemon) (n : Connection) (m : Envelope) (desk : Desk Front)
    → Handled d n m desk ((connection_ports d n).dispatch m desk).1
unfolding connection_ports message_dispatcher
dispatch-Handled d n m desk =
    let others =
      new_dispatcher (λ f. d.service.nodes) d.service.codec d.greetings d.queries d.capabilities in
    elim (Bool-cases (message_command == m.message_type)) [
      | inr e ↦ inl (
          ap (λ r. r.1.state)
            (dispatch_other d.service.codec d.format others message_command (handle_command d)
              (some n.user) m desk e)
          ∙ before-state d (some n.user) m desk)
      | inl e ↦
          subst
            (λ k.
              Handled d n m desk
                (dispatch d.service.codec d.format
                  (register_authenticated k (handle_command d) others) (some n.user) m desk).1)
            (sym ((string_iff message_command m.message_type).0 e))
            (command-Handled d n others m desk)
    ]

-- A call of the executor that the command service of the daemon makes in some turn for the user of
-- the connection.
pub record Warranted (d : Daemon) (n : Connection) (e : Execution) : Type 0 where
  pub turn : ℕ
  pub justified : IsJustified d.service (d.turns turn) n.user e

-- The calls that came to the old ones are the connection's own.
abbrev pub OnlyOwn : Daemon → Connection → List Execution → List Execution → Type 0
OnlyOwn d n old now = (calls : List Execution) × (now ≡ calls ++ old) × All (Warranted d n) calls

handle_command-OnlyOwn :
    (d : Daemon) (n : Connection) (m : Envelope) (old : List Execution) (f : Front)
    → OnlyOwn d n old f.world.executed
    → OnlyOwn d n old (handle_command d n.user m f).1.world.executed
unfolding handle_command
handle_command-OnlyOwn d n m old f (calls, q, a) =
    elim (handle_authorized d.service (d.turns f.handled) n.user m f.world) [
      | inl h ↦ (calls, h ∙ q, a)
      | inr (e, h, j) ↦
          (e ∷ calls, h ∙ ap (λ l. e ∷ l) q, (record { turn = f.handled; justified = j }, a))
    ]

dispatch_message-OnlyOwn :
    (d : Daemon) (n : Connection) (old : List Execution) (m : Envelope) (s : Session (Desk Front))
    → OnlyOwn d n old s.state.state.world.executed
    → OnlyOwn d n old (dispatch_message (connection_ports d n) m s).1.state.state.world.executed
unfolding first_dispatch
dispatch_message-OnlyOwn d n old m s h = elim (dispatch_message_cases (connection_ports d n) m s) [
  | inl e ↦ rw e h
  | inr (fp, e, _, _) ↦ rw e (elim (dispatch-Handled d n m s.state) [
    | inl q ↦ rw q h
    | inr q ↦ rw q (handle_command-OnlyOwn d n m old s.state.state h)
  ])
]

owned :
    (d : Daemon) (n : Connection) (c : Credentials)
    → n.user.uid ≡ c.uid
    → (calls : List Execution) → All (Warranted d n) calls
    → All (λ e. (e.caller_uid ≡ c.uid) × Warranted d n e) calls
owned d n c q [] a = tt
owned d n c q (e ∷ calls) (w, a) = ((w.justified.own ∙ q, w), owned d n c q calls a)

-- Whatever frames a connection of the daemon receives, every call of the executor that they add is
-- for the user and group of the kernel's credentials of its socket, a user with a name, and is
-- justified: the authorizer granted the operation to that user as an administrator, the helper takes
-- the arguments, and the node is in the cache.
pub serve-OnlyOwn :
    (d : Daemon) (id : Option String) (session_id : String) (credentials : Option Credentials)
    (users : ℕ → Option String) (n : Connection) (frames : List Frame) (s : Session (Desk Front))
    → new_connection id session_id credentials users ≡ some n
    → (c : Credentials) × (credentials ≡ some c)
      × IsPeer c users n.user
      × (calls : List Execution) × ((serve
            (connection_ports d n)
            frames
            s).1.state.state.world.executed
          ≡ calls ++ s.state.state.world.executed)
      × All (λ e. (e.caller_uid ≡ c.uid) × Warranted d n e) calls
serve-OnlyOwn d id session_id credentials users n frames s h =
    let (c, q, o) = new_connection-Opened id session_id credentials users n h in
    let (calls, e, a) =
      serve_keeps (λ t. OnlyOwn d n s.state.state.world.executed t.state.state.world.executed)
        (connection_ports d n) (dispatch_message-OnlyOwn d n s.state.state.world.executed) frames s
        ([], refl, tt) in
    (c, q, o.is_peer, calls, e, owned d n c o.is_peer.same_uid calls a)
