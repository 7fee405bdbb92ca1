-- ===== src/Connections/Peers.antt =====
-- Who a handler is told is behind a connection (internal/connection/connection.go,
-- internal/dispatcher/dispatcher.go).
use cockpit_slurm.Base.{
  ℕ, String, ◌≡◌, refl, ap, ◌∙◌, sym, subst, ◌⊎◌, inl, inr, false, Option, none, some, [], nat_eq,
  is_empty, arith, Option-cases,
}
use cockpit_slurm.Identity.Resolver.{UserContext}
use cockpit_slurm.Protocol.Envelope.{Envelope}
use cockpit_slurm.Command.World.{Codec}
use cockpit_slurm.Connections.Connection.{
  active, PeerIdentity, Connection, Credentials, peer_identity_for_credentials, peer_identity,
  user_of_peer, connection_of, new_connection,
}
use cockpit_slurm.Dispatch.Router.{
  AuthenticatedHandler, MessageDispatcher, Desk, register_authenticated, is_invalid_envelope,
  dispatch,
}
use cockpit_slurm.Dispatch.Identified.{dispatch-Identified}

-- The user whom the kernel's credentials and the user database name.
pub record IsPeer (c : Credentials) (users : ℕ → Option String) (u : UserContext) : Type 0 where
  pub same_uid : u.uid ≡ c.uid
  pub same_gid : u.gid ≡ c.gid
  pub known : users c.uid ≡ some u.username
  pub named : is_empty u.username ≡ false
  pub unprivileged : u.capabilities ≡ []

peer_identity-IsPeer :
    (c : Credentials) (users : ℕ → Option String) (p : PeerIdentity)
    → peer_identity_for_credentials c users ≡ some p
    → IsPeer c users (user_of_peer p)
unfolding peer_identity_for_credentials user_of_peer
peer_identity-IsPeer c users p h = elim (Option-cases (users c.uid)) [
  | inl e ↦ absurd (ground (arith, e))
  | inr (name, e) ↦ record {
    same_uid = ground (arith, e);
    same_gid = ground (arith, e);
    known = e ∙ ap some (ground (arith, e));
    named = ground (arith, e);
    unprivileged = refl;
  }
]

-- What a new connection is: active, with the peer of its socket as its user.
pub record Opened (c : Credentials) (users : ℕ → Option String) (n : Connection) : Type 0 where
  pub is_peer : IsPeer c users n.user
  pub same_session : n.session.user_context ≡ n.user
  pub owns_session : n.session.connection_id ≡ n.id
  pub is_active : n.state ≡ active
  pub open_socket : n.socket_closed ≡ false

pub new_connection-Opened :
    (id : Option String) (session_id : String) (credentials : Option Credentials)
    (users : ℕ → Option String) (n : Connection)
    → new_connection id session_id credentials users ≡ some n
    → (c : Credentials) × (credentials ≡ some c) × Opened c users n
unfolding new_connection peer_identity
new_connection-Opened none session_id credentials users n h = absurd (cc)
new_connection-Opened (some id) session_id none users n h = absurd (cc)
new_connection-Opened (some id) session_id (some c) users n h =
    elim (Option-cases (peer_identity_for_credentials c users)) [
      | inl e ↦ absurd (ground (arith, e))
      | inr (p, e) ↦
          let q : connection_of id session_id p ≡ n = ground (arith, e) in
          (
            c,
            refl,
            subst (Opened c users) q (
                unfold connection_of in
                record {
                  is_peer = peer_identity-IsPeer c users p e;
                  same_session = refl;
                  owns_session = refl;
                  is_active = refl;
                  open_socket = refl;
                }),
          )
    ]

some_inj : {u v : UserContext} → some u ≡ some v → u ≡ v
some_inj h = cc

-- A handler for authenticated users that a message of a connection reaches is told the peer of the
-- socket: the user and group of the kernel's credentials, under the nonempty name that the user
-- database has for that user, without capabilities. Otherwise the handler's state stays as it was.
pub dispatch-IsPeer {ℓ} :
    {S : Type ℓ} (codec : Codec) (format : ℕ → String) (d : MessageDispatcher S)
    (f : AuthenticatedHandler S) (m : Envelope) (desk : Desk S) (id : Option String)
    (session_id : String) (credentials : Option Credentials) (users : ℕ → Option String)
    (n : Connection)
    → new_connection id session_id credentials users ≡ some n
    → ((dispatch codec format
          (register_authenticated m.message_type f d)
          (some n.user)
          m
          desk).1.state
        ≡ desk.state)
      ⊎ ((c : Credentials) × (credentials ≡ some c)
          × IsPeer c users n.user
          × (is_invalid_envelope m ≡ false)
          × ((dispatch codec format
                (register_authenticated m.message_type f d)
                (some n.user)
                m
                desk).1.state
              ≡ (f n.user m desk.state).1))
dispatch-IsPeer codec format d f m desk id session_id credentials users n h =
    let (c, e, o) = new_connection-Opened id session_id credentials users n h in
    elim (dispatch-Identified codec format d f (some n.user) m desk) [
      | inl s ↦ inl s
      | inr (u, q, _, valid, _, s) ↦
          inr (c, e, o.is_peer, valid, s ∙ ap (λ x. (f x m desk.state).1) (sym (some_inj q)))
    ]
