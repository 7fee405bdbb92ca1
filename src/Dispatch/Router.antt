-- ===== src/Dispatch/Router.antt =====
-- internal/dispatcher/dispatcher.go: `MessageDispatcher` over any handlers. A handler takes the state
-- that it works on and returns it; the format of a message id is an argument.
use cockpit_slurm.Base.{
  ℕ, ◌+◌, ◌%◌, String, Bool, false, ◌||◌, Option, none, some, ◌!=◌, if◌then◌else◌, string_eq,
  is_empty,
}
use cockpit_slurm.Base.Maps.{GoMap, lookup, insert}
use cockpit_slurm.Protocol.Envelope.{Envelope, protocol_name, protocol_version}
use cockpit_slurm.Protocol.Command.{
  ErrorCode, ErrorCategory, invalid_payload, identity_unavailable, unsupported_message_type,
  validation, authentication, protocol,
}
use cockpit_slurm.Identity.Resolver.{UserContext}
use cockpit_slurm.Command.World.{Codec, new_error_envelope}

abbrev pub Handler {ℓ} : Type ℓ → Type ℓ
Handler S = Envelope → S → Envelope × S

abbrev pub AuthenticatedHandler {ℓ} : Type ℓ → Type ℓ
AuthenticatedHandler S = UserContext → Envelope → S → Envelope × S

-- The struct `MessageDispatcher` without its counter, which changes: that stands in `Desk`.
pub record MessageDispatcher {ℓ} (S : Type ℓ) : Type ℓ where
  pub handlers : GoMap (Handler S)
  pub authenticated_handlers : GoMap (AuthenticatedHandler S)

pub record Desk {ℓ} (S : Type ℓ) : Type ℓ where
  pub counter : ℕ
  pub state : S

-- The guards of `dispatch` on the envelope.
unfoldable pub is_invalid_envelope : Envelope → Bool
is_invalid_envelope m =
    (m.protocol != protocol_name || m.version != protocol_version)
    || (is_empty m.message_id || (is_empty m.message_type || is_empty m.payload))

module _ {ℓ} {S : Type ℓ} where
  -- `RegisterAuthenticated` for a handler that is not nil
  unfoldable pub register_authenticated :
      String → AuthenticatedHandler S → MessageDispatcher S → MessageDispatcher S
  register_authenticated kind f d = record d {
    authenticated_handlers = insert kind f d.authenticated_handlers;
  }

  -- `errorEnvelope`, with `nextMessageID` where the message has no id.
  unfoldable pub dispatcher_error :
      Codec
      → (ℕ → String)
      → String
      → ErrorCode
      → ErrorCategory
      → String
      → Desk S
      → Envelope × Desk S
  dispatcher_error c format message_id code category detail desk =
      let n = (desk.counter + 1) % 18446744073709551616 in
      let answer : String → Envelope = λ id. new_error_envelope c id (record {
        code = code;
        category = category;
        message = detail;
        retryable = false;
        command_id = "";
        resource = "";
        target = none;
      }) in
      if is_empty message_id
      then (answer (format n), record desk { counter = n })
      else (answer message_id, desk)

  -- The call of a handler for authenticated users.
  unfoldable pub call_authenticated :
      Codec
      → (ℕ → String)
      → AuthenticatedHandler S
      → Option UserContext
      → Envelope
      → Desk S
      → Envelope × Desk S
  call_authenticated c format f none m desk =
      dispatcher_error c format m.message_id identity_unavailable authentication
        "Unable to determine the authenticated user" desk
  call_authenticated c format f (some user) m desk =
      if is_empty user.username
      then dispatcher_error c format m.message_id identity_unavailable authentication
          "Unable to determine the authenticated user" desk
      else (let (r, state') = f user m desk.state in (r, record desk { state = state' }))

  -- `dispatch`
  unfoldable pub dispatch :
      Codec
      → (ℕ → String)
      → MessageDispatcher S
      → Option UserContext
      → Envelope
      → Desk S
      → Envelope × Desk S
  dispatch c format d user m desk =
      if is_invalid_envelope m
      then dispatcher_error c format m.message_id invalid_payload validation
          "Invalid protocol envelope" desk
      else elim (lookup m.message_type d.authenticated_handlers) [
        | some f ↦ call_authenticated c format f user m desk
        | none ↦ elim (lookup m.message_type d.handlers) [
          | none ↦
              dispatcher_error c format m.message_id unsupported_message_type protocol
                "Message type is not supported" desk
          | some h ↦ (let (r, state') = h m desk.state in (r, record desk { state = state' }))
        ]
      ]
