-- ===== src/Ipc/Session.antt =====
-- internal/ipc/server.go: `requestReplayCache`, `decodeErrorEnvelope` and the read loop of
-- `serveConnection`. The dispatcher and its state are arguments, and so are the
-- JSON package and SHA-256; the decoder's results come as a list of frames.
use cockpit_slurm.Base.{
  ℕ, String, Bool, true, false, Option, none, some, List, [], ◌∷◌, length, leb, ◌==◌, if◌then◌else◌,
  string_eq, is_empty,
}
use cockpit_slurm.Base.Maps.{GoMap, lookup, insert}
use cockpit_slurm.Protocol.Envelope.{Envelope}
use cockpit_slurm.Protocol.Command.{
  ErrorCode, ErrorCategory, invalid_payload, message_id_conflict, unsupported_message_type,
  internal_error, validation, conflict, internal, protocol,
}
use cockpit_slurm.Command.World.{Codec, new_error_envelope}

abbrev pub max_cached_requests : ℕ
max_cached_requests = 4096

pub record CachedRequest : Type 0 where
  pub fingerprint : String
  pub response : Envelope

-- What a connection calls: the JSON package, where a decoded value is a text again, SHA-256 and
-- `DispatchWithUser`.
pub record Ports {ℓ} (S : Type ℓ) : Type ℓ where
  pub codec : Codec
  pub decode_json : String → Option String
  pub marshal_content : String → String → String → String → Option String
  pub dispatch : Envelope → S → Envelope × S

-- The cache of a connection, the state behind the dispatcher, and the messages that it was called
-- with, newest first.
pub record Session {ℓ} (S : Type ℓ) : Type ℓ where
  pub entries : GoMap CachedRequest
  pub state : S
  pub dispatched : List Envelope

unfoldable pub refusal : Codec → String → ErrorCode → ErrorCategory → String → Envelope
refusal c message_id code category detail = new_error_envelope c message_id (record {
  code = code;
  category = category;
  message = detail;
  retryable = false;
  command_id = "";
  resource = "";
  target = none;
})

module _ {ℓ} {S : Type ℓ} where
  -- `requestFingerprint`: neither the message id nor the timestamp counts.
  unfoldable pub request_fingerprint : Ports S → Envelope → Option String
  request_fingerprint p m = elim (p.decode_json m.payload) [
    | none ↦ none
    | some value ↦ elim (p.marshal_content m.protocol m.version m.message_type value) [
      | none ↦ none
      | some canonical ↦ some (p.codec.sha256 canonical)
    ]
  ]

  -- A call of the dispatcher, and the entry for its response.
  unfoldable pub first_dispatch : Ports S → String → Envelope → Session S → Envelope × Session S
  first_dispatch p fp m s =
      let (r, state') = p.dispatch m s.state in
      (
        r,
        record s {
          entries = insert m.message_id (record { fingerprint = fp; response = r }) s.entries;
          state = state';
          dispatched = m ∷ s.dispatched;
        },
      )

  -- `requestReplayCache.Dispatch`: the response, and whether the connection is closed behind it.
  unfoldable pub dispatch_message : Ports S → Envelope → Session S → (Envelope × Bool) × Session S
  dispatch_message p m s = elim (request_fingerprint p m) [
    | none ↦ (
      (refusal p.codec m.message_id invalid_payload validation "Invalid protocol message", false),
      s,
    )
    | some fp ↦ elim (lookup m.message_id s.entries) [
      | some previous ↦ if previous.fingerprint == fp then ((previous.response, false), s) else (
        (
          refusal p.codec m.message_id message_id_conflict conflict
              "Message ID was already used for a different request",
          false,
        ),
        s,
      )
      | none ↦
          if leb max_cached_requests (length s.entries)
          then (
            (
              refusal p.codec m.message_id internal_error internal
                  "Connection request limit reached",
              true,
            ),
            s,
          )
          else (let (r, s') = first_dispatch p fp m s in ((r, false), s'))
    ]
  ]

-- `decodeErrorEnvelope`; the flag is `errors.Is(err, ErrUnknownMessage)`.
unfoldable pub decode_error_envelope : Codec → String → Bool → Envelope
decode_error_envelope c message_id is_unknown =
    let id = if is_empty message_id then "ERR" else message_id in
    if is_unknown
    then refusal c id unsupported_message_type protocol "Message type is not supported"
    else refusal c id invalid_payload validation "Invalid protocol message"

-- A result of `Decode`: a message, the end of the stream, or an error with the message's id and
-- kind; with a message and an error comes whether the outbound queue takes the response.
pub data Frame : Type 0 where
  received : Envelope → Bool → Frame
  ended : Frame
  broken : String → Bool → Bool → Frame

module _ {ℓ} {S : Type ℓ} where
  -- The read loop of `serveConnection`: the responses that were queued and the session. The list
  -- ends where the context of the connection does.
  unfoldable pub serve : Ports S → List Frame → Session S → List Envelope × Session S
  serve p [] s = ([], s)
  serve p (ended ∷ frames) s = ([], s)
  serve p (broken id is_unknown queued ∷ frames) s =
      (if queued then decode_error_envelope p.codec id is_unknown ∷ [] else [], s)
  serve p (received m queued ∷ frames) s =
      let ((r, closes), s') = dispatch_message p m s in
      let (rest, s'') = serve p frames s' in
      if queued then (if closes then (r ∷ [], s') else (r ∷ rest, s'')) else ([], s')
