-- ===== src/Tests/Ipc.antt =====
-- Repeated messages on one connection (internal/ipc/server.go).
use cockpit_slurm.Ipc.Session.{request_fingerprint}
use cockpit_slurm.Base.Maps.{lookup}
use cockpit_slurm.Base.{ℕ, suc, ◌≤◌, false, true, ◌≡◌, refl, some, List, [], ◌∷◌, length}
use cockpit_slurm.Protocol.Envelope.{Envelope}
use cockpit_slurm.Ipc.Session.{
  Ports, Session, Frame, received, ended, dispatch_message, serve, max_cached_requests,
}
use cockpit_slurm.Ipc.Replays.{calls, serve_once, dispatch_message_replays}
use cockpit_slurm.Tests.Command.{codec, message}

-- A dispatcher that counts its calls and answers with the message.
abbrev ports : Ports ℕ
ports = record {
  codec = codec "f1";
  decode_json = λ s. some s;
  marshal_content = λ protocol version kind value. some value;
  dispatch = λ m n. (m, suc n);
}

abbrev opened : Session ℕ
opened = record { entries = []; state = 0; dispatched = [] }

abbrev other : Envelope
other = record message { message_id = "m-2" }

abbrev pub frames : List Frame
frames = received message true ∷ received other true ∷ received message true ∷ ended ∷ []

serve_once_example :
    (calls "m-1" (serve ports frames opened).1.dispatched ≤ 1)
    × (length (serve ports frames opened).1.dispatched ≤ max_cached_requests)
serve_once_example = serve_once ports frames opened "m-1" refl refl

dispatch_message_replays_example :
    dispatch_message ports message (serve ports frames (dispatch_message ports message opened).1).1
    ≡ (
      ((dispatch_message ports message opened).0.0, false),
      (serve ports frames (dispatch_message ports message opened).1).1,
    )
unfolding lookup request_fingerprint
dispatch_message_replays_example =
    dispatch_message_replays ports message message "f1" frames opened refl refl refl refl refl
