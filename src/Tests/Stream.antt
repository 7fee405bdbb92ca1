-- ===== src/Tests/Stream.antt =====
-- One stream and one refresh (internal/stream/node_registry.go).
use cockpit_slurm.Base.{ℕ, Bool, true, false, ◌≡◌, refl, some, List, [], ◌∷◌}
use cockpit_slurm.Resource.Cache.{new_node_cache}
use cockpit_slurm.Stream.Registry.{Encoder, NodeStream, Hub, next_envelope, register}
use cockpit_slurm.Stream.Delivery.{StreamOp, refreshes, registers, closes, nth, run, events}
use cockpit_slurm.Stream.Baseline.{register-run_delivered}
use cockpit_slurm.Tests.Resource.{node}

abbrev pub encoder : Encoder
encoder = record {
  encode_snapshot = λ s. some "snapshot";
  encode_batch = λ b. some "changes";
  message_id = λ n. "NODE-000000000001";
  timestamp = "2026-01-01T00:00:00Z";
}

abbrev stream : NodeStream
stream = record {
  id = 0;
  registered = true;
  done = false;
  connection_closed = false;
  delivered = [];
}

abbrev hub : Hub
hub = record { cache = new_node_cache; streams = stream ∷ []; message_seq = 0 }

abbrev takes_all : ℕ → Bool
takes_all id = true

-- A second stream comes, the node appears, the first stream is closed, and the node disappears.
abbrev history : List StreamOp
history = registers true ∷ refreshes (node ∷ []) takes_all ∷ closes 0 ∷ refreshes [] takes_all ∷ []

register-run_delivered_example :
    (s : NodeStream) × (nth 1 (run encoder history (register encoder true hub)).streams ≡ some s)
    × (s.registered ≡ true
        → s.delivered
          ≡ next_envelope encoder 0 "snapshot" ∷ events encoder history (register encoder true hub))
register-run_delivered_example = register-run_delivered encoder history hub "snapshot" refl
