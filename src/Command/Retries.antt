-- ===== src/Command/Retries.antt =====
-- The answer to a retry of a command that was executed (internal/command/service.go, `Handle` and
-- `recordResponse`).
use cockpit_slurm.Ledger.Store.{Ledger}
use cockpit_slurm.Base.{String, ◌≡◌, Bool, true, false, some}
use cockpit_slurm.Protocol.Envelope.{Envelope}
use cockpit_slurm.Protocol.Command.{ledger_persistence_failed, internal}
use cockpit_slurm.Ledger.Status.{Status}
use cockpit_slurm.Ledger.Table.{Record, select}
use cockpit_slurm.Ledger.Keys.{Distinct}
use cockpit_slurm.Ledger.Finality.{is_finished}
use cockpit_slurm.Command.World.{Codec, Service, World, Turn}
use cockpit_slurm.Command.Service.{Reply, Plan, error_envelope, record_response}
use cockpit_slurm.Command.Execute.{success_response, failure_of}

-- The JSON package encodes what a plan can be answered with, and reads the errors back.
pub record ReadsBack (c : Codec) (p : Plan) : Type 0 where
  pub response_encodes : (x : String) × (c.marshal_response (success_response p) ≡ some x)
  pub error_encodes :
      (lost : Bool)
      → (x : String) × (c.marshal_error (failure_of p lost) ≡ some x)
        × (c.unmarshal_error (some x) ≡ some (failure_of p lost))

module _ (s : Service) (t : Turn) (p : Plan) where
  -- The answer for a command whose end could not be stored.
  abbrev pub storage_failed : Envelope
  storage_failed =
      error_envelope s p.message ledger_persistence_failed internal
        "Command storage is unavailable; do not retry automatically" false p.request.command_id

  -- The command has a final record, made of the one before, from which every message gets the reply.
  abbrev Stored : Record → Reply → Type 0
  Stored old (answer, w) =
      (r : Record) × (select p.requester.uid p.request.command_id w.ledger.commands ≡ some r)
      × Distinct w.ledger.commands
      × (is_finished r.status ≡ true)
      × (r.expires_at ≡ old.expires_at)
      × ((m : Envelope) → record_response s m r ≡ record answer { message_id = m.message_id })
