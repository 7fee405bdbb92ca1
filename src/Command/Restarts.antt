-- ===== src/Command/Restarts.antt =====
-- What a client hears about a command that a restart of the daemon interrupted
-- (internal/ledger/ledger.go, `recoverInterrupted`; internal/command/service.go, `recordResponse`).
use cockpit_slurm.Base.{ℕ, ◌<◌, String, ◌≡◌, refl, ◌∙◌, ap, true, none, some}
use cockpit_slurm.Protocol.Envelope.{Envelope}
use cockpit_slurm.Protocol.Command.{internal, internal_error}
use cockpit_slurm.Ledger.Status.{running, unknown}
use cockpit_slurm.Ledger.Table.{Record, select, is_interrupted, recovered_status}
use cockpit_slurm.Ledger.Store.{Ledger}
use cockpit_slurm.Ledger.Keys.{Distinct, recovered}
use cockpit_slurm.Ledger.History.{open_ledger}
use cockpit_slurm.Ledger.Lifecycle.{restart_kept}
use cockpit_slurm.Command.World.{Service}
use cockpit_slurm.Command.Service.{error_envelope, record_response, stored_error}

recovered_running :
    (now : ℕ) (r : Record)
    → r.status ≡ running
    → recovered now r ≡ record r { status = unknown; updated_at = now }
unfolding is_interrupted recovered_status
recovered_running now r e = rw e refl

record_response_unexplained :
    (s : Service) (m : Envelope) (r : Record)
    → r.status ≡ unknown
    → r.error_payload ≡ none
    → s.codec.unmarshal_error none ≡ none
    → record_response s m r
      ≡ error_envelope s m internal_error internal "Command result is unavailable" true r.command_id
unfolding record_response stored_error
record_response_unexplained s m r e f g = rw (e, f, stored_error, g) refl

-- A restart that finds a live command in "running", whose row has no error payload yet, moves it to
-- "unknown", and the response for the row that the restart leaves is the retryable "internal-error",
-- as long as the JSON package refuses to decode an absent payload.
pub record_response_interrupted :
    (s : Service) (m : Envelope) (now uid : ℕ) (id : String) (l : Ledger) (r : Record)
    → Distinct l.commands
    → select uid id l.commands ≡ some r
    → now < r.expires_at
    → r.status ≡ running
    → r.error_payload ≡ none
    → s.codec.unmarshal_error none ≡ none
    → (r' : Record) × (select uid id (open_ledger now l).commands ≡ some r')
      × (r'.status ≡ unknown)
      × (record_response s m r'
          ≡ error_envelope s m internal_error internal "Command result is unavailable" true
              r.command_id)
record_response_interrupted s m now uid id l r u e h w f g =
    let r' : Record = record r { status = unknown; updated_at = now } in
    (
      r',
      restart_kept uid id r now l u e h ∙ ap some (recovered_running now r w),
      refl,
      record_response_unexplained s m r' refl f g,
    )
