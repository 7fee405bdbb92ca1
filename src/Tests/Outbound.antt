-- ===== src/Tests/Outbound.antt =====
-- The last response of a connection and its close (internal/ipc/server.go).
use cockpit_slurm.Base.{◌≡◌, refl, true, false, some, [], ◌∷◌}
use cockpit_slurm.Ipc.Outbound.{
  Line, new_line, enqueue_response, close_line, put_written, LineSteps, here, next, enqueues,
  closes, sees_end, takes, writes,
}
use cockpit_slurm.Ipc.Written.{InOrder, LineSteps-InOrder}
use cockpit_slurm.Tests.Command.{message}

abbrev queued : Line
queued = (enqueue_response false message (new_line 32)).1

abbrev sent : Line
sent = put_written message (record queued { queue = []; in_hand = some message })

sending : LineSteps (new_line 32) sent
unfolding enqueue_response new_line
sending =
    next (next (next here (enqueues false message)) (takes message [] refl refl refl))
      (writes message refl refl)

LineSteps-InOrder_example : InOrder sent
LineSteps-InOrder_example = LineSteps-InOrder 32 sent sending

-- The response that the reader queues before it closes the connection, which the writer never
-- takes.
abbrev lost : Line
lost = record (close_line queued) { writer_done = true }

losing : LineSteps (new_line 32) lost
unfolding close_line enqueue_response new_line
losing = next (next (next here (enqueues false message)) closes) (sees_end refl refl refl)

lost_response : (lost.accepted ≡ message ∷ []) × (lost.written ≡ [])
unfolding close_line enqueue_response new_line
lost_response = (refl, refl)
