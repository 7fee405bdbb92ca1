-- ===== src/Ipc/Outbound.antt =====
-- internal/ipc/server.go: the outbound queue of a connection, `writeConnection` and
-- `writeConnectionResponse`, with the steps of the reader, the streams and the writer interleaved.
-- Where a `select` finds several cases ready, any of them may run.
use cockpit_slurm.Base.{
  ℕ, ◌≡◌, Bool, true, false, ◌&&◌, Option, none, some, List, [], ◌∷◌, ◌++◌, length, ltb,
  if◌then◌else◌,
}
use cockpit_slurm.Protocol.Envelope.{Envelope}

-- The queue and the connection under it. `accepted` are the envelopes that the queue has taken so
-- far; `in_hand` is the one that the writer encodes, or has failed to; `written` went out.
pub record Line : Type 0 where
  pub size : ℕ
  pub queue : List Envelope
  pub accepted : List Envelope
  pub in_hand : Option Envelope
  pub written : List Envelope
  pub cancelled : Bool
  pub socket_closed : Bool
  pub writer_done : Bool

unfoldable pub new_line : ℕ → Line
new_line size = record {
  size = size;
  queue = [];
  accepted = [];
  in_hand = none;
  written = [];
  cancelled = false;
  socket_closed = false;
  writer_done = false;
}

-- The function `enqueue` of `serveConnection`; the flag tells whether its `select` takes the end of
-- the context where the queue has room as well.
unfoldable pub enqueue_response : Bool → Envelope → Line → Bool × Line
enqueue_response prefers_end e l =
    if l.cancelled && prefers_end
    then (false, l)
    else if ltb (length l.queue) l.size
    then (true, record l { queue = l.queue ++ e ∷ []; accepted = l.accepted ++ e ∷ [] })
    else (false, l)

-- `Connection.Close`
unfoldable pub close_line : Line → Line
close_line l = record l { cancelled = true; socket_closed = true }

-- The end of a round of `writeConnection` that has encoded its envelope.
unfoldable pub put_written : Envelope → Line → Line
put_written e l = record l { in_hand = none; written = l.written ++ e ∷ [] }

-- The end of `writeConnection` behind an error of the encoder.
unfoldable pub give_up : Line → Line
give_up l = close_line (record l { writer_done = true })

-- One step of the reader or a stream, of whoever closes the connection, or of the writer.
pub data LineStep (l : Line) : Line → Type 0 where
  enqueues : (prefers_end : Bool) (e : Envelope) → LineStep l (enqueue_response prefers_end e l).1
  closes : LineStep l (close_line l)
  sees_end :
      l.cancelled ≡ true
      → l.in_hand ≡ none
      → l.writer_done ≡ false
      → LineStep l (record l { writer_done = true })
  takes :
      (e : Envelope) (rest : List Envelope)
      → l.queue ≡ e ∷ rest
      → l.in_hand ≡ none
      → l.writer_done ≡ false
      → LineStep l (record l { queue = rest; in_hand = some e })
  writes :
      (e : Envelope) → l.in_hand ≡ some e → l.writer_done ≡ false → LineStep l (put_written e l)
  fails : (e : Envelope) → l.in_hand ≡ some e → l.writer_done ≡ false → LineStep l (give_up l)

pub data LineSteps (l : Line) : Line → Type 0 where
  here : LineSteps l l
  next : {k m : Line} → LineSteps l k → LineStep k m → LineSteps l m

-- What `writeConnectionResponse` returns, on whether its envelope was queued, and on what it
-- receives first: the result of the encoder, or the end of the context.
unfoldable pub response_written : Bool → Option Bool → Bool
response_written false first = false
response_written true none = false
response_written true (some encoded) = encoded
