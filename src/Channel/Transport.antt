-- ===== src/Channel/Transport.antt =====
-- internal/channel/channel.go. What `Read` and `Write` return is an argument, in the order of the
-- calls; the mutex makes `Close` and `isClosed` one step each.
use cockpit_slurm.Base.{zero, suc, suc}
use cockpit_slurm.Base.{
  ℕ, Bool, true, false, not, Option, none, some, List, [], ◌∷◌, ◌++◌, length, ◌==◌, if◌then◌else◌,
  nat_eq,
}

-- The struct `Channel`: whether it is closed, its context is cancelled, a connection is set, and
-- that one is closed.
pub record Channel : Type 0 where
  pub closed : Bool
  pub cancelled : Bool
  pub has_conn : Bool
  pub conn_closed : Bool

-- `New`
unfoldable pub new_channel : Channel
new_channel = record { closed = false; cancelled = false; has_conn = false; conn_closed = false }

-- `SetConn`
unfoldable pub set_conn : Channel → Channel
set_conn c = record c { has_conn = true }

-- `Channel.Close`
unfoldable pub close_channel : Channel → Channel
close_channel c = if c.closed then c else record c {
  closed = true;
  cancelled = true;
  conn_closed = if c.has_conn then true else c.conn_closed;
}

-- The errors that the code tells apart: the end of the input, a closed transport, and others.
pub data TransportError : Type 0 where
  eof closed_transport other_error : TransportError

-- How `Write` ends: without an error, or with one behind some of the bytes.
pub data Write : Type 0 where
  wrote : Write
  write_error : ℕ → TransportError → Write

-- One round of the loop: whether the channel is closed by then, the bytes that `Read` returns, its
-- error, and what a `Write` of them does.
pub record Round : Type 0 where
  pub closed_by_then : Bool
  pub read : List ℕ
  pub error : Option TransportError
  pub write : Write

-- How `copy` ends; the last two hold the error that they wrap. `copying` is where no more rounds are
-- given.
pub data CopyResult : Type 0 where
  copying finished channel_closed : CopyResult
  write_failed read_failed : TransportError → CopyResult

unfoldable pub take_bytes : ℕ → List ℕ → List ℕ
take_bytes zero bytes = []
take_bytes (suc n) [] = []
take_bytes (suc n) (b ∷ bytes) = b ∷ take_bytes n bytes

unfoldable pub read_result : TransportError → CopyResult
read_result eof = finished
read_result closed_transport = channel_closed
read_result other_error = read_failed other_error

unfoldable pub write_result : TransportError → CopyResult
write_result closed_transport = channel_closed
write_result e = write_failed e

-- The end of a round behind the `Write`: the error of the read, or the rounds that follow.
unfoldable pub after_read :
    Option TransportError → List ℕ → List ℕ × CopyResult → List ℕ × CopyResult
after_read none bytes (out, result) = (bytes ++ out, result)
after_read (some e) bytes following = (bytes, read_result e)

-- One round in front of what follows it.
unfoldable pub copy_round : Round → List ℕ × CopyResult → List ℕ × CopyResult
copy_round r following =
    if length r.read == 0 then after_read r.error [] following else elim r.write [
      | wrote ↦ after_read r.error r.read following
      | write_error n e ↦ (take_bytes n r.read, write_result e)
    ]

-- The loop of `copy`: the bytes that the destination took, and the result.
unfoldable pub copy_loop : List Round → List ℕ × CopyResult
copy_loop [] = ([], copying)
copy_loop (r ∷ rounds) =
    let following = copy_loop rounds in
    if r.closed_by_then then ([], channel_closed) else copy_round r following

-- `copy`
unfoldable pub copy : Channel → List Round → List ℕ × CopyResult
copy c rounds = if c.closed then ([], channel_closed) else copy_loop rounds

-- The test of `Run` on an error, negated.
unfoldable pub is_benign : CopyResult → Bool
is_benign (read_failed other_error) = false
is_benign (write_failed other_error) = false
is_benign _ = true

-- Both ends and the channel between them.
pub record Wires : Type 0 where
  pub cockpit_closed : Bool
  pub bridge_closed : Bool
  pub channel : Channel

unfoldable pub close_wires : Wires → Wires
close_wires w = record {
  cockpit_closed = true;
  bridge_closed = true;
  channel = close_channel w.channel;
}

-- `Run`, on the results of the two copies in the order in which they arrive; with an error it returns
-- the result that holds it. The flag tells whether the bridge is a connection.
unfoldable pub run_channel : Bool → CopyResult → CopyResult → Wires → Option CopyResult × Wires
run_channel bridge_is_conn first second w =
    let start : Wires = record w {
      channel = if bridge_is_conn then set_conn w.channel else w.channel;
    } in
    if not (is_benign first)
    then (some first, close_wires (close_wires start))
    else if not (is_benign second)
    then (some second, close_wires (close_wires (close_wires start)))
    else (none, close_wires (close_wires start))
