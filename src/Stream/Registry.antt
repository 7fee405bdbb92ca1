-- ===== src/Stream/Registry.antt =====
-- internal/stream/node_registry.go with `ReplaceSnapshotAndPublish` and `WithSnapshotBoundary` of
-- internal/resource/node_cache.go. The pointers of streams are their places in the order of their
-- creation; a stream is in the registry's map where `registered` is true. The JSON encoder, the clock and
-- the format of a message id are arguments, and so is whether an outbound queue takes an envelope.
use cockpit_slurm.Base.{
  ℕ, ◌+◌, String, Bool, true, false, ◌||◌, Option, none, some, List, [], ◌∷◌, ◌++◌, map, length,
  ◌==◌, ◌!=◌, if◌then◌else◌, nat_eq, string_eq,
}
use cockpit_slurm.Protocol.Envelope.{Envelope, new_envelope, message_event}
use cockpit_slurm.Resource.Node.{Node, NodeChangeBatch, Snapshot}
use cockpit_slurm.Resource.Cache.{NodeCache, uint64, replace_snapshot, snapshot}

pub record Encoder : Type 0 where
  pub encode_snapshot : Snapshot → Option String
  pub encode_batch : NodeChangeBatch → Option String
  pub message_id : ℕ → String
  pub timestamp : String

-- The struct `NodeStream`, with the envelopes that its queue has taken, oldest first. `done` is its
-- channel, which is closed exactly where its `sync.Once` has run.
pub record NodeStream : Type 0 where
  pub id : ℕ
  pub registered : Bool
  pub done : Bool
  pub connection_closed : Bool
  pub delivered : List Envelope

-- The cache and the struct `NodeStreamRegistry`.
pub record Hub : Type 0 where
  pub cache : NodeCache
  pub streams : List NodeStream
  pub message_seq : ℕ

-- `NodeStream.enqueue`
unfoldable pub enqueue : Envelope → Bool → NodeStream → NodeStream × Bool
enqueue e accepted s =
    if s.done
    then (s, false)
    else if accepted
    then (record s { delivered = s.delivered ++ e ∷ [] }, true)
    else (s, false)

-- `NodeStream.Close`
unfoldable pub close : NodeStream → NodeStream
close s =
    if s.done then s else record s { registered = false; done = true; connection_closed = true }

-- `NodeStream.Unregister`
unfoldable pub unregister : NodeStream → NodeStream
unregister s = if s.done then s else record s { registered = false; done = true }

-- What the loop of `Publish` and the one behind it do with a stream.
unfoldable pub offer : Envelope → (ℕ → Bool) → NodeStream → NodeStream
offer e accepts s =
    let (s', ok) = enqueue e (accepts s.id) s in
    if s.registered then (if ok then s' else close (record s' { registered = false })) else s

unfoldable pub next_envelope : Encoder → ℕ → String → Envelope
next_envelope c n payload =
    new_envelope c.timestamp (c.message_id (uint64 (n + 1))) message_event payload

-- The envelope that `Publish` makes of a batch, where it makes one.
unfoldable pub publication : Encoder → NodeChangeBatch → ℕ → Option Envelope
publication c batch n =
    if batch.resource != "node"
      || (batch.event != "changes" || (batch.generation == 0 || length batch.changes == 0))
    then none
    else elim (c.encode_batch batch) [
      | none ↦ none
      | some payload ↦ some (next_envelope c n payload)
    ]

-- `Publish`
unfoldable pub publish : Encoder → NodeChangeBatch → (ℕ → Bool) → Hub → Hub
publish c batch accepts h = elim (publication c batch h.message_seq) [
  | none ↦ h
  | some e ↦ record h {
    message_seq = uint64 (h.message_seq + 1);
    streams = map (offer e accepts) h.streams;
  }
]

-- The stream that `Register` leaves behind the first `enqueue`.
unfoldable pub first_stream : Envelope → Bool → ℕ → NodeStream
first_stream e accepted n =
    let (s, ok) = enqueue e accepted (record {
      id = n;
      registered = true;
      done = false;
      connection_closed = false;
      delivered = [];
    }) in
    if ok then s else close (record s { registered = false })

-- `Register`; where the snapshot cannot be encoded there is no stream.
unfoldable pub register : Encoder → Bool → Hub → Hub
register c accepted h = elim (c.encode_snapshot (snapshot h.cache)) [
  | none ↦ h
  | some payload ↦ record h {
    message_seq = uint64 (h.message_seq + 1);
    streams =
        h.streams
        ++ first_stream (next_envelope c h.message_seq payload) accepted (length h.streams) ∷ [];
  }
]

-- `ReplaceSnapshotAndPublish`
unfoldable pub replace_and_publish : Encoder → List Node → (ℕ → Bool) → Hub → Hub
replace_and_publish c nodes accepts h =
    let (batch, cache') = replace_snapshot nodes h.cache in
    let h' : Hub = record h { cache = cache' } in
    elim batch [ none ↦ h' | some b ↦ publish c b accepts h' ]

-- A method of the stream with this pointer.
unfoldable pub on_stream : ℕ → (NodeStream → NodeStream) → Hub → Hub
on_stream id f h = record h { streams = map (λ s. if s.id == id then f s else s) h.streams }

unfoldable pub close_registered : NodeStream → NodeStream
close_registered s = if s.registered then close (record s { registered = false }) else s

-- `CloseAll`
unfoldable pub close_all : Hub → Hub
close_all h = record h { streams = map close_registered h.streams }
