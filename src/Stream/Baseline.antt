-- ===== src/Stream/Baseline.antt =====
-- What a new stream begins with (internal/stream/node_registry.go, `Register`).
use cockpit_slurm.Base.{String, ◌≡◌, refl, true, some, List, [], ◌∷◌, ◌++◌, length}
use cockpit_slurm.Resource.Cache.{snapshot}
use cockpit_slurm.Stream.Registry.{
  Encoder, NodeStream, Hub, enqueue, first_stream, next_envelope, register,
}
use cockpit_slurm.Stream.Delivery.{nth, StreamOp, run, events, run-delivered}

nth-length {ℓ} : {A : Type ℓ} (xs : List A) (x : A) → nth (length xs) (xs ++ x ∷ []) ≡ some x
nth-length [] x = refl
nth-length (y ∷ xs) x = nth-length xs x

-- A stream whose queue takes the snapshot of the cache, registered once the snapshot is encoded,
-- has been sent, behind any history that leaves it in the registry, that snapshot first, then
-- exactly the events that the history published, in their order.
pub register-run_delivered :
    (c : Encoder) (os : List StreamOp) (h : Hub) (payload : String)
    → c.encode_snapshot (snapshot h.cache) ≡ some payload
    → (s : NodeStream) × (nth (length h.streams) (run c os (register c true h)).streams ≡ some s)
      × (s.registered ≡ true
          → s.delivered ≡ next_envelope c h.message_seq payload ∷ events c os (register c true h))
unfolding first_stream enqueue register next_envelope
register-run_delivered c os h payload e =
    let new = first_stream (next_envelope c h.message_seq payload) true (length h.streams) in
    let at : nth (length h.streams) (register c true h).streams ≡ some new =
      rw (e, register) (nth-length h.streams new) in
    let (s, f, p) = run-delivered c os (register c true h) (length h.streams) new at in
    (s, f, p.taken)
