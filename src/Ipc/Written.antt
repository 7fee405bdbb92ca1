-- ===== src/Ipc/Written.antt =====
-- What a client is sent (internal/ipc/server.go, `writeConnection`).
use mathlib.Core.List.{append_assoc}
use cockpit_slurm.Base.{
  ℕ, ◌≤◌, ◌≡◌, refl, ap, ◌∙◌, sym, inl, inr, Bool, ◌&&◌, Option, none, some, List, [], ◌∷◌, ◌++◌,
  length, length-append, ltb, arith, Bool-cases,
}
use cockpit_slurm.Protocol.Envelope.{Envelope}
use cockpit_slurm.Ipc.Outbound.{
  Line, new_line, enqueue_response, close_line, put_written, give_up, LineStep, enqueues, closes,
  sees_end, takes, writes, fails, LineSteps, here, next,
}

abbrev pub held : Option Envelope → List Envelope
held none = []
held (some e) = e ∷ []

-- The envelopes that the queue took are those that went out, the one in the writer's hand and those
-- that wait, in this order; and no more wait than the queue has room for.
pub record InOrder (l : Line) : Type 0 where
  pub whole : l.accepted ≡ l.written ++ (held l.in_hand ++ l.queue)
  pub room : length l.queue ≤ l.size

enqueue_response-InOrder :
    (b : Bool) (e : Envelope) (l : Line) → InOrder l → InOrder (enqueue_response b e l).1
unfolding enqueue_response
enqueue_response-InOrder b e l i = elim (Bool-cases (l.cancelled && b)) [
  | inl c ↦ rw (enqueue_response, c) i
  | inr c ↦ elim (Bool-cases (ltb (length l.queue) l.size)) [
    | inr f ↦ rw (enqueue_response, c, f) i
    | inl f ↦
        rw (enqueue_response, c, f)
          (record {
            whole =
                ap (λ x. x ++ e ∷ []) i.whole
                ∙ append_assoc l.written (held l.in_hand ++ l.queue) (e ∷ [])
                ∙ ap (λ x. l.written ++ x) (append_assoc (held l.in_hand) l.queue (e ∷ []));
            room = ground (arith, f, length-append l.queue (e ∷ []));
          })
  ]
]

LineStep-InOrder : (l k : Line) → InOrder l → LineStep l k → InOrder k
unfolding close_line put_written give_up
LineStep-InOrder l k i (enqueues b e) = enqueue_response-InOrder b e l i
LineStep-InOrder l k i closes = record { whole = i.whole; room = i.room }
LineStep-InOrder l k i (sees_end c h d) = record { whole = i.whole; room = i.room }
LineStep-InOrder l k i (takes e rest q h d) = record {
  whole = i.whole ∙ ap (λ x. l.written ++ (held x ++ l.queue)) h ∙ ap (λ x. l.written ++ x) q;
  room = ground (arith, i.room, q);
}
LineStep-InOrder l k i (writes e h d) = record {
  whole =
      i.whole
      ∙ ap (λ x. l.written ++ (held x ++ l.queue)) h
      ∙ sym (append_assoc l.written (e ∷ []) l.queue);
  room = i.room;
}
LineStep-InOrder l k i (fails e h d) = record { whole = i.whole; room = i.room }

-- However the reader, the streams, the writer and a close of the connection interleave, the client is
-- sent the envelopes that the queue took in their order, each at most once and none left out before
-- one that was sent, and never do more wait than the queue has room for.
pub LineSteps-InOrder : (size : ℕ) (l : Line) → LineSteps (new_line size) l → InOrder l
unfolding new_line
LineSteps-InOrder size l here = record { whole = refl; room = omega arith }
LineSteps-InOrder size l (next {k} steps st) =
    LineStep-InOrder k l (LineSteps-InOrder size k steps) st
