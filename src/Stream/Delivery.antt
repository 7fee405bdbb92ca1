-- ===== src/Stream/Delivery.antt =====
-- What a stream delivers (internal/stream/node_registry.go).
use cockpit_slurm.Base.{
  ℕ, zero, suc, ◌≡◌, refl, sym, ap, Bool, true, false, inl, inr, Option, none, some, List, [], ◌∷◌,
  ◌++◌, map, ◌==◌, if◌then◌else◌, nat_eq, arith, Option-cases,
}
use cockpit_slurm.Protocol.Envelope.{Envelope}
use cockpit_slurm.Resource.Node.{Node, NodeChangeBatch}
use cockpit_slurm.Resource.Cache.{replace_snapshot, snapshot}
use cockpit_slurm.Stream.Registry.{
  Encoder, NodeStream, Hub, enqueue, close, unregister, offer, publication, publish, register,
  replace_and_publish, on_stream, close_registered, close_all,
}

pub data StreamOp : Type 0 where
  refreshes : List Node → (ℕ → Bool) → StreamOp
  registers : Bool → StreamOp
  closes unregisters : ℕ → StreamOp
  closes_all : StreamOp

unfoldable pub step : Encoder → StreamOp → Hub → Hub
step c (refreshes nodes accepts) h = replace_and_publish c nodes accepts h
step c (registers accepted) h = register c accepted h
step c (closes id) h = on_stream id close h
step c (unregisters id) h = on_stream id unregister h
step c closes_all h = close_all h

unfoldable pub run : Encoder → List StreamOp → Hub → Hub
run c [] h = h
run c (o ∷ os) h = run c os (step c o h)

-- The event that one operation publishes, which no stream has a part in.
abbrev pub event_of : Encoder → StreamOp → Hub → List Envelope
event_of c (refreshes nodes accepts) h = elim (replace_snapshot nodes h.cache).0 [
  | none ↦ []
  | some b ↦ elim (publication c b h.message_seq) [ none ↦ [] | some e ↦ e ∷ [] ]
]
event_of c (registers accepted) h = []
event_of c (closes id) h = []
event_of c (unregisters id) h = []
event_of c closes_all h = []

-- The events of a history, in order.
abbrev pub events : Encoder → List StreamOp → Hub → List Envelope
events c [] h = []
events c (o ∷ os) h = event_of c o h ++ events c os (step c o h)

module _ {ℓ} {A : Type ℓ} where
  abbrev pub nth : ℕ → List A → Option A
  nth n [] = none
  nth zero (x ∷ xs) = some x
  nth (suc n) (x ∷ xs) = nth n xs

  nth-map :
      (f : A → A) (n : ℕ) (xs : List A) (x : A) → nth n xs ≡ some x → nth n (map f xs) ≡ some (f x)
  nth-map f n [] x h = ground (arith, h)
  nth-map f zero (y ∷ xs) x h = ground (arith, h)
  nth-map f (suc n) (y ∷ xs) x h = nth-map f n xs x h

  nth-append : (n : ℕ) (xs ys : List A) (x : A) → nth n xs ≡ some x → nth n (xs ++ ys) ≡ some x
  nth-append n [] ys x h = ground (arith, h)
  nth-append zero (y ∷ xs) ys x h = h
  nth-append (suc n) (y ∷ xs) ys x h = nth-append n xs ys x h

  append_nil : (xs : List A) → xs ++ [] ≡ xs
  append_nil [] = refl
  append_nil (x ∷ xs) = ap (◌∷◌ x) (append_nil xs)

  append_assoc : (xs ys zs : List A) → (xs ++ ys) ++ zs ≡ xs ++ (ys ++ zs)
  append_assoc [] ys zs = refl
  append_assoc (x ∷ xs) ys zs = ap (◌∷◌ x) (append_assoc xs ys zs)

-- A stream that has left the map stays out, and one that is still in it has taken all the events.
pub record Follows (es : List Envelope) (s s' : NodeStream) : Type 0 where
  pub gone : s.registered ≡ false → s'.registered ≡ false
  pub taken : s'.registered ≡ true → s'.delivered ≡ s.delivered ++ es

same-Follows : (s : NodeStream) → Follows [] s s
same-Follows s = record { gone = λ g. g; taken = λ _. sym (append_nil s.delivered) }

offer-Follows :
    (e : Envelope) (accepts : ℕ → Bool) (s : NodeStream) → Follows (e ∷ []) s (offer e accepts s)
unfolding offer enqueue close
offer-Follows e accepts s = record { gone = λ g. ground arith; taken = λ g. ground arith }

close-Follows : (s : NodeStream) → Follows [] s (close s)
unfolding close
close-Follows s = record {
  gone = λ g. ground arith;
  taken = λ g. ground (arith, append_nil s.delivered);
}

unregister-Follows : (s : NodeStream) → Follows [] s (unregister s)
unfolding unregister
unregister-Follows s = record {
  gone = λ g. ground arith;
  taken = λ g. ground (arith, append_nil s.delivered);
}

close_registered-Follows : (s : NodeStream) → Follows [] s (close_registered s)
unfolding close_registered close
close_registered-Follows s = record {
  gone = λ g. ground arith;
  taken = λ g. ground (arith, append_nil s.delivered);
}

trans-Follows :
    (es fs : List Envelope) (s t u : NodeStream)
    → Follows es s t
    → Follows fs t u
    → Follows (es ++ fs) s u
trans-Follows es fs s t u p q = record {
  gone = λ g. q.gone (p.gone g);
  taken = λ g. ground (arith, q.taken g, p.taken, q.gone, append_assoc s.delivered es fs);
}

-- The stream at a place of the list behind an operation.
abbrev pub Followed : ℕ → List Envelope → NodeStream → Hub → Type 0
Followed i es s h = (s' : NodeStream) × (nth i h.streams ≡ some s') × Follows es s s'

if-Follows :
    (b : Bool) (s t u : NodeStream)
    → Follows [] s t
    → Follows [] s u
    → Follows [] s (if b then t else u)
if-Follows true s t u p q = p
if-Follows false s t u p q = q

publish-Followed :
    (c : Encoder) (b : NodeChangeBatch) (accepts : ℕ → Bool) (i : ℕ) (s : NodeStream) (h : Hub)
    → nth i h.streams ≡ some s
    → Followed i
        (elim (publication c b h.message_seq) [ none ↦ [] | some e ↦ e ∷ [] ])
        s
        (publish c b accepts h)
unfolding publish
publish-Followed c b accepts i s h e = elim (Option-cases (publication c b h.message_seq)) [
  | inl f ↦ rw (f, publish) (s, e, same-Follows s)
  | inr (x, f) ↦ rw (f, publish) (_, nth-map _ i h.streams s e, offer-Follows x accepts s)
]

step-Followed :
    (c : Encoder) (o : StreamOp) (h : Hub) (i : ℕ) (s : NodeStream)
    → nth i h.streams ≡ some s
    → Followed i (event_of c o h) s (step c o h)
unfolding step replace_and_publish publish register on_stream close_all
step-Followed c (refreshes nodes accepts) h i s e =
    elim (Option-cases (replace_snapshot nodes h.cache).0) [
      | inl f ↦ rw (f, event_of, step, replace_and_publish) (s, e, same-Follows s)
      | inr (b, f) ↦
          rw (f, event_of, step, replace_and_publish) (publish-Followed c b accepts i s _ e)
    ]
step-Followed c (registers accepted) h i s e =
    elim (Option-cases (c.encode_snapshot (snapshot h.cache))) [
      | inl f ↦ rw (f, step, register) (s, e, same-Follows s)
      | inr (p, f) ↦ rw (f, step, register) (s, nth-append i h.streams _ s e, same-Follows s)
    ]
step-Followed c (closes id) h i s e =
    (_, nth-map _ i h.streams s e, if-Follows (s.id == id) s _ _ (close-Follows s) (same-Follows s))
step-Followed c (unregisters id) h i s e = (
  _,
  nth-map _ i h.streams s e,
  if-Follows (s.id == id) s _ _ (unregister-Follows s) (same-Follows s),
)
step-Followed c closes_all h i s e =
    (close_registered s, nth-map close_registered i h.streams s e, close_registered-Follows s)

-- Behind any history of refreshes, registrations and closings, a stream stands at its place; where
-- it had left the registry it stays out; and where it is still in the registry it has been sent,
-- behind what it had, exactly the events that the history published, in their order.
pub run-delivered :
    (c : Encoder) (os : List StreamOp) (h : Hub) (i : ℕ) (s : NodeStream)
    → nth i h.streams ≡ some s
    → Followed i (events c os h) s (run c os h)
unfolding run
run-delivered c [] h i s e = (s, e, same-Follows s)
run-delivered c (o ∷ os) h i s e =
    let (t, f, p) = step-Followed c o h i s e in
    let (u, g, q) = run-delivered c os (step c o h) i t f in
    (u, g, trans-Follows (event_of c o h) (events c os (step c o h)) s t u p q)
