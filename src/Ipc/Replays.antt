-- ===== src/Ipc/Replays.antt =====
-- The replay cache of a connection (internal/ipc/server.go).
use cockpit_slurm.Base.{
  ℕ, suc, ◌≤◌, String, ◌≡◌, ◌≢◌, refl, sym, ap, ◌∙◌, ◌⊎◌, inl, inr, true, false, none, some, List,
  [], ◌∷◌, length, leb, ◌==◌, if◌then◌else◌, string_eq, string_iff, arith, Option-cases, Bool-cases,
}
use cockpit_slurm.Base.Maps.{GoMap, lookup, insert, lookup-insert}
use cockpit_slurm.Protocol.Envelope.{Envelope}
use cockpit_slurm.Ipc.Session.{
  CachedRequest, Ports, Session, request_fingerprint, Frame, received, ended, broken,
  first_dispatch, dispatch_message, serve, max_cached_requests,
}

-- How many messages with an id the dispatcher was called with.
abbrev pub calls : String → List Envelope → ℕ
calls id [] = 0
calls id (m ∷ ms) = let n = calls id ms in if m.message_id == id then suc n else n

length-insert {ℓ} :
    {V : Type ℓ} (k : String) (v : V) (m : GoMap V)
    → lookup k m ≡ none
    → length (insert k v m) ≡ suc (length m)
unfolding lookup insert
length-insert k v [] h = refl
length-insert k v ((j, w) ∷ m) h = ground (arith, string_iff j k, length-insert k v m)

module _ {ℓ} {S : Type ℓ} where
  -- A message id that was dispatched has an entry, and there are as many entries as dispatches.
  pub record Cached (s : Session S) : Type ℓ where
    pub once :
        (id : String)
        → (calls id s.dispatched ≡ 0) ⊎ ((calls id s.dispatched ≡ 1) × (lookup id s.entries ≢ none))
    pub same_length : length s.dispatched ≡ length s.entries
    pub bounded : length s.entries ≤ max_cached_requests

  first_dispatch-Cached :
      (p : Ports S) (fp : String) (m : Envelope) (s : Session S)
      → lookup m.message_id s.entries ≡ none
      → leb max_cached_requests (length s.entries) ≡ false
      → Cached s
      → Cached (first_dispatch p fp m s).1
  unfolding first_dispatch
  first_dispatch-Cached p fp m s free room h =
      let e : CachedRequest = record { fingerprint = fp; response = (p.dispatch m s.state).0 } in
      let grown = length-insert m.message_id e s.entries free in
      record {
        once = λ id. ground (
          arith,
          h.once id,
          string_iff m.message_id id,
          lookup-insert m.message_id id
              (record { fingerprint = fp; response = (p.dispatch m s.state).0 }) s.entries,
        );
        same_length = ap suc h.same_length ∙ sym grown;
        bounded = ground (arith, grown);
      }

  pub dispatch_message_cases :
      (p : Ports S) (m : Envelope) (s : Session S)
      → ((dispatch_message p m s).1 ≡ s)
        ⊎ ((fp : String) × ((dispatch_message p m s).1 ≡ (first_dispatch p fp m s).1)
            × (lookup m.message_id s.entries ≡ none)
            × (leb max_cached_requests (length s.entries) ≡ false))
  unfolding dispatch_message
  dispatch_message_cases p m s = elim (Option-cases (request_fingerprint p m)) [
    | inl e ↦ inl (rw (e, dispatch_message) refl)
    | inr (fp, e) ↦ elim (Option-cases (lookup m.message_id s.entries)) [
      | inr (previous, f) ↦ elim (Bool-cases (previous.fingerprint == fp)) [
        | inl g ↦ inl (rw (e, f, g, dispatch_message) refl)
        | inr g ↦ inl (rw (e, f, g, dispatch_message) refl)
      ]
      | inl f ↦ elim (Bool-cases (leb max_cached_requests (length s.entries))) [
        | inl g ↦ inl (rw (e, f, g, dispatch_message) refl)
        | inr g ↦ inr (fp, (rw (e, f, g, dispatch_message) refl), f, g)
      ]
    ]
  ]

  -- What every message keeps, the read loop keeps.
  pub serve_keeps {κ} :
      (P : Session S → Type κ) (p : Ports S)
      → ((m : Envelope) (s : Session S) → P s → P (dispatch_message p m s).1)
      → (fs : List Frame) (s : Session S) → P s
      → P (serve p fs s).1
  unfolding serve
  serve_keeps P p k [] s h = h
  serve_keeps P p k (ended ∷ fs) s h = h
  serve_keeps P p k (broken id is_unknown queued ∷ fs) s h = h
  serve_keeps P p k (received m false ∷ fs) s h = k m s h
  serve_keeps P p k (received m true ∷ fs) s h = elim (Bool-cases (dispatch_message p m s).0.1) [
    | inl e ↦ rw e (k m s h)
    | inr e ↦ rw e (serve_keeps P p k fs _ (k m s h))
  ]

  dispatch_message-Cached :
      (p : Ports S) (m : Envelope) (s : Session S) → Cached s → Cached (dispatch_message p m s).1
  dispatch_message-Cached p m s h = elim (dispatch_message_cases p m s) [
    | inl e ↦ rw e h
    | inr (fp, e, free, room) ↦ rw e (first_dispatch-Cached p fp m s free room h)
  ]

  -- Over one connection, whatever it receives, the dispatcher is called at most once for each message
  -- id, and at most 4096 times.
  pub serve_once :
      (p : Ports S) (frames : List Frame) (s : Session S) (id : String)
      → s.entries ≡ []
      → s.dispatched ≡ []
      → (calls id (serve p frames s).1.dispatched ≤ 1)
        × (length (serve p frames s).1.dispatched ≤ max_cached_requests)
  serve_once p frames s id e f =
      let start : Cached s = record {
        once = λ j. inl (rw f refl);
        same_length = rw (e, f) refl;
        bounded = rw e (omega arith);
      } in
      let h = serve_keeps Cached p (dispatch_message-Cached p) frames s start in
      (ground (arith, h.once id), ground (arith, h.same_length, h.bounded))

  -- The entry of a message id stays as it is.
  dispatch_message_entry :
      (id : String) (e : CachedRequest) (p : Ports S) (m : Envelope) (s : Session S)
      → lookup id s.entries ≡ some e
      → lookup id (dispatch_message p m s).1.entries ≡ some e
  unfolding first_dispatch
  dispatch_message_entry id e p m s h = elim (dispatch_message_cases p m s) [
    | inl f ↦ rw f h
    | inr (fp, f, free, room) ↦ rw f (
        ground (
          arith,
          string_iff m.message_id id,
          lookup-insert m.message_id id
              (record { fingerprint = fp; response = (p.dispatch m s.state).0 }) s.entries,
        ))
  ]

  first_dispatch-entry :
      (p : Ports S) (fp : String) (m : Envelope) (s : Session S)
      → lookup m.message_id (first_dispatch p fp m s).1.entries
        ≡ some (record { fingerprint = fp; response = (p.dispatch m s.state).0 })
  unfolding first_dispatch
  first_dispatch-entry p fp m s = ground (
    arith,
    string_iff m.message_id m.message_id,
    lookup-insert m.message_id m.message_id
        (record { fingerprint = fp; response = (p.dispatch m s.state).0 }) s.entries,
  )

  dispatch_message_first :
      (p : Ports S) (m : Envelope) (fp : String) (s : Session S)
      → request_fingerprint p m ≡ some fp
      → lookup m.message_id s.entries ≡ none
      → leb max_cached_requests (length s.entries) ≡ false
      → dispatch_message p m s ≡ (((p.dispatch m s.state).0, false), (first_dispatch p fp m s).1)
  unfolding dispatch_message first_dispatch
  dispatch_message_first p m fp s a free room = rw (a, free, room, dispatch_message) refl

  dispatch_message_hit :
      (p : Ports S) (m : Envelope) (fp : String) (e : CachedRequest) (s : Session S)
      → request_fingerprint p m ≡ some fp
      → lookup m.message_id s.entries ≡ some e
      → e.fingerprint ≡ fp
      → dispatch_message p m s ≡ ((e.response, false), s)
  unfolding dispatch_message
  dispatch_message_hit p m fp e s a h g =
      rw (a, h, (string_iff e.fingerprint fp).1 g, dispatch_message) refl

  -- A message that was dispatched once is answered with the same response again whenever a message of
  -- the same id and content follows on the connection, and the dispatcher is not called.
  pub dispatch_message_replays :
      (p : Ports S) (m m' : Envelope) (fp : String) (frames : List Frame) (s : Session S)
      → request_fingerprint p m ≡ some fp
      → request_fingerprint p m' ≡ some fp
      → m'.message_id ≡ m.message_id
      → lookup m.message_id s.entries ≡ none
      → leb max_cached_requests (length s.entries) ≡ false
      → (let later = (serve p frames (dispatch_message p m s).1).1 in
          dispatch_message p m' later ≡ (((dispatch_message p m s).0.0, false), later))
  dispatch_message_replays p m m' fp frames s a b c free room =
      let e : CachedRequest = record { fingerprint = fp; response = (p.dispatch m s.state).0 } in
      let first = dispatch_message_first p m fp s a free room in
      let kept =
        serve_keeps (λ t. lookup m.message_id t.entries ≡ some e) p
          (dispatch_message_entry m.message_id e p) frames (dispatch_message p m s).1
          (rw first (first_dispatch-entry p fp m s)) in
      rw (ap (λ d. d.0.0) first) (
        dispatch_message_hit p m' fp e (serve p frames (dispatch_message p m s).1).1 b (rw c kept)
          refl)
