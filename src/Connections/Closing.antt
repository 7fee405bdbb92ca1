-- ===== src/Connections/Closing.antt =====
-- What closing does to the connections of the manager (internal/connection/connection.go).
use cockpit_slurm.Base.{
  ℕ, String, ◌≡◌, refl, ap, inl, inr, Bool, true, false, some, List, [], ◌∷◌, ◌==◌, if◌then◌else◌,
  nat_eq, string_eq, arith, Option-cases, Bool-cases,
}
use cockpit_slurm.Base.Maps.{GoMap, lookup}
use cockpit_slurm.Connections.Connection.{closed, is_closed, Connection, close_connection}
use cockpit_slurm.Connections.Manager.{
  Manager, new_manager, close_at, register_connection, unregister_connection, get_connection,
  close_registered_id, close_each, close_all_connections, count_connections, Op, registers,
  unregisters, closes, closes_all, closes_itself, step, run,
}

-- A connection whose close_registered_id has run: its context is cancelled and its socket closed.
abbrev pub Ended : Connection → Type 0
Ended c = (c.state ≡ closed) × (c.cancelled ≡ true) × (c.socket_closed ≡ true)

-- Every connection that is closed has ended.
abbrev pub Sound : (ℕ → Connection) → Type 0
Sound heap = (q : ℕ) → is_closed (heap q).state ≡ true → Ended (heap q)

if-Ended :
    (b : Bool) (c d : Connection)
    → (b ≡ true → Ended c)
    → (b ≡ false → Ended d)
    → Ended (if b then c else d)
if-Ended true c d f g = f refl
if-Ended false c d f g = g refl

close_connection-Ended :
    (c : Connection) → (is_closed c.state ≡ true → Ended c) → Ended (close_connection c)
unfolding close_connection
close_connection-Ended c f = if-Ended (is_closed c.state) c _ f λ _. (refl, refl, refl)

is_closed-Ended : (c : Connection) → Ended c → is_closed c.state ≡ true
unfolding is_closed
is_closed-Ended c e = ap is_closed e.0

-- Closing through a pointer ends that connection, and leaves those that have ended.
close_at-Ended :
    (p q : ℕ) (heap : ℕ → Connection)
    → Sound heap
    → ((p == q) ≡ false → Ended (heap q))
    → Ended (close_at p heap q)
unfolding close_at
close_at-Ended p q heap s h =
    if-Ended (p == q) (close_connection (heap q)) (heap q)
      (λ _. close_connection-Ended (heap q) (s q)) h

close_at-Sound : (p : ℕ) (heap : ℕ → Connection) → Sound heap → Sound (close_at p heap)
unfolding close_at
close_at-Sound p heap s q c = elim (Bool-cases (p == q)) [
  | inl e ↦ close_at-Ended p q heap s (λ n. absurd (ground (arith, e, n)))
  | inr e ↦ close_at-Ended p q heap s (λ _. s q (ground (arith, c, e)))
]

close_each-Sound : (m : GoMap ℕ) (heap : ℕ → Connection) → Sound heap → Sound (close_each m heap)
unfolding close_each
close_each-Sound [] heap s = s
close_each-Sound ((id, p) ∷ m) heap s =
    close_each-Sound m (close_at p heap) (close_at-Sound p heap s)

close_each-stays :
    (m : GoMap ℕ) (heap : ℕ → Connection) (q : ℕ)
    → Sound heap
    → Ended (heap q)
    → Ended (close_each m heap q)
unfolding close_each
close_each-stays [] heap q s e = e
close_each-stays ((id, p) ∷ m) heap q s e =
    close_each-stays m (close_at p heap) q (close_at-Sound p heap s)
      (close_at-Ended p q heap s (λ _. e))

-- The loop of `CloseAll` ends every connection of the map.
close_each-Ended :
    (m : GoMap ℕ) (heap : ℕ → Connection) (id : String) (q : ℕ)
    → Sound heap
    → lookup id m ≡ some q
    → Ended (close_each m heap q)
unfolding close_each lookup
close_each-Ended [] heap id q s h = absurd (cc)
close_each-Ended ((j, p) ∷ m) heap id q s h = elim (Bool-cases (j == id)) [
  | inl e ↦
      close_each-stays m (close_at p heap) q (close_at-Sound p heap s)
        (close_at-Ended p q heap s (λ n. absurd (ground (arith, h, e, n))))
  | inr e ↦
      close_each-Ended m (close_at p heap) id q (close_at-Sound p heap s) (ground (arith, h, e))
]

step-Sound : (o : Op) (m : Manager) → Sound m.heap → Sound (step o m).heap
unfolding step register_connection unregister_connection close_registered_id close_all_connections
step-Sound (registers p) m s = elim (Option-cases (lookup (m.heap p).id m.connections)) [
  | inl e ↦ rw (step, register_connection, e) s
  | inr (q, e) ↦ rw (step, register_connection, e) s
]
step-Sound (unregisters id) m s = s
step-Sound (closes id) m s = elim (Option-cases (lookup id m.connections)) [
  | inl e ↦ rw (step, close_registered_id, e) s
  | inr (p, e) ↦ rw (step, close_registered_id, e) (close_at-Sound p m.heap s)
]
step-Sound closes_all m s = close_each-Sound m.connections m.heap s
step-Sound (closes_itself p) m s = close_at-Sound p m.heap s

step-Ended :
    (o : Op) (m : Manager) (q : ℕ) → Sound m.heap → Ended (m.heap q) → Ended ((step o m).heap q)
unfolding step register_connection unregister_connection close_registered_id close_all_connections
step-Ended (registers p) m q s d = elim (Option-cases (lookup (m.heap p).id m.connections)) [
  | inl e ↦ rw (step, register_connection, e) d
  | inr (r, e) ↦ rw (step, register_connection, e) d
]
step-Ended (unregisters id) m q s d = d
step-Ended (closes id) m q s d = elim (Option-cases (lookup id m.connections)) [
  | inl e ↦ rw (step, close_registered_id, e) d
  | inr (p, e) ↦ rw (step, close_registered_id, e) (close_at-Ended p q m.heap s (λ _. d))
]
step-Ended closes_all m q s d = close_each-stays m.connections m.heap q s d
step-Ended (closes_itself p) m q s d = close_at-Ended p q m.heap s (λ _. d)

run-Sound : (os : List Op) (m : Manager) → Sound m.heap → Sound (run os m).heap
unfolding run
run-Sound [] m s = s
run-Sound (o ∷ os) m s = run-Sound os (step o m) (step-Sound o m s)

run-Ended :
    (os : List Op) (m : Manager) (q : ℕ)
    → Sound m.heap
    → Ended (m.heap q)
    → Ended ((run os m).heap q)
unfolding run
run-Ended [] m q s d = d
run-Ended (o ∷ os) m q s d = run-Ended os (step o m) q (step-Sound o m s) (step-Ended o m q s d)

-- Whatever calls of the manager and of the connections came before, `CloseAll` ends each connection
-- that is registered, by cancelling its context and closing its socket, and leaves the manager empty;
-- and no later calls revive the connection. No connection is closed at the start.
pub close_all_connections-Ended :
    (heap : ℕ → Connection) (before after : List Op) (id : String) (p : ℕ)
    → ((q : ℕ) → is_closed (heap q).state ≡ false)
    → get_connection id (run before (new_manager heap)) ≡ some p
    → (count_connections (close_all_connections (run before (new_manager heap))) ≡ 0)
      × Ended ((run after (close_all_connections (run before (new_manager heap)))).heap p)
unfolding new_manager close_all_connections get_connection count_connections
close_all_connections-Ended heap before after id p fresh h =
    let s = run-Sound before (new_manager heap) (λ q c. absurd (ground (arith, c, fresh q))) in
    let m = run before (new_manager heap) in
    (
      refl,
      run-Ended after (close_all_connections m) p (close_each-Sound m.connections m.heap s)
          (close_each-Ended m.connections m.heap id p s h),
    )
