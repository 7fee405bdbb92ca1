-- ===== src/Connections/Manager.antt =====
-- internal/connection/connection.go: the manager of the connections. A pointer is a number, which
-- `heap` leads to its connection; the mutex makes each method one step.
use cockpit_slurm.Base.{
  ℕ, String, Bool, true, false, Option, none, some, List, [], ◌∷◌, ◌==◌, if◌then◌else◌, nat_eq,
  length,
}
use cockpit_slurm.Base.Maps.{GoMap, lookup, insert, remove}
use cockpit_slurm.Connections.Connection.{Connection, close_connection}

pub record Manager : Type 0 where
  pub connections : GoMap ℕ
  pub heap : ℕ → Connection

unfoldable pub new_manager : (ℕ → Connection) → Manager
new_manager heap = record { connections = []; heap = heap }

-- A call of `Close` through a pointer.
unfoldable pub close_at : ℕ → (ℕ → Connection) → ℕ → Connection
close_at p heap q = if p == q then close_connection (heap q) else heap q

-- `Register`; true where it returns no error.
unfoldable pub register_connection : ℕ → Manager → Bool × Manager
register_connection p m = elim (lookup (m.heap p).id m.connections) [
  | some q ↦ (false, m)
  | none ↦ (true, record m { connections = insert (m.heap p).id p m.connections })
]

-- `Unregister`
unfoldable pub unregister_connection : String → Manager → Manager
unregister_connection id m = record m { connections = remove id m.connections }

-- `Get`
unfoldable pub get_connection : String → Manager → Option ℕ
get_connection id m = lookup id m.connections

-- `manager.Close`
unfoldable pub close_registered_id : String → Manager → Manager
close_registered_id id m = elim (lookup id m.connections) [
  | none ↦ m
  | some p ↦ record { connections = remove id m.connections; heap = close_at p m.heap }
]

-- The last loop of `CloseAll`.
unfoldable pub close_each : GoMap ℕ → (ℕ → Connection) → ℕ → Connection
close_each [] heap = heap
close_each ((id, p) ∷ entries) heap = close_each entries (close_at p heap)

-- `CloseAll`
unfoldable pub close_all_connections : Manager → Manager
close_all_connections m = record { connections = []; heap = close_each m.connections m.heap }

-- `Count`
unfoldable pub count_connections : Manager → ℕ
count_connections m = length m.connections

-- A call of the manager, or of `Close` on a connection itself, as its server and its streams do.
pub data Op : Type 0 where
  registers : ℕ → Op
  unregisters : String → Op
  closes : String → Op
  closes_all : Op
  closes_itself : ℕ → Op

unfoldable pub step : Op → Manager → Manager
step (registers p) m = (register_connection p m).1
step (unregisters id) m = unregister_connection id m
step (closes id) m = close_registered_id id m
step closes_all m = close_all_connections m
step (closes_itself p) m = record m { heap = close_at p m.heap }

unfoldable pub run : List Op → Manager → Manager
run [] m = m
run (o ∷ os) m = run os (step o m)
