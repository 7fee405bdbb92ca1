-- ===== src/Ipc/Shutdown.antt =====
-- What a close of the server leaves, and which files it removes (internal/ipc/server.go).
use cockpit_slurm.Base.{any}
use cockpit_slurm.Base.{ℕ, ◌≡◌, ◌↔◌, Bool, true, false, ◌||◌, List, nat_eq, All, arith}
use cockpit_slurm.Ipc.Server.{
  Inspected, missing, inspect_failed, other_file, socket_file, Dialed, answered, timed_out, refused,
  dial_failed, remove_stale_socket, Server, has_socket,
}

-- Only a socket that refuses connections is removed, and without an error there is none left.
pub remove_stale_socket_iff :
    (i : Inspected) (d : Dialed) (remove_fails : Bool)
    → ((remove_stale_socket i d remove_fails).1 ≡ true)
      ↔ ((i ≡ socket_file) × (d ≡ refused) × (remove_fails ≡ false))
unfolding remove_stale_socket
remove_stale_socket_iff missing d r = ground arith
remove_stale_socket_iff inspect_failed d r = ground arith
remove_stale_socket_iff other_file d r = ground arith
remove_stale_socket_iff socket_file answered r = ground arith
remove_stale_socket_iff socket_file timed_out r = ground arith
remove_stale_socket_iff socket_file dial_failed r = ground arith
remove_stale_socket_iff socket_file refused r = ground arith

-- A call of `Close` still has the socket to close.
abbrev pub is_closing : ℕ → List (List ℕ) → Bool
is_closing c calls = any (λ cs. has_socket c cs) calls

-- An open socket is tracked or about to be closed, and about to be closed while the server has no
-- listener; a closed server has no listener.
pub record Tracked (s : Server) : Type 0 where
  pub tracked_all :
      All (λ c. has_socket c s.tracked || is_closing c s.closing ≡ true) s.open_sockets
  pub all_closing : s.listening ≡ false → All (λ c. is_closing c s.closing ≡ true) s.open_sockets
  pub not_both : s.closed ≡ true → s.listening ≡ false
