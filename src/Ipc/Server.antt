-- ===== src/Ipc/Server.antt =====
-- internal/ipc/server.go: `Listen`, `Serve`, `Close` and `removeStaleSocket`. The file system and the
-- kernel's answers are arguments; an accepted socket is a number. `Close` is many steps: a section under
-- the mutex is one, then each socket is closed on its own, and the last step follows the wait for the
-- connections. Several calls of `Close` may be under way where the server listens again in between.
use cockpit_slurm.Base.{
  ℕ, ◌+◌, ◌-◌, Bool, true, false, not, ◌&&◌, ◌||◌, Option, none, some, List, [], ◌∷◌, ◌==◌,
  if◌then◌else◌, nat_eq, any,
}

-- What `Lstat` says of the socket's path.
pub data Inspected : Type 0 where
  missing inspect_failed other_file socket_file : Inspected

-- What a dial of it says.
pub data Dialed : Type 0 where
  answered timed_out refused dial_failed : Dialed

pub data ListenError : Type 0 where
  already_listening directory_failed stale_failed not_a_socket socket_in_use : ListenError
  undetermined remove_failed bind_failed permissions_failed : ListenError

-- `removeStaleSocket`: its error, and whether it has removed the file.
unfoldable pub remove_stale_socket : Inspected → Dialed → Bool → Option ListenError × Bool
remove_stale_socket missing d remove_fails = (none, false)
remove_stale_socket inspect_failed d remove_fails = (some stale_failed, false)
remove_stale_socket other_file d remove_fails = (some not_a_socket, false)
remove_stale_socket socket_file answered remove_fails = (some socket_in_use, false)
remove_stale_socket socket_file timed_out remove_fails = (some undetermined, false)
remove_stale_socket socket_file dial_failed remove_fails = (some undetermined, false)
remove_stale_socket socket_file refused remove_fails =
    if remove_fails then (some remove_failed, false) else (none, true)

-- What `Listen` meets.
pub record ListenAttempt : Type 0 where
  pub directory_fails : Bool
  pub inspected : Inspected
  pub dialed : Dialed
  pub remove_fails : Bool
  pub bind_fails : Bool
  pub chmod_fails : Bool

-- The struct `Server`: whether it has a listener and is closed, the sockets that it tracks, those of
-- them that are open, and how many goroutines it waits for. Each call of `Close` that is under way has
-- the sockets that it is still to close. What becomes of the socket's file is in the results.
pub record Server : Type 0 where
  pub listening : Bool
  pub closed : Bool
  pub tracked : List ℕ
  pub open_sockets : List ℕ
  pub running : ℕ
  pub closing : List (List ℕ)

unfoldable pub new_server : Server
new_server = record {
  listening = false;
  closed = false;
  tracked = [];
  open_sockets = [];
  running = 0;
  closing = [];
}

-- `Listen`
unfoldable pub listen : ListenAttempt → Server → Option ListenError × Server
listen a s =
    if s.listening
    then (some already_listening, s)
    else if a.directory_fails
    then (some directory_failed, s)
    else elim (remove_stale_socket a.inspected a.dialed a.remove_fails).0 [
      | some e ↦ (some e, s)
      | none ↦
          if a.bind_fails
          then (some bind_failed, s)
          else if a.chmod_fails
          then (some permissions_failed, s)
          else (none, record s { listening = true; closed = false; tracked = [] })
    ]

abbrev pub has_socket : ℕ → List ℕ → Bool
has_socket c cs = any (λ x. x == c) cs

unfoldable pub drop_socket : ℕ → List ℕ → List ℕ
drop_socket c [] = []
drop_socket c (x ∷ xs) = if x == c then drop_socket c xs else x ∷ drop_socket c xs

-- A socket that `Accept` returns to the loop of `Serve`, which runs on a listener.
unfoldable pub accept_socket : ℕ → Server → Server
accept_socket c s = if not s.listening || s.closed then s else record s {
  tracked = c ∷ s.tracked;
  open_sockets = c ∷ s.open_sockets;
  running = s.running + 1;
}

-- The deferred calls of a connection's goroutine.
unfoldable pub finish_connection : ℕ → Server → Server
finish_connection c s = record s {
  tracked = drop_socket c s.tracked;
  open_sockets = drop_socket c s.open_sockets;
  running = s.running - 1;
}

-- The section of `Close` under the mutex.
unfoldable pub begin_close : Server → Server
begin_close s =
    if s.closed
    then s
    else record s { closed = true; listening = false; closing = s.tracked ∷ s.closing }

-- The call at an index closes one of its sockets.
unfoldable pub drop_closing : ℕ → ℕ → List (List ℕ) → List (List ℕ)
drop_closing k c [] = []
drop_closing k c (cs ∷ calls) =
    let rest = drop_closing (k - 1) c calls in
    if k == 0 then drop_socket c cs ∷ calls else cs ∷ rest

abbrev pub closes_now : ℕ → ℕ → List (List ℕ) → Bool
closes_now k c [] = false
closes_now k c (cs ∷ calls) =
    let rest = closes_now (k - 1) c calls in if k == 0 then has_socket c cs else rest

-- The loop of `Close` over the sockets, of which a round closes one.
unfoldable pub close_socket : ℕ → ℕ → Server → Server
close_socket k c s =
    if closes_now k c s.closing
    then record s {
      closing = drop_closing k c s.closing;
      open_sockets = drop_socket c s.open_sockets;
    }
    else s

-- Whether the call at an index has closed its sockets, and the calls without it.
abbrev pub has_closed : ℕ → List (List ℕ) → Bool
has_closed k [] = false
has_closed k (cs ∷ calls) =
    let rest = has_closed (k - 1) calls in
    if k == 0 then elim cs [ [] ↦ true | c ∷ more ↦ false ] else rest

unfoldable pub drop_call : ℕ → List (List ℕ) → List (List ℕ)
drop_call k [] = []
drop_call k (cs ∷ calls) = let rest = drop_call (k - 1) calls in if k == 0 then calls else cs ∷ rest

pub data CloseError : Type 0 where
  file_left : CloseError

-- The end of `Close`, behind its wait, which lasts until no goroutine is left: the error of the call,
-- where the socket's file is there and cannot be removed.
unfoldable pub end_close : ℕ → Bool → Server → Option CloseError × Server
end_close k remove_fails s =
    if has_closed k s.closing && s.running == 0
    then (
      if remove_fails then some file_left else none,
      record s { closing = drop_call k s.closing },
    )
    else (none, s)

pub data ServerOp : Type 0 where
  listens : ListenAttempt → ServerOp
  accepts : ℕ → ServerOp
  finishes : ℕ → ServerOp
  begins_close : ServerOp
  closes_socket : ℕ → ℕ → ServerOp
  ends_close : ℕ → Bool → ServerOp

unfoldable pub server_step : ServerOp → Server → Server
server_step (listens a) s = (listen a s).1
server_step (accepts c) s = accept_socket c s
server_step (finishes c) s = finish_connection c s
server_step begins_close s = begin_close s
server_step (closes_socket k c) s = close_socket k c s
server_step (ends_close k remove_fails) s = (end_close k remove_fails s).1

unfoldable pub run_server : List ServerOp → Server → Server
run_server [] s = s
run_server (o ∷ os) s = run_server os (server_step o s)
