-- ===== src/Tests/Locks.antt =====
-- Two requests for one command (internal/command/service_test.go).
use cockpit_slurm.Locks.RequestLock.{store}
use cockpit_slurm.Base.Maps.{insert}
use cockpit_slurm.Base.{ℕ, ◌≡◌, ◌≤◌, refl, true, false, some, none, List, [], ◌∷◌}
use cockpit_slurm.Base.Maps.{lookup}
use cockpit_slurm.Locks.RequestLock.{
  RequestLock, Locks, Thread, idle, waiting, holding, Steps, here, next, enters, locks, find_entry,
  set_locked, new_locks,
}
use cockpit_slurm.Locks.Counts.{uses, holds, total}
use cockpit_slurm.Locks.Exclusion.{steps-exclude}

abbrev heap : ℕ → RequestLock
heap p = record { locked = false; refs = 0 }

abbrev threads : List Thread
threads = idle ∷ idle ∷ []

abbrev one : Locks
one = (find_entry "1000:c-1" (new_locks heap)).1

abbrev two : Locks
two = (find_entry "1000:c-1" one).1

-- The first thread holds the lock while the second waits for it.
abbrev reached : List Thread
reached = holding "1000:c-1" 0 ∷ waiting "1000:c-1" 0 ∷ []

history : Steps (new_locks heap) threads (set_locked 0 true two) reached
unfolding find_entry lookup new_locks insert store
history =
    next
      (next (next here (enters "1000:c-1" [] (idle ∷ []) refl))
        (enters "1000:c-1" (waiting "1000:c-1" 0 ∷ []) [] refl))
      (locks "1000:c-1" 0 [] (waiting "1000:c-1" 0 ∷ []) refl refl)

steps-exclude_example :
    (total (holds "1000:c-1") reached ≤ 1)
    × (lookup "1000:c-1" (set_locked 0 true two).entries ≡ none
        → total (uses "1000:c-1") reached ≡ 0)
    × ((p : ℕ)
        → lookup "1000:c-1" (set_locked 0 true two).entries ≡ some p
        → (((set_locked 0 true two).heap p).refs ≡ total (uses "1000:c-1") reached)
          × (1 ≤ total (uses "1000:c-1") reached))
steps-exclude_example =
    steps-exclude heap threads reached (set_locked 0 true two) "1000:c-1" (refl, (refl, tt)) history
