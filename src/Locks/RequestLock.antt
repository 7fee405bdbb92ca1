-- ===== src/Locks/RequestLock.antt =====
-- internal/command/service.go, `lock` and the function that it returns, over threads that interleave.
-- A pointer is a number; `next` is the first that is not in use. The mutex `locksMu` makes a section
-- under it one step, and so is each operation of a request's mutex.
use cockpit_slurm.Base.{
  ℕ, ◌+◌, ◌-◌, String, ◌≡◌, Bool, true, false, none, some, List, [], ◌∷◌, ◌++◌, ◌==◌, if◌then◌else◌,
  nat_eq,
}
use cockpit_slurm.Base.Maps.{GoMap, lookup, insert, remove}

-- The struct `requestLock`: whether its mutex is locked, and its count.
pub record RequestLock : Type 0 where
  pub locked : Bool
  pub refs : ℕ

-- The map `locks`, and the locks that its pointers lead to.
pub record Locks : Type 0 where
  pub entries : GoMap ℕ
  pub heap : ℕ → RequestLock
  pub next : ℕ

unfoldable pub store : ℕ → RequestLock → (ℕ → RequestLock) → ℕ → RequestLock
store p lock heap q = if p == q then lock else heap q

-- The section under `locksMu` before the wait: the pointer that it finds or makes.
unfoldable pub find_entry : String → Locks → ℕ × Locks
find_entry key s = elim (lookup key s.entries) [
  | none ↦ (
    s.next,
    record {
      entries = insert key s.next s.entries;
      heap = store s.next (record { locked = false; refs = 1 }) s.heap;
      next = s.next + 1;
    },
  )
  | some p ↦ (
    p,
    record s {
      heap = store p (record { locked = (s.heap p).locked; refs = (s.heap p).refs + 1 }) s.heap;
    },
  )
]

-- `mu.Lock()` where it goes on, and `mu.Unlock()`.
unfoldable pub set_locked : ℕ → Bool → Locks → Locks
set_locked p b s = record s {
  heap = store p (record { locked = b; refs = (s.heap p).refs }) s.heap;
}

-- The section under `locksMu` behind the unlock; a count of 1 becomes 0, and only that one.
unfoldable pub release_entry : String → ℕ → Locks → Locks
release_entry key p s = record s {
  entries = if (s.heap p).refs == 1 then remove key s.entries else s.entries;
  heap = store p (record { locked = (s.heap p).locked; refs = (s.heap p).refs - 1 }) s.heap;
}

-- Where a thread stands in `lock` and the function it returns; a handler runs where it holds.
pub data Thread : Type 0 where
  idle : Thread
  waiting : String → ℕ → Thread
  holding : String → ℕ → Thread
  leaving : String → ℕ → Thread

-- One step of one thread.
pub data Step (s : Locks) (ts : List Thread) : Locks → List Thread → Type 0 where
  enters :
      (key : String) (xs ys : List Thread)
      → ts ≡ xs ++ idle ∷ ys
      → Step s ts (find_entry key s).1 (xs ++ waiting key (find_entry key s).0 ∷ ys)
  locks :
      (key : String) (p : ℕ) (xs ys : List Thread)
      → ts ≡ xs ++ waiting key p ∷ ys
      → (s.heap p).locked ≡ false
      → Step s ts (set_locked p true s) (xs ++ holding key p ∷ ys)
  unlocks :
      (key : String) (p : ℕ) (xs ys : List Thread)
      → ts ≡ xs ++ holding key p ∷ ys
      → Step s ts (set_locked p false s) (xs ++ leaving key p ∷ ys)
  leaves :
      (key : String) (p : ℕ) (xs ys : List Thread)
      → ts ≡ xs ++ leaving key p ∷ ys
      → Step s ts (release_entry key p s) (xs ++ idle ∷ ys)

-- Any number of steps.
pub data Steps (s : Locks) (ts : List Thread) : Locks → List Thread → Type 0 where
  here : Steps s ts s ts
  next : {u v : Locks} {us vs : List Thread} → Steps s ts u us → Step u us v vs → Steps s ts v vs

unfoldable pub new_locks : (ℕ → RequestLock) → Locks
new_locks heap = record { entries = []; heap = heap; next = 0 }
