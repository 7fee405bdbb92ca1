-- ===== src/Locks/Exclusion.antt =====
-- Mutual exclusion of the requests for one command, and no lock is left behind
-- (internal/command/service.go, `lock`).
use cockpit_slurm.Locks.Counts.{unused}
use cockpit_slurm.Base.{
  ℕ, ◌≤◌, String, ◌≡◌, refl, ap, ◌∙◌, sym, subst, inl, inr, Bool, false, none, some, List, [], ◌∷◌,
  ◌++◌, ◌==◌, nat_eq, string_eq, string_iff, All, arith, Option-cases, Bool-cases,
}
use cockpit_slurm.Base.Maps.{GoMap, lookup, remove, lookup-remove}
use cockpit_slurm.Locks.RequestLock.{
  RequestLock, Locks, store, release_entry, Thread, idle, leaving, Step, enters, locks, unlocks,
  leaves, Steps, here, next, new_locks,
}
use cockpit_slurm.Locks.Counts.{
  bit, uses, holds, total, total-append, Backed, All-at, All-put, keep_other_keys,
}
use cockpit_slurm.Locks.Changes.{Invariant, store-other, change-Invariant}
use cockpit_slurm.Locks.Invariant.{find_entry-Invariant, lock-Invariant, unlock-Invariant}

lookup-remove_other :
    (k : String) (m : GoMap ℕ) (j : String) (p : ℕ)
    → (j ≡ k → ⊥)
    → lookup j m ≡ some p
    → lookup j (remove k m) ≡ some p
lookup-remove_other k m j p ne h = elim (Bool-cases (k == j)) [
  | inl e ↦ absurd (ne (sym ((string_iff k j).0 e)))
  | inr e ↦ ground (arith, h, e, lookup-remove k j m)
]

-- The last thread that uses an entry deletes it.
delete-Invariant :
    (s : Locks) (k : String) (p : ℕ) (lock : RequestLock) (xs ys : List Thread)
    → Invariant s (xs ++ leaving k p ∷ ys)
    → total (uses k) (xs ++ ys) ≡ 0
    → Invariant
        (record s { entries = remove k s.entries; heap = store p lock s.heap })
        (xs ++ idle ∷ ys)
delete-Invariant s k p lock xs ys inv alone =
    let (at, rest) = All-at (Backed s.entries) xs (leaving k p) ys inv.backed in
    let kept : (j : String) (q : ℕ)
        → lookup j (remove k s.entries) ≡ some q
        → ((k == j) ≡ false) × (lookup j s.entries ≡ some q) =
      λ j q h. (
        ground (arith, h, lookup-remove k j s.entries),
        ground (arith, h, lookup-remove k j s.entries),
      ) in
    record {
      backed = All-put (Backed (remove k s.entries)) xs idle ys tt (
          keep_other_keys k s.entries (remove k s.entries) (xs ++ ys)
            (lookup-remove_other k s.entries) alone rest);
      apart = λ i j q a b. inv.apart i j q (kept i q a).1 (kept j q b).1;
      entry = λ j q h.
          let (n, old_at) = kept j q h in
          let old = inv.entry j q old_at in
          let there =
            store-other p q lock s.heap
              (ground (arith, n, at, old_at, string_iff k j, inv.apart k j q)) in
          let counts : total (uses j) (xs ++ leaving k p ∷ ys) ≡ total (uses j) (xs ++ idle ∷ ys) =
            ground (
              arith,
              n,
              total-append (uses j) xs idle ys,
              total-append (uses j) xs (leaving k p) ys,
            ) in
          let holders : total (holds j) (xs ++ leaving k p ∷ ys)
              ≡ total (holds j) (xs ++ idle ∷ ys) =
            omega (
              arith,
              total-append (holds j) xs idle ys,
              total-append (holds j) xs (leaving k p) ys,
            ) in
          record {
            counted = ap (λ l. l.refs) there ∙ old.counted ∙ counts;
            used = omega (arith, old.used, counts);
            below = old.below;
            mutex = ap (λ l. bit l.locked) there ∙ old.mutex ∙ holders;
          };
    }

-- A thread leaves, and the entry with it if it was the last.
release_entry-Invariant :
    (s : Locks) (k : String) (p : ℕ) (xs ys : List Thread)
    → Invariant s (xs ++ leaving k p ∷ ys)
    → Invariant (release_entry k p s) (xs ++ idle ∷ ys)
unfolding release_entry
release_entry-Invariant s k p xs ys inv =
    let at = (All-at (Backed s.entries) xs (leaving k p) ys inv.backed).0 in
    let old = inv.entry k p at in
    let f = total-append (uses k) xs (leaving k p) ys in
    let g = total-append (uses k) xs idle ys in
    let one : uses k (leaving k p) ≡ 1 = ground (arith, string_iff k k) in
    elim (Bool-cases ((s.heap p).refs == 1)) [
      | inl e ↦ rw e (delete-Invariant s k p _ xs ys inv (ground (arith, e, old.counted, f, one)))
      | inr e ↦ rw e (
          change-Invariant s k p _ (leaving k p) idle xs ys inv at tt
            (λ j n. (ground (arith, n), refl)) (omega (arith, f, g, one, old.counted))
            (ground (arith, f, g, one, e, old.counted, old.used))
            (old.mutex
              ∙ omega (
                arith,
                total-append (holds k) xs (leaving k p) ys,
                total-append (holds k) xs idle ys,
              )))
    ]

Step-Invariant :
    (s u : Locks) (ts us : List Thread) → Invariant s ts → Step s ts u us → Invariant u us
Step-Invariant s u ts us inv (enters k xs ys e) =
    find_entry-Invariant s k xs ys (subst (Invariant s) e inv)
Step-Invariant s u ts us inv (locks k p xs ys e free) =
    lock-Invariant s k p xs ys (subst (Invariant s) e inv) free
Step-Invariant s u ts us inv (unlocks k p xs ys e) =
    unlock-Invariant s k p xs ys (subst (Invariant s) e inv)
Step-Invariant s u ts us inv (leaves k p xs ys e) =
    release_entry-Invariant s k p xs ys (subst (Invariant s) e inv)

steps-Invariant :
    {s : Locks} {ts : List Thread} {u : Locks} {us : List Thread}
    → Invariant s ts
    → Steps s ts u us
    → Invariant u us
steps-Invariant inv here = inv
steps-Invariant inv (next {u} {us = us} steps st) =
    Step-Invariant u _ us _ (steps-Invariant inv steps) st

-- Nobody is in `lock` yet.
abbrev pub AllIdle : List Thread → Type 0
AllIdle ts = All (λ t. t ≡ idle) ts

idle-Backed : (m : GoMap ℕ) (ts : List Thread) → AllIdle ts → All (Backed m) ts
idle-Backed m [] a = tt
idle-Backed m (t ∷ ts) a = (subst (Backed m) (sym a.0) tt, idle-Backed m ts a.1)

start-Invariant :
    (heap : ℕ → RequestLock) (ts : List Thread) → AllIdle ts → Invariant (new_locks heap) ts
unfolding new_locks lookup
start-Invariant heap ts a = record {
  backed = idle-Backed [] ts a;
  entry = λ k p h. absurd (cc);
  apart = λ j k p h i. absurd (cc);
}

bit-le : (b : Bool) → bit b ≤ 1
bit-le b = ground arith

-- However the threads interleave, from a state in which none is in `lock`: for each command at most
-- one thread holds the lock, the map has an entry for it exactly while some thread uses the lock, and
-- the entry's count is the number of those threads.
pub steps-exclude :
    (heap : ℕ → RequestLock) (start ts : List Thread) (s : Locks) (k : String)
    → AllIdle start
    → Steps (new_locks heap) start s ts
    → (total (holds k) ts ≤ 1)
      × (lookup k s.entries ≡ none → total (uses k) ts ≡ 0)
      × ((p : ℕ)
          → lookup k s.entries ≡ some p
          → ((s.heap p).refs ≡ total (uses k) ts) × (1 ≤ total (uses k) ts))
steps-exclude heap start ts s k idles steps =
    let inv = steps-Invariant (start-Invariant heap start idles) steps in
    (
      elim (Option-cases (lookup k s.entries)) [
        | inl e ↦ omega (arith, (unused k s.entries ts e inv.backed).1)
        | inr (p, e) ↦ omega (arith, (inv.entry k p e).mutex, bit-le (s.heap p).locked)
      ],
      (λ e. (unused k s.entries ts e inv.backed).0),
      (λ p e. ((inv.entry k p e).counted, (inv.entry k p e).used)),
    )
