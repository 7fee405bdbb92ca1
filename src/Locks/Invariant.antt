-- ===== src/Locks/Invariant.antt =====
-- The invariant of the command locks (internal/command/service.go, `lock`): each step keeps it.
use cockpit_slurm.Locks.Changes.{Entry}
use cockpit_slurm.Locks.Changes.{Invariant}
use mathlib.Core.Path.{subst₂}
use cockpit_slurm.Base.{
  ℕ, ◌+◌, String, ◌≡◌, refl, ap, ◌∙◌, sym, inl, inr, true, false, none, some, List, ◌∷◌, ◌++◌, ◌==◌,
  nat_eq, string_eq, string_iff, arith, Option-cases, Bool-cases,
}
use cockpit_slurm.Base.Maps.{GoMap, lookup, insert, lookup-insert}
use cockpit_slurm.Locks.RequestLock.{
  Locks, store, find_entry, set_locked, Thread, idle, waiting, holding, leaving,
}
use cockpit_slurm.Locks.Counts.{
  bit, uses, holds, total, total-append, Backed, All-at, All-put, keep_keys, unused,
}
use cockpit_slurm.Locks.Changes.{store-same, store-other, change-Invariant}

lookup_same : (k j : String) (m : GoMap ℕ) → (k == j) ≡ true → lookup k m ≡ lookup j m
lookup_same k j m e = ap (λ x. lookup x m) ((string_iff k j).0 e)

insert-apart :
    (s : Locks) (k : String) (ts : List Thread)
    → Invariant s ts
    → (i j : String) (p : ℕ) → lookup i (insert k s.next s.entries) ≡ some p
    → lookup j (insert k s.next s.entries) ≡ some p
    → i ≡ j
insert-apart s k ts inv i j p a b =
    let x = lookup-insert k i s.next s.entries in
    let y = lookup-insert k j s.next s.entries in
    elim (Bool-cases (k == i)) [
      | inl n ↦ elim (Bool-cases (k == j)) [
        | inl m ↦ sym ((string_iff k i).0 n) ∙ (string_iff k j).0 m
        | inr m ↦
            let old : lookup j s.entries ≡ some p = ground (arith, b, y, m) in
            let pn : s.next ≡ p = ground (arith, a, x, n) in
            absurd (omega (arith, (inv.entry j p old).below, pn))
      ]
      | inr n ↦ elim (Bool-cases (k == j)) [
        | inl m ↦
            let old : lookup i s.entries ≡ some p = ground (arith, a, x, n) in
            let pn : s.next ≡ p = ground (arith, b, y, m) in
            absurd (omega (arith, (inv.entry i p old).below, pn))
        | inr m ↦ inv.apart i j p (ground (arith, a, x, n)) (ground (arith, b, y, m))
      ]
    ]

insert-Invariant :
    (s : Locks) (k : String) (xs ys : List Thread)
    → Invariant s (xs ++ idle ∷ ys)
    → lookup k s.entries ≡ none
    → Invariant
        (record {
          entries = insert k s.next s.entries;
          heap = store s.next (record { locked = false; refs = 1 }) s.heap;
          next = s.next + 1;
        })
        (xs ++ waiting k s.next ∷ ys)
insert-Invariant s k xs ys inv e =
    let (t, rest) = All-at (Backed s.entries) xs idle ys inv.backed in
    let (u, v) = unused k s.entries (xs ++ ys) e rest in
    record {
      backed =
          All-put (Backed (insert k s.next s.entries)) xs (waiting k s.next) ys
            (ground (arith, lookup-insert k k s.next s.entries, string_iff k k))
            (keep_keys s.entries (insert k s.next s.entries) (xs ++ ys)
              (λ j p h.
                ground (arith, h, e, lookup-insert k j s.next s.entries, lookup_same k j s.entries))
              rest);
      apart = λ i j p a b. insert-apart s k (xs ++ idle ∷ ys) inv i j p a b;
      entry = λ j q h. elim (Bool-cases (k == j)) [
        | inl n ↦
            let kj = (string_iff k j).0 n in
            let pq : s.next ≡ q = ground (arith, h, n, lookup-insert k j s.next s.entries) in
            subst₂ (Entry _ (xs ++ waiting k s.next ∷ ys)) kj pq (record {
              counted =
                  ap (λ x. x.refs) (store-same s.next _ s.heap)
                  ∙ ground
                      (arith, string_iff k k, u, total-append (uses k) xs (waiting k s.next) ys);
              used = ground (arith, string_iff k k, total-append (uses k) xs (waiting k s.next) ys);
              below = omega arith;
              mutex =
                  ap (λ x. bit x.locked) (store-same s.next _ s.heap)
                  ∙ ground (arith, v, total-append (holds k) xs (waiting k s.next) ys);
            })
        | inr n ↦
            let at : lookup j s.entries ≡ some q =
              ground (arith, h, n, lookup-insert k j s.next s.entries) in
            let old = inv.entry j q at in
            let there =
              store-other s.next q (record { locked = false; refs = 1 }) s.heap
                (ground (arith, old.below)) in
            let f = total-append (uses j) xs idle ys in
            let g = total-append (uses j) xs (waiting k s.next) ys in
            let counts : total (uses j) (xs ++ idle ∷ ys)
                ≡ total (uses j) (xs ++ waiting k s.next ∷ ys) =
              ground (arith, n, f, g) in
            let holders : total (holds j) (xs ++ idle ∷ ys)
                ≡ total (holds j) (xs ++ waiting k s.next ∷ ys) =
              omega (
                arith,
                total-append (holds j) xs idle ys,
                total-append (holds j) xs (waiting k s.next) ys,
              ) in
            record {
              counted = ap (λ l. l.refs) there ∙ old.counted ∙ counts;
              used = omega (arith, old.used, counts);
              below = omega (arith, old.below);
              mutex = ap (λ l. bit l.locked) there ∙ old.mutex ∙ holders;
            }
      ];
    }

-- A thread finds the entry of its key, or makes one.
pub find_entry-Invariant :
    (s : Locks) (k : String) (xs ys : List Thread)
    → Invariant s (xs ++ idle ∷ ys)
    → Invariant (find_entry k s).1 (xs ++ waiting k (find_entry k s).0 ∷ ys)
unfolding find_entry
find_entry-Invariant s k xs ys inv = elim (Option-cases (lookup k s.entries)) [
  | inr (p, e) ↦
      let old = inv.entry k p e in
      rw (find_entry, e)
        (change-Invariant s k p _ idle (waiting k p) xs ys inv e e
          (λ j n. (ground (arith, n), refl))
          (ground (
            arith,
            old.counted,
            string_iff k k,
            total-append (uses k) xs idle ys,
            total-append (uses k) xs (waiting k p) ys,
          ))
          (ground (arith, old.counted, string_iff k k, total-append (uses k) xs (waiting k p) ys))
          (ground (
            arith,
            old.mutex,
            string_iff k k,
            total-append (holds k) xs idle ys,
            total-append (holds k) xs (waiting k p) ys,
          )))
  | inl e ↦ rw (find_entry, e) (insert-Invariant s k xs ys inv e)
]

-- A lock is taken that nobody holds.
pub lock-Invariant :
    (s : Locks) (k : String) (p : ℕ) (xs ys : List Thread)
    → Invariant s (xs ++ waiting k p ∷ ys)
    → (s.heap p).locked ≡ false
    → Invariant (set_locked p true s) (xs ++ holding k p ∷ ys)
unfolding set_locked
lock-Invariant s k p xs ys inv free =
    let at = (All-at (Backed s.entries) xs (waiting k p) ys inv.backed).0 in
    let old = inv.entry k p at in
    let f = total-append (uses k) xs (waiting k p) ys in
    let g = total-append (uses k) xs (holding k p) ys in
    let f' = total-append (holds k) xs (waiting k p) ys in
    let g' = total-append (holds k) xs (holding k p) ys in
    let none_holds = ap bit (sym free) ∙ old.mutex in
    change-Invariant s k p _ (waiting k p) (holding k p) xs ys inv at at
      (λ j n. (refl, ground (arith, n))) (omega (arith, f, g, old.counted))
      (omega (arith, f, g, old.used)) (ground (arith, string_iff k k, f', g', none_holds))

-- The lock is given up by whoever holds it.
pub unlock-Invariant :
    (s : Locks) (k : String) (p : ℕ) (xs ys : List Thread)
    → Invariant s (xs ++ holding k p ∷ ys)
    → Invariant (set_locked p false s) (xs ++ leaving k p ∷ ys)
unfolding set_locked
unlock-Invariant s k p xs ys inv =
    let at = (All-at (Backed s.entries) xs (holding k p) ys inv.backed).0 in
    let old = inv.entry k p at in
    let f = total-append (uses k) xs (holding k p) ys in
    let g = total-append (uses k) xs (leaving k p) ys in
    let f' = total-append (holds k) xs (holding k p) ys in
    let g' = total-append (holds k) xs (leaving k p) ys in
    change-Invariant s k p _ (holding k p) (leaving k p) xs ys inv at at
      (λ j n. (refl, ground (arith, n))) (omega (arith, f, g, old.counted))
      (omega (arith, f, g, old.used)) (ground (arith, string_iff k k, f', g', old.mutex))
