-- ===== src/Locks/Changes.antt =====
-- The invariant of the command locks, and a change of one lock (internal/command/service.go, `lock`).
use mathlib.Core.Path.{subst₂}
use cockpit_slurm.Base.{
  ℕ, ◌≤◌, ◌<◌, String, ◌≡◌, ap, ◌∙◌, sym, inl, inr, false, some, List, ◌∷◌, ◌++◌, ◌==◌, nat_eq,
  string_eq, string_iff, All, arith, Bool-cases,
}
use cockpit_slurm.Base.Maps.{lookup}
use cockpit_slurm.Locks.RequestLock.{RequestLock, Locks, store, Thread}
use cockpit_slurm.Locks.Counts.{bit, uses, holds, total, total-append, Backed, All-at, All-put}

-- What holds of an entry of the map: its lock counts the threads that use it, and is locked
-- exactly while one of them holds it.
pub record Entry (s : Locks) (ts : List Thread) (k : String) (p : ℕ) : Type 0 where
  pub counted : (s.heap p).refs ≡ total (uses k) ts
  pub used : 1 ≤ total (uses k) ts
  pub below : p < s.next
  pub mutex : bit (s.heap p).locked ≡ total (holds k) ts

pub record Invariant (s : Locks) (ts : List Thread) : Type 0 where
  pub backed : All (Backed s.entries) ts
  pub entry : (k : String) (p : ℕ) → lookup k s.entries ≡ some p → Entry s ts k p
  pub apart :
      (j k : String) (p : ℕ) → lookup j s.entries ≡ some p → lookup k s.entries ≡ some p → j ≡ k

pub store-same : (p : ℕ) (l : RequestLock) (heap : ℕ → RequestLock) → store p l heap p ≡ l
unfolding store
store-same p l heap = ground arith

pub store-other :
    (p q : ℕ) (l : RequestLock) (heap : ℕ → RequestLock)
    → (p == q) ≡ false
    → store p l heap q ≡ heap q
unfolding store
store-other p q l heap e = ground (arith, e)

some_inj : {p q : ℕ} → some p ≡ some q → p ≡ q
some_inj h = cc

-- A change of one lock, and of one thread that uses it, keeps the invariant where the lock still counts right.
pub change-Invariant :
    (s : Locks) (k : String) (p : ℕ) (lock : RequestLock) (t u : Thread) (xs ys : List Thread)
    → Invariant s (xs ++ t ∷ ys)
    → lookup k s.entries ≡ some p
    → Backed s.entries u
    → ((j : String) → (k == j) ≡ false → (uses j u ≡ uses j t) × (holds j u ≡ holds j t))
    → lock.refs ≡ total (uses k) (xs ++ u ∷ ys)
    → 1 ≤ total (uses k) (xs ++ u ∷ ys)
    → bit lock.locked ≡ total (holds k) (xs ++ u ∷ ys)
    → Invariant (record s { heap = store p lock s.heap }) (xs ++ u ∷ ys)
change-Invariant s k p lock t u xs ys inv at b same counted used mutex = record {
  backed = All-put (Backed s.entries) xs u ys b (All-at (Backed s.entries) xs t ys inv.backed).1;
  apart = inv.apart;
  entry = λ j q h. elim (Bool-cases (k == j)) [
    | inl e ↦
        let kj = (string_iff k j).0 e in
        let pq : p ≡ q = some_inj (sym at ∙ ap (λ x. lookup x s.entries) kj ∙ h) in
        subst₂ (Entry (record s { heap = store p lock s.heap }) (xs ++ u ∷ ys)) kj pq (record {
          counted = ap (λ x. x.refs) (store-same p lock s.heap) ∙ counted;
          used = used;
          below = (inv.entry k p at).below;
          mutex = ap (λ x. bit x.locked) (store-same p lock s.heap) ∙ mutex;
        })
    | inr e ↦
        let old = inv.entry j q h in
        let (x, y) = same j e in
        let pq : (p == q) ≡ false = ground (arith, e, string_iff k j, inv.apart k j q) in
        let there = store-other p q lock s.heap pq in
        let f = total-append (uses j) xs t ys in
        let g = total-append (uses j) xs u ys in
        let f' = total-append (holds j) xs t ys in
        let g' = total-append (holds j) xs u ys in
        let counts : total (uses j) (xs ++ t ∷ ys) ≡ total (uses j) (xs ++ u ∷ ys) =
          omega (arith, f, g, x) in
        let holders : total (holds j) (xs ++ t ∷ ys) ≡ total (holds j) (xs ++ u ∷ ys) =
          omega (arith, f', g', y) in
        record {
          counted = ap (λ l. l.refs) there ∙ old.counted ∙ counts;
          used = omega (arith, old.used, counts);
          below = old.below;
          mutex = ap (λ l. bit l.locked) there ∙ old.mutex ∙ holders;
        }
  ];
}
