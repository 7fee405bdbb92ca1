-- ===== src/Locks/Counts.antt =====
-- How many threads use a command's lock, and how many hold it (internal/command/service.go, `lock`).
use cockpit_slurm.Base.{
  ℕ, ◌+◌, String, ◌≡◌, refl, Bool, true, false, none, some, List, [], ◌∷◌, ◌++◌, ◌==◌, string_eq,
  string_iff, All, arith,
}
use cockpit_slurm.Base.Maps.{GoMap, lookup}
use cockpit_slurm.Locks.RequestLock.{Thread, idle, waiting, holding, leaving}

abbrev pub bit : Bool → ℕ
bit true = 1
bit false = 0

abbrev pub uses : String → Thread → ℕ
uses k idle = 0
uses k (waiting j p) = bit (j == k)
uses k (holding j p) = bit (j == k)
uses k (leaving j p) = bit (j == k)

abbrev pub holds : String → Thread → ℕ
holds k idle = 0
holds k (waiting j p) = 0
holds k (holding j p) = bit (j == k)
holds k (leaving j p) = 0

abbrev pub total : (Thread → ℕ) → List Thread → ℕ
total w [] = 0
total w (t ∷ ts) = w t + total w ts

pub total-append :
    (w : Thread → ℕ) (xs : List Thread) (t : Thread) (ys : List Thread)
    → total w (xs ++ t ∷ ys) ≡ w t + total w (xs ++ ys)
total-append w [] t ys = refl
total-append w (x ∷ xs) t ys = omega (arith, total-append w xs t ys)

-- The pointer that a thread has is the one in the map.
abbrev pub Backed : GoMap ℕ → Thread → Type 0
Backed m idle = Unit
Backed m (waiting k p) = lookup k m ≡ some p
Backed m (holding k p) = lookup k m ≡ some p
Backed m (leaving k p) = lookup k m ≡ some p

pub All-at {ℓ} :
    (P : Thread → Type ℓ) (xs : List Thread) (t : Thread) (ys : List Thread)
    → All P (xs ++ t ∷ ys)
    → P t × All P (xs ++ ys)
All-at P [] t ys a = a
All-at P (x ∷ xs) t ys a = let (p, q) = All-at P xs t ys a.1 in (p, (a.0, q))

pub All-put {ℓ} :
    (P : Thread → Type ℓ) (xs : List Thread) (t : Thread) (ys : List Thread)
    → P t
    → All P (xs ++ ys)
    → All P (xs ++ t ∷ ys)
All-put P [] t ys p a = (p, a)
All-put P (x ∷ xs) t ys p a = (a.0, All-put P xs t ys p a.1)

-- A map that has all entries of another backs the same threads; so does one that has lost the entry
-- of a key that none of them uses.
pub keep_other_keys :
    (k : String) (m n : GoMap ℕ) (ts : List Thread)
    → ((j : String) (p : ℕ) → (j ≡ k → ⊥) → lookup j m ≡ some p → lookup j n ≡ some p)
    → total (uses k) ts ≡ 0
    → All (Backed m) ts
    → All (Backed n) ts
keep_other_keys k m n [] f u a = tt
keep_other_keys k m n (idle ∷ ts) f u a = (tt, keep_other_keys k m n ts f (omega arith) a.1)
keep_other_keys k m n (waiting j p ∷ ts) f u a = (
  f j p (λ e. ground (arith, string_iff j k)) a.0,
  keep_other_keys k m n ts f (omega (arith)) a.1,
)
keep_other_keys k m n (holding j p ∷ ts) f u a = (
  f j p (λ e. ground (arith, string_iff j k)) a.0,
  keep_other_keys k m n ts f (omega (arith)) a.1,
)
keep_other_keys k m n (leaving j p ∷ ts) f u a = (
  f j p (λ e. ground (arith, string_iff j k)) a.0,
  keep_other_keys k m n ts f (omega (arith)) a.1,
)

pub keep_keys :
    (m n : GoMap ℕ) (ts : List Thread)
    → ((j : String) (p : ℕ) → lookup j m ≡ some p → lookup j n ≡ some p)
    → All (Backed m) ts
    → All (Backed n) ts
keep_keys m n [] f a = tt
keep_keys m n (idle ∷ ts) f a = (tt, keep_keys m n ts f a.1)
keep_keys m n (waiting j p ∷ ts) f a = (f j p a.0, keep_keys m n ts f a.1)
keep_keys m n (holding j p ∷ ts) f a = (f j p a.0, keep_keys m n ts f a.1)
keep_keys m n (leaving j p ∷ ts) f a = (f j p a.0, keep_keys m n ts f a.1)

-- Nobody uses a key that the map does not have.
pub unused :
    (k : String) (m : GoMap ℕ) (ts : List Thread)
    → lookup k m ≡ none
    → All (Backed m) ts
    → (total (uses k) ts ≡ 0) × (total (holds k) ts ≡ 0)
unused k m [] h a = (refl, refl)
unused k m (idle ∷ ts) h a = ground (arith, unused k m ts h a.1)
unused k m (waiting j p ∷ ts) h a = ground (arith, string_iff j k, unused k m ts h a.1)
unused k m (holding j p ∷ ts) h a = ground (arith, string_iff j k, unused k m ts h a.1)
unused k m (leaving j p ∷ ts) h a = ground (arith, string_iff j k, unused k m ts h a.1)
