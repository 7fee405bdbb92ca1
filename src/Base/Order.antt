-- ===== src/Base/Order.antt =====
-- The order of Go strings: the bytes of UTF-8 are ordered as the code points are.
use cockpit_slurm.Base.Texts.{Distinct}
use cockpit_slurm.Base.Tests.{Bool-cases}
use Prim.Native.Nat.{ℕ}
use Prim.Native.Char.{Char, code}
use Prim.Native.String.{String}
use mathlib.Core.Path.{◌≡◌, refl, ap, ◌∙◌}
use mathlib.Core.Logic.{inl, inr}
use cockpit_slurm.Base.Tests.{Bool-cases}
use mathlib.Core.Bool.{Bool, true, false, ◌&&◌, ◌||◌}
use mathlib.Core.List.{List, [], ◌∷◌}
use native.Mathlib.Omega.{arith}
use text.Mathlib.TextEquality.{codes_equal}
use cockpit_slurm.Base.Tests.{ltb, if◌then◌else◌}
use cockpit_slurm.Base.Equality.{◌==◌, nat_eq, string_eq, string_iff}
use cockpit_slurm.Base.Lists.{All}
use cockpit_slurm.Base.Texts.{codes, member}

-- Lexicographic.
abbrev pub codes_ltb : List ℕ → List ℕ → Bool
codes_ltb [] [] = false
codes_ltb [] (y ∷ ys) = true
codes_ltb (x ∷ xs) [] = false
codes_ltb (x ∷ xs) (y ∷ ys) = ltb x y || (x == y && codes_ltb xs ys)

abbrev pub text_ltb : String → String → Bool
text_ltb s t = codes_ltb (codes s) (codes t)

codes_ltb_trans :
    (xs ys zs : List ℕ) → codes_ltb xs ys ≡ true → codes_ltb ys zs ≡ true → codes_ltb xs zs ≡ true
codes_ltb_trans [] [] zs h k = absurd (cc)
codes_ltb_trans [] (y ∷ ys) [] h k = absurd (cc)
codes_ltb_trans [] (y ∷ ys) (z ∷ zs) h k = refl
codes_ltb_trans (x ∷ xs) [] zs h k = absurd (cc)
codes_ltb_trans (x ∷ xs) (y ∷ ys) [] h k = absurd (cc)
codes_ltb_trans (x ∷ xs) (y ∷ ys) (z ∷ zs) h k = ground (arith, codes_ltb_trans xs ys zs)

codes_ltb_total : (xs ys : List ℕ) → codes_ltb xs ys ≡ false → codes_ltb ys xs ≡ false → xs ≡ ys
codes_ltb_total [] [] h k = refl
codes_ltb_total [] (y ∷ ys) h k = absurd (cc)
codes_ltb_total (x ∷ xs) [] h k = absurd (cc)
codes_ltb_total (x ∷ xs) (y ∷ ys) h k = ground (arith, codes_ltb_total xs ys)

codes_ltb_irrefl : (xs : List ℕ) → codes_ltb xs xs ≡ false
codes_ltb_irrefl [] = refl
codes_ltb_irrefl (x ∷ xs) = ground (arith, codes_ltb_irrefl xs)

code_inj : (c d : Char) → code c ≡ code d → c ≡ d
code_inj c d h = codes_equal c d (ground (arith))

codes_inj : (s t : String) → codes s ≡ codes t → s ≡ t
codes_inj String.[] String.[] h = refl
codes_inj String.[] (String.◌∷◌ d t) h = absurd (cc)
codes_inj (String.◌∷◌ c s) String.[] h = absurd (cc)
codes_inj (String.◌∷◌ c s) (String.◌∷◌ d t) h =
    let e : (code c ≡ code d) × (codes s ≡ codes t) = ground arith in
    let p = code_inj c d e.0 in let q = codes_inj s t e.1 in cc

pub text_ltb_trans :
    (s t u : String) → text_ltb s t ≡ true → text_ltb t u ≡ true → text_ltb s u ≡ true
text_ltb_trans s t u h k = codes_ltb_trans (codes s) (codes t) (codes u) h k

pub text_ltb_total : (s t : String) → text_ltb s t ≡ false → (s == t) ≡ false → text_ltb t s ≡ true
text_ltb_total s t h e =
    ground (arith, string_iff s t, codes_ltb_total (codes s) (codes t), codes_inj s t)

-- Each text comes before the ones behind it.
abbrev pub Ascending : List String → Type 0
Ascending [] = Unit
Ascending (x ∷ xs) = All (λ y. text_ltb x y ≡ true) xs × Ascending xs

-- No text comes before one in front of it.
abbrev pub Sorted : List String → Type 0
Sorted [] = Unit
Sorted (x ∷ xs) = All (λ y. text_ltb y x ≡ false) xs × Sorted xs

-- `sort.Strings`: a list has one sorted order of its texts, so that the algorithm does not matter.
unfoldable pub insert_string : String → List String → List String
insert_string x [] = x ∷ []
insert_string x (y ∷ ys) = if text_ltb y x then y ∷ insert_string x ys else x ∷ y ∷ ys

unfoldable pub sort_strings : List String → List String
sort_strings [] = []
sort_strings (x ∷ xs) = insert_string x (sort_strings xs)

member-insert_string :
    (k x : String) (xs : List String) → member k (insert_string x xs) ≡ ((x == k) || member k xs)
unfolding insert_string
member-insert_string k x [] = refl
member-insert_string k x (y ∷ ys) = ground (arith, member-insert_string k x ys)

pub member-sort_strings : (k : String) (xs : List String) → member k (sort_strings xs) ≡ member k xs
unfolding sort_strings
member-sort_strings k [] = refl
member-sort_strings k (x ∷ xs) =
    ground (arith, member-insert_string k x (sort_strings xs), member-sort_strings k xs)

All-insert_string {ℓ} :
    (P : String → Type ℓ) (x : String) (xs : List String)
    → P x
    → All P xs
    → All P (insert_string x xs)
unfolding insert_string
All-insert_string P x [] p ps = (p, tt)
All-insert_string P x (y ∷ ys) p ps = elim (Bool-cases (text_ltb y x)) [
  | inl e ↦ rw e (ps.0, All-insert_string P x ys p ps.1)
  | inr e ↦ rw e (p, ps)
]

-- Whoever comes before the first comes before all.
pub above_trans :
    (x y : String) (ys : List String)
    → text_ltb x y ≡ true
    → All (λ z. text_ltb y z ≡ true) ys
    → All (λ z. text_ltb x z ≡ true) ys
above_trans x y [] h ps = tt
above_trans x y (z ∷ zs) h ps = (text_ltb_trans x y z h ps.0, above_trans x y zs h ps.1)

insert_string-Ascending :
    (x : String) (xs : List String)
    → member x xs ≡ false
    → Ascending xs
    → Ascending (insert_string x xs)
unfolding insert_string
insert_string-Ascending x [] m s = (tt, tt)
insert_string-Ascending x (y ∷ ys) m s = elim (Bool-cases (text_ltb y x)) [
  | inl e ↦ rw e (
    All-insert_string (λ z. text_ltb y z ≡ true) x ys e s.0,
    insert_string-Ascending x ys (ground arith) s.1,
  )
  | inr e ↦ let h = text_ltb_total y x e (ground arith) in rw e ((h, above_trans x y ys h s.0), s)
]

-- Distinct texts are strictly ascending once they are sorted.
pub sort_strings-Ascending : (xs : List String) → Distinct xs → Ascending (sort_strings xs)
unfolding sort_strings
sort_strings-Ascending [] d = tt
sort_strings-Ascending (x ∷ xs) d =
    insert_string-Ascending x (sort_strings xs) (member-sort_strings x xs ∙ d.0)
      (sort_strings-Ascending xs d.1)

-- Whatever does not come before `y` does not come before `x` either, where `y` does not.
text_leb_trans :
    (x y z : String) → text_ltb y x ≡ false → text_ltb z y ≡ false → text_ltb z x ≡ false
text_leb_trans x y z h k = elim (Bool-cases (z == y)) [
  | inl e ↦ ap (λ w. text_ltb w x) ((string_iff z y).0 e) ∙ h
  | inr e ↦
      let above = text_ltb_total z y k e in
      elim (Bool-cases (text_ltb z x)) [
        | inl l ↦ absurd (ground (arith, h, text_ltb_trans y z x above l))
        | inr l ↦ l
      ]
]

sorted_behind :
    (x y : String) (ys : List String)
    → text_ltb y x ≡ false
    → All (λ z. text_ltb z y ≡ false) ys
    → All (λ z. text_ltb z x ≡ false) ys
sorted_behind x y [] h ps = tt
sorted_behind x y (z ∷ zs) h ps = (text_leb_trans x y z h ps.0, sorted_behind x y zs h ps.1)

text_ltb_asymm : (s t : String) → text_ltb s t ≡ true → text_ltb t s ≡ false
text_ltb_asymm s t h = ground (arith, text_ltb_trans s t s, codes_ltb_irrefl (codes s))

insert_string-Sorted : (x : String) (xs : List String) → Sorted xs → Sorted (insert_string x xs)
unfolding insert_string
insert_string-Sorted x [] s = (tt, tt)
insert_string-Sorted x (y ∷ ys) s = elim (Bool-cases (text_ltb y x)) [
  | inl e ↦ rw e (
    All-insert_string (λ z. text_ltb z y ≡ false) x ys (text_ltb_asymm y x e) s.0,
    insert_string-Sorted x ys s.1,
  )
  | inr e ↦ rw e ((e, sorted_behind x y ys e s.0), s)
]

pub sort_strings-Sorted : (xs : List String) → Sorted (sort_strings xs)
unfolding sort_strings
sort_strings-Sorted [] = tt
sort_strings-Sorted (x ∷ xs) = insert_string-Sorted x (sort_strings xs) (sort_strings-Sorted xs)
