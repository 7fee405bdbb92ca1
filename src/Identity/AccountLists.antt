-- ===== src/Identity/AccountLists.antt =====
-- The account lists of the Slurm lookup: order and members (internal/identity/sacctmgr.go).
use cockpit_slurm.Base.{
  String, ◌≡◌, refl, ap, ◌∙◌, inl, inr, Bool, true, false, not, ◌&&◌, ◌||◌, Option, none, some,
  List, [], ◌∷◌, ◌==◌, string_eq, string_iff, is_empty, arith, Bool-cases, member, Distinct, All,
}
use cockpit_slurm.Base.Order.{
  text_ltb, Ascending, Sorted, sort_strings, member-sort_strings, sort_strings-Ascending,
  above_trans, text_ltb_total,
}
use cockpit_slurm.Identity.Sacctmgr.{
  distinct_accounts, accounts_of, named_coordinators, coordinators_of, compact_from,
  compact_strings,
}

-- A name that the associations have.
abbrev pub named_by : String → List (Option String) → Bool
named_by k [] = false
named_by k (none ∷ rows) = named_by k rows
named_by k (some a ∷ rows) = a == k || named_by k rows

abbrev pub associated : String → Option (List (Option String)) → Bool
associated k none = false
associated k (some rows) = named_by k rows

abbrev pub coordinates : String → Option (List String) → Bool
coordinates k none = false
coordinates k (some cs) = member k cs

member-distinct_accounts :
    (k : String) (seen : List String) (rows : List (Option String))
    → member k (distinct_accounts seen rows)
      ≡ (named_by k rows && (not (is_empty k) && not (member k seen)))
unfolding distinct_accounts
member-distinct_accounts k seen [] = refl
member-distinct_accounts k seen (none ∷ rows) = member-distinct_accounts k seen rows
member-distinct_accounts k seen (some a ∷ rows) = elim (Bool-cases (a == k)) [
  | inl e ↦
      let p = (string_iff a k).0 e in
      ground (
        arith,
        e,
        ap is_empty p,
        ap (λ b. member b seen) p,
        member-distinct_accounts k seen rows,
        member-distinct_accounts k (a ∷ seen) rows,
      )
  | inr e ↦ ground (
    arith,
    e,
    string_iff a k,
    member-distinct_accounts k seen rows,
    member-distinct_accounts k (a ∷ seen) rows,
  )
]

distinct_accounts-Distinct :
    (seen : List String) (rows : List (Option String)) → Distinct (distinct_accounts seen rows)
unfolding distinct_accounts
distinct_accounts-Distinct seen [] = tt
distinct_accounts-Distinct seen (none ∷ rows) = distinct_accounts-Distinct seen rows
distinct_accounts-Distinct seen (some a ∷ rows) = ground (
  arith,
  distinct_accounts-Distinct seen rows,
  distinct_accounts-Distinct (a ∷ seen) rows,
  member-distinct_accounts a (a ∷ seen) rows,
  string_iff a a,
)

member-named_coordinators :
    (k : String) (cs : List String)
    → member k (named_coordinators cs) ≡ (member k cs && not (is_empty k))
unfolding named_coordinators
member-named_coordinators k [] = refl
member-named_coordinators k (c ∷ cs) = elim (Bool-cases (c == k)) [
  | inl e ↦ ground (arith, e, ap is_empty ((string_iff c k).0 e), member-named_coordinators k cs)
  | inr e ↦ ground (arith, e, member-named_coordinators k cs)
]

member-compact_from :
    (k last : String) (vs : List String)
    → (last == k || member k (compact_from last vs)) ≡ (last == k || member k vs)
unfolding compact_from
member-compact_from k last [] = refl
member-compact_from k last (v ∷ vs) =
    ground (arith, member-compact_from k v vs, member-compact_from k last vs, string_iff v last)

-- What is kept behind `last` of sorted texts that do not come before it.
compact_from-Ascending :
    (last : String) (vs : List String)
    → All (λ y. text_ltb y last ≡ false) vs
    → Sorted vs
    → All (λ y. text_ltb last y ≡ true) (compact_from last vs) × Ascending (compact_from last vs)
unfolding compact_from
compact_from-Ascending last [] b s = (tt, tt)
compact_from-Ascending last (v ∷ vs) b s = elim (Bool-cases (v == last)) [
  | inl e ↦ rw e (compact_from-Ascending last vs b.1 s.1)
  | inr e ↦
      let h = text_ltb_total v last b.0 e in
      let (p, q) = compact_from-Ascending v vs s.0 s.1 in
      rw e ((h, above_trans last v (compact_from v vs) h p), (p, q))
]

pub compact_strings-Ascending : (vs : List String) → Sorted vs → Ascending (compact_strings vs)
unfolding compact_strings
compact_strings-Ascending [] s = tt
compact_strings-Ascending (v ∷ vs) s = compact_from-Ascending v vs s.0 s.1

member-compact_strings :
    (k : String) (vs : List String) → member k (compact_strings vs) ≡ member k vs
unfolding compact_strings
member-compact_strings k [] = refl
member-compact_strings k (v ∷ vs) = member-compact_from k v vs

pub accounts-are :
    (k : String) (rows : Option (List (Option String)))
    → member k (sort_strings (accounts_of rows)) ≡ (associated k rows && not (is_empty k))
unfolding accounts_of sort_strings
accounts-are k none = refl
accounts-are k (some rows) =
    ground
      (arith, member-sort_strings k (distinct_accounts [] rows), member-distinct_accounts k [] rows)

pub accounts-ascend :
    (rows : Option (List (Option String))) → Ascending (sort_strings (accounts_of rows))
unfolding accounts_of
accounts-ascend none = sort_strings-Ascending [] tt
accounts-ascend (some rows) =
    sort_strings-Ascending (distinct_accounts [] rows) (distinct_accounts-Distinct [] rows)

pub coordinators-are :
    (k : String) (cs : Option (List String))
    → member k (compact_strings (sort_strings (coordinators_of cs)))
      ≡ (coordinates k cs && not (is_empty k))
unfolding coordinators_of sort_strings compact_strings
coordinators-are k none = refl
coordinators-are k (some cs) =
    member-compact_strings k (sort_strings (named_coordinators cs))
    ∙ member-sort_strings k (named_coordinators cs)
    ∙ member-named_coordinators k cs
