-- ===== src/Ledger/Columns.antt =====
-- The columns that the schema versions have, and what a migration adds (internal/ledger/ledger.go).
use cockpit_slurm.Base.{
  ℕ, zero, suc, String, ◌≡◌, refl, inl, inr, true, false, ◌||◌, Option, none, some, List, [], ◌∷◌,
  ◌++◌, ◌==◌, string_eq, string_iff, member, Distinct, All, arith, Bool-cases,
}
use cockpit_slurm.Base.Int.{pos, int_eq}
use cockpit_slurm.Ledger.Schema.{Schema, first_columns, add_column, ensure_column, apply_migration}

-- Every column of the first list is in the second.
abbrev pub HasAll : List String → List String → Type 0
HasAll needed columns = All (λ c. member c columns ≡ true) needed

-- The columns that a database of the second version has from the start.
abbrev pub second_columns : List String
second_columns = "requesting_gid" ∷ "request_message_id" ∷ first_columns

-- The columns of the records that the ledger reads and writes.
abbrev pub all_columns : List String
all_columns = "service_uid" ∷ "service_username" ∷ second_columns

-- The schemas that the program's versions leave: no table, the first table, and tables that have the
-- columns of the second or third version, each once.
abbrev pub KnownColumns : ℕ → Option (List String) → Type 0
KnownColumns zero columns = columns ≡ none
KnownColumns (suc zero) columns = columns ≡ some first_columns
KnownColumns (suc (suc zero)) columns =
    (cs : List String) × (columns ≡ some cs) × HasAll second_columns cs × Distinct cs
KnownColumns (suc (suc (suc n))) columns =
    (n ≡ 0) × ((cs : List String) × (columns ≡ some cs) × HasAll all_columns cs × Distinct cs)

pub record Known (s : Schema) : Type 0 where
  pub number : ℕ
  pub version : s.version ≡ pos number
  pub columns : KnownColumns number s.columns

member-snoc :
    (k c : String) (cs : List String) → member k (cs ++ c ∷ []) ≡ (member k cs || (c == k))
member-snoc k c [] = ground arith
member-snoc k c (x ∷ cs) = ground (arith, member-snoc k c cs)

snoc-Distinct :
    (c : String) (cs : List String) → member c cs ≡ false → Distinct cs → Distinct (cs ++ c ∷ [])
snoc-Distinct c [] m d = (refl, tt)
snoc-Distinct c (x ∷ cs) m d =
    ground (arith, member-snoc x c cs, string_iff c x, string_iff x c, snoc-Distinct c cs)

snoc-HasAll :
    (c : String) (needed cs : List String) → HasAll needed cs → HasAll needed (cs ++ c ∷ [])
snoc-HasAll c [] cs h = tt
snoc-HasAll c (n ∷ needed) cs h =
    (ground (arith, member-snoc n c cs, h.0), snoc-HasAll c needed cs h.1)

ensure_column-some :
    (c : String) (cs : List String)
    → Distinct cs
    → (ds : List String) × (ensure_column c (some cs) ≡ some ds)
      × (member c ds ≡ true)
      × Distinct ds
      × ((needed : List String) → HasAll needed cs → HasAll needed ds)
unfolding ensure_column add_column
ensure_column-some c cs d = elim (Bool-cases (member c cs)) [
  | inl e ↦ (cs, ground (arith, e), e, d, λ n h. h)
  | inr e ↦ (
    cs ++ c ∷ [],
    ground (arith, e),
    ground (arith, member-snoc c c cs, string_iff c c),
    snoc-Distinct c cs e d,
    λ n h. snoc-HasAll c n cs h,
  )
]

pub apply_third :
    (cs : List String)
    → HasAll second_columns cs
    → Distinct cs
    → (ds : List String) × (apply_migration (pos 3) (some cs) ≡ some ds)
      × HasAll all_columns ds
      × Distinct ds
unfolding apply_migration
apply_third cs h d =
    let (a, e, m, d', f) = ensure_column-some "service_uid" cs d in
    let (b, e', m', d'', f') = ensure_column-some "service_username" a d' in
    (
      b,
      ground (arith, e, e'),
      ((f' ("service_uid" ∷ []) (m, tt)).0, (m', f' second_columns (f second_columns h))),
      d'',
    )

-- The table of the second version, made from the first.
abbrev pub second_table : List String
second_table =
    first_columns
    ++ "requesting_gid" ∷ "request_message_id" ∷ "service_uid" ∷ "service_username" ∷ []

pub apply_second :
    (apply_migration (pos 2) (some first_columns) ≡ some second_table)
    × HasAll second_columns second_table
    × Distinct second_table
unfolding apply_migration add_column
apply_second = (refl, ground arith, ground arith)
