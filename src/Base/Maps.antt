-- ===== src/Base/Maps.antt =====
-- Go maps with text keys, as association lists: an assignment replaces the entry of its key.
use Prim.Native.String.{String}
use mathlib.Core.Path.{◌≡◌, refl}
use mathlib.Core.Option.{Option, none, some}
use mathlib.Core.List.{List, [], ◌∷◌}
use native.Mathlib.Omega.{arith}
use cockpit_slurm.Base.Tests.{if◌then◌else◌}
use cockpit_slurm.Base.Equality.{◌==◌, string_eq, string_iff}

abbrev pub GoMap {ℓ} : Type ℓ → Type ℓ
GoMap V = List (String × V)

module _ {ℓ} {V : Type ℓ} where
  -- `m[k]`
  unfoldable pub lookup : String → GoMap V → Option V
  lookup key [] = none
  lookup key ((other, value) ∷ entries) = if other == key then some value else lookup key entries

  -- `m[k] = v`
  unfoldable pub insert : String → V → GoMap V → GoMap V
  insert key value [] = (key, value) ∷ []
  insert key value ((other, old) ∷ entries) =
      if other == key then (key, value) ∷ entries else (other, old) ∷ insert key value entries

  -- `delete(entries, key)`
  unfoldable pub remove : String → GoMap V → GoMap V
  remove key [] = []
  remove key ((other, old) ∷ entries) =
      if other == key then remove key entries else (other, old) ∷ remove key entries

  pub lookup-insert :
      (key other : String) (value : V) (entries : GoMap V)
      → lookup other (insert key value entries)
        ≡ (if key == other then some value else lookup other entries)
  unfolding lookup insert
  lookup-insert key other value [] = refl
  lookup-insert key other value ((head, old) ∷ entries) = ground (
    arith,
    string_iff key other,
    string_iff head key,
    string_iff head other,
    lookup-insert key other value entries,
  )

  pub lookup-remove :
      (key other : String) (entries : GoMap V)
      → lookup other (remove key entries) ≡ (if key == other then none else lookup other entries)
  unfolding lookup remove
  lookup-remove key other [] = ground arith
  lookup-remove key other ((head, old) ∷ entries) = ground (
    arith,
    string_iff key other,
    string_iff head key,
    string_iff head other,
    lookup-remove key other entries,
  )

  -- No key has two entries.
  abbrev pub DistinctKeys : GoMap V → Type ℓ
  DistinctKeys [] = Unit
  DistinctKeys ((other, old) ∷ entries) = (lookup other entries ≡ none) × DistinctKeys entries

  pub insert-DistinctKeys :
      (key : String) (value : V) (entries : GoMap V)
      → DistinctKeys entries
      → DistinctKeys (insert key value entries)
  unfolding insert lookup
  insert-DistinctKeys key value [] d = (refl, tt)
  insert-DistinctKeys key value ((head, old) ∷ entries) d = ground (
    arith,
    insert-DistinctKeys key value entries d.1,
    string_iff head key,
    string_iff key head,
    lookup-insert key head value entries,
  )
