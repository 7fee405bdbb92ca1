-- ===== src/Json/Trees.antt =====
-- JSON values as trees, the tokens of a tree, and when every object of a tree has distinct keys.
use cockpit_slurm.Base.{member}
use cockpit_slurm.Base.{Distinct}
use cockpit_slurm.Base.{String, ◌≡◌, false, List, [], ◌∷◌, string_eq, string_iff, arith}
use cockpit_slurm.Json.Scanner.{
  Token, open_object, close_object, open_array, close_array, text, scalar,
}

mutual
  pub data Value : Type 0 where
    string : String → Value
    atom : Value
    object : Fields → Value
    array : Items → Value

  pub data Fields : Type 0 where
    no_field : Fields
    field : String → Value → Fields → Fields

  pub data Items : Type 0 where
    no_item : Items
    item : Value → Items → Items

-- The tokens of a value in front of others.
unfoldable mutual
  pub print : Value → List Token → List Token
  print (string s) ts = text s ∷ ts
  print atom ts = scalar ∷ ts
  print (object fs) ts = open_object ∷ print_fields fs ts
  print (array xs) ts = open_array ∷ print_items xs ts

  pub print_fields : Fields → List Token → List Token
  print_fields no_field ts = close_object ∷ ts
  print_fields (field k v fs) ts = text k ∷ print v (print_fields fs ts)

  pub print_items : Items → List Token → List Token
  print_items no_item ts = close_array ∷ ts
  print_items (item v xs) ts = print v (print_items xs ts)

abbrev pub names : Fields → List String
names no_field = []
names (field k v fs) = k ∷ names fs

-- Every object in the value has distinct keys.
abbrev mutual
  pub UniqueKeys : Value → Type 0
  UniqueKeys (string s) = Unit
  UniqueKeys atom = Unit
  UniqueKeys (object fs) = Distinct (names fs) × UniqueInFields fs
  UniqueKeys (array xs) = UniqueInItems xs

  pub UniqueInFields : Fields → Type 0
  UniqueInFields no_field = Unit
  UniqueInFields (field k v fs) = UniqueKeys v × UniqueInFields fs

  pub UniqueInItems : Items → Type 0
  UniqueInItems no_item = Unit
  UniqueInItems (item v xs) = UniqueKeys v × UniqueInItems xs

-- None of the names is among the keys seen so far.
abbrev pub Fresh : List String → List String → Type 0
Fresh seen [] = Unit
Fresh seen (k ∷ ks) = (member k seen ≡ false) × Fresh seen ks

pub new_names : (ks : List String) → Fresh [] ks
new_names [] = tt
new_names (k ∷ ks) = ground (arith, new_names ks)

pub seen_grow :
    (k : String) (seen ks : List String) → member k ks ≡ false → Fresh seen ks → Fresh (k ∷ seen) ks
seen_grow k seen [] m f = tt
seen_grow k seen (j ∷ ks) m f = ground (arith, string_iff k j, string_iff j k, seen_grow k seen ks)

pub seen_shrink :
    (k : String) (seen ks : List String)
    → Fresh (k ∷ seen) ks
    → (member k ks ≡ false) × Fresh seen ks
seen_shrink k seen [] f = ground arith
seen_shrink k seen (j ∷ ks) f =
    ground (arith, string_iff k j, string_iff j k, seen_shrink k seen ks)
