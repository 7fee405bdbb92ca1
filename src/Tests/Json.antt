-- ===== src/Tests/Json.antt =====
-- The scan of one object with a nested array (internal/protocol/json_validation.go).
use cockpit_slurm.Json.Scanner.{consume}
use cockpit_slurm.Json.Scanner.{ends_there}
use cockpit_slurm.Base.{◌≡◌, refl, true, false, ◌↔◌, [], ◌∷◌}
use cockpit_slurm.Json.Scanner.{
  Reading, open_object, close_object, open_array, close_array, text, scalar,
  validate_unique_json_keys,
}
use cockpit_slurm.Json.Trees.{Value, print, UniqueKeys}
use cockpit_slurm.Json.Rejects.{validate_unique_json_keys_iff}

abbrev reading : Reading
reading = record {
  tokens =
      open_object
      ∷ text "a"
      ∷ open_array
      ∷ scalar
      ∷ close_array
      ∷ text "b"
      ∷ scalar
      ∷ close_object
      ∷ [];
  ends_with_eof = true;
}

abbrev repeated : Reading
repeated = record {
  tokens = open_object ∷ text "a" ∷ scalar ∷ text "a" ∷ scalar ∷ close_object ∷ [];
  ends_with_eof = true;
}

accepts_reading : validate_unique_json_keys reading ≡ true
unfolding validate_unique_json_keys ends_there consume
accepts_reading = refl

rejects_repeated : validate_unique_json_keys repeated ≡ false
unfolding validate_unique_json_keys ends_there consume
rejects_repeated = refl

validate_unique_json_keys_iff_example : (validate_unique_json_keys reading ≡ true) ↔ (
    (v : Value) × (reading ≡ record { tokens = print v []; ends_with_eof = true }) × UniqueKeys v)
validate_unique_json_keys_iff_example = validate_unique_json_keys_iff reading
