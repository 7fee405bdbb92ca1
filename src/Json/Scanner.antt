-- ===== src/Json/Scanner.antt =====
-- internal/protocol/json_validation.go. What the JSON decoder reads from the bytes is a list of tokens
-- and the way it ends; `More` is false at the end and in front of a closing delimiter.
use cockpit_slurm.Base.{member}
use cockpit_slurm.Base.{if◌then◌else◌}
use cockpit_slurm.Base.{
  ℕ, zero, suc, ◌+◌, ◌*◌, String, Bool, false, List, [], ◌∷◌, string_eq, length,
}

-- The last one stands for a number, a Boolean or `null`.
pub data Token : Type 0 where
  open_object close_object open_array close_array : Token
  text : String → Token
  scalar : Token

-- What a decoder returns: its tokens, and whether the last `Token` says `io.EOF` rather than another
-- error.
pub record Reading : Type 0 where
  pub tokens : List Token
  pub ends_with_eof : Bool

-- An error, the tokens behind what was consumed, or that the fuel of the model ran out.
pub data Scan : Type 0 where
  out_of_fuel failed : Scan
  rest : List Token → Scan

infixl 5 ◌>>=◌
abbrev pub ◌>>=◌ : Scan → (List Token → Scan) → Scan
out_of_fuel >>= f = out_of_fuel
failed >>= f = failed
rest ts >>= f = f ts

-- `consumeJSONValue`, with its loops over the fields of an object and the elements of an array.
unfoldable mutual
  pub consume : ℕ → List Token → Scan
  consume zero ts = out_of_fuel
  consume (suc n) [] = failed
  consume (suc n) (open_object ∷ ts) = consume_fields n [] ts
  consume (suc n) (open_array ∷ ts) = consume_items n ts
  consume (suc n) (close_object ∷ ts) = failed
  consume (suc n) (close_array ∷ ts) = failed
  consume (suc n) (text s ∷ ts) = rest ts
  consume (suc n) (scalar ∷ ts) = rest ts

  pub consume_fields : ℕ → List String → List Token → Scan
  consume_fields zero keys ts = out_of_fuel
  consume_fields (suc n) keys [] = failed
  consume_fields (suc n) keys (close_object ∷ ts) = rest ts
  consume_fields (suc n) keys (close_array ∷ ts) = failed
  consume_fields (suc n) keys (open_object ∷ ts) = failed
  consume_fields (suc n) keys (open_array ∷ ts) = failed
  consume_fields (suc n) keys (scalar ∷ ts) = failed
  consume_fields (suc n) keys (text key ∷ ts) =
      if member key keys then failed else (consume n ts >>= consume_fields n (key ∷ keys))

  pub consume_items : ℕ → List Token → Scan
  consume_items zero ts = out_of_fuel
  consume_items (suc n) [] = failed
  consume_items (suc n) (close_array ∷ ts) = rest ts
  consume_items (suc n) (close_object ∷ ts) = failed
  consume_items (suc n) (t ∷ ts) = consume n (t ∷ ts) >>= consume_items n

abbrev pub fuel_for : List Token → ℕ
fuel_for ts = 2 * length ts + 1

unfoldable pub ends_there : Scan → Bool → Bool
ends_there (rest []) eof = eof
ends_there _ eof = false

-- `validateUniqueJSONKeys`; true where it returns no error.
unfoldable pub validate_unique_json_keys : Reading → Bool
validate_unique_json_keys r = ends_there (consume (fuel_for r.tokens) r.tokens) r.ends_with_eof
