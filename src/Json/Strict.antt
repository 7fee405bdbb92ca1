-- ===== src/Json/Strict.antt =====
-- `decodeStrictPayload` of internal/protocol/capabilities.go: which payloads a strict decoder accepts.
-- The JSON decoder is an argument.
use cockpit_slurm.Base.{
  ℕ, Bool, false, not, Option, none, some, List, [], ◌∷◌, ◌==◌, if◌then◌else◌, nat_eq, String,
  codes,
}
use cockpit_slurm.Identity.Resolver.{trim_space}
use cockpit_slurm.Json.Scanner.{Reading, validate_unique_json_keys}

-- What the JSON package makes of bytes: their tokens, and what a decoder that disallows unknown
-- fields reads into a destination, with whether `io.EOF` follows.
pub record Decoder {ℓ} (A : Type ℓ) : Type ℓ where
  pub read : List ℕ → Reading
  pub decode : List ℕ → Option (A × Bool)

-- `len(trimmed) == 0 || trimmed[0] != '{'`, negated
unfoldable pub begins_object : List ℕ → Bool
begins_object [] = false
begins_object (c ∷ cs) = c == b'{'

-- `decodeStrictPayload`; `none` is an error.
unfoldable pub decode_strict_payload {ℓ} : {A : Type ℓ} → Decoder A → String → Option A
decode_strict_payload d payload =
    let trimmed = trim_space (codes payload) in
    if not (begins_object trimmed)
    then none
    else if not (validate_unique_json_keys (d.read trimmed))
    then none
    else elim (d.decode trimmed) [
      | none ↦ none
      | some (a, at_end) ↦ if at_end then some a else none
    ]
