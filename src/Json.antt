-- ===== src/Json.antt =====
-- internal/protocol/json_validation.go with `decodeStrictPayload`: the check that no object of a JSON
-- text has a key twice, over the tokens of the JSON decoder.
pub mod Scanner
pub mod Trees
pub mod Accepts
pub mod Rejects
pub mod Strict
