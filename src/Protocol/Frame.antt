-- ===== src/Protocol/Frame.antt =====
-- internal/protocol/codec.go: frames of a four byte big-endian length and a payload. Bytes are
-- numbers below 256. The JSON of an envelope, both ways, is an argument of the codec's functions.
use cockpit_slurm.Base.{
  ℕ, zero, suc, ◌+◌, ◌*◌, ◌/◌, ◌%◌, Bool, true, false, Option, none, some, List, [], ◌∷◌, ◌++◌, ltb,
  leb, ◌==◌, if◌then◌else◌, nat_eq, length,
}

abbrev pub max_payload_size : ℕ
max_payload_size = 4194304

-- `binary.BigEndian.PutUint32`
unfoldable pub put_uint32 : ℕ → List ℕ
put_uint32 n = (n / 16777216) % 256 ∷ (n / 65536) % 256 ∷ (n / 256) % 256 ∷ n % 256 ∷ []

-- `binary.BigEndian.Uint32`
unfoldable pub uint32 : ℕ → ℕ → ℕ → ℕ → ℕ
uint32 a b c d = a * 16777216 + b * 65536 + c * 256 + d

-- What `w.Write` does with a slice: it fails, or it takes a number of bytes.
pub data WriteOutcome : Type 0 where
  write_fails : WriteOutcome
  written : ℕ → WriteOutcome

abbrev pub take {ℓ} : {A : Type ℓ} → ℕ → List A → List A
take zero xs = []
take (suc n) [] = []
take (suc n) (x ∷ xs) = x ∷ take n xs

abbrev pub drop {ℓ} : {A : Type ℓ} → ℕ → List A → List A
drop zero xs = xs
drop (suc n) [] = []
drop (suc n) (x ∷ xs) = drop n xs

-- `writeFull` over the outcomes of its calls of `Write`: the bytes that reached the writer, and
-- whether all of them did. The list ends where the writer fails.
unfoldable pub write_full : List WriteOutcome → List ℕ → List ℕ × Bool
write_full outcomes [] = ([], true)
write_full [] (b ∷ p) = ([], false)
write_full (write_fails ∷ outcomes) (b ∷ p) = ([], false)
write_full (written zero ∷ outcomes) (b ∷ p) = ([], false)
write_full (written (suc n) ∷ outcomes) (b ∷ p) =
    let (rest, done) = write_full outcomes (drop n p) in (b ∷ take n p ++ rest, done)

-- `Encode` without the writer: the frame, or `none` where the payload is empty or too long.
unfoldable pub encode_frame : List ℕ → Option (List ℕ)
encode_frame payload =
    if length payload == 0
    then none
    else if ltb max_payload_size (length payload)
    then none
    else some (put_uint32 (length payload) ++ payload)

-- `io.ReadFull` on a stream that holds these bytes and then ends.
unfoldable pub read_full : ℕ → List ℕ → Option (List ℕ × List ℕ)
read_full n bytes = if leb n (length bytes) then some (take n bytes, drop n bytes) else none

pub data FrameError : Type 0 where
  short_header zero_length too_long short_payload : FrameError

pub data FrameResult : Type 0 where
  frame : List ℕ → List ℕ → FrameResult
  failed : FrameError → FrameResult

-- The first part of `Decode`: the payload of the next frame and the rest of the stream.
unfoldable pub decode_frame : List ℕ → FrameResult
decode_frame (a ∷ b ∷ c ∷ d ∷ bytes) =
    let n = uint32 a b c d in
    if n == 0
    then failed zero_length
    else if ltb max_payload_size n
    then failed too_long
    else elim (read_full n bytes) [
      | none ↦ failed short_payload
      | some (payload, rest) ↦ frame payload rest
    ]
decode_frame _ = failed short_header
