-- ===== src/Tests/Protocol.antt =====
-- The frame codec on short payloads (internal/protocol/codec.go).
use cockpit_slurm.Protocol.Frame.{read_full}
use cockpit_slurm.Base.{ℕ, ◌≡◌, refl, List, [], ◌∷◌, ◌++◌, some, arith}
use cockpit_slurm.Protocol.Frame.{
  written, WriteOutcome, encode_frame, decode_frame, frame, put_uint32, uint32,
}
use cockpit_slurm.Protocol.FrameLaws.{decode-encode_frame, encode-decode_frame}

abbrev two_bytes : List ℕ
two_bytes = 0 ∷ 0 ∷ 0 ∷ 2 ∷ 123 ∷ 125 ∷ []

decode-encode_frame_example : decode_frame (two_bytes ++ 9 ∷ []) ≡ frame (123 ∷ 125 ∷ []) (9 ∷ [])
unfolding encode_frame put_uint32
decode-encode_frame_example = decode-encode_frame (123 ∷ 125 ∷ []) (9 ∷ []) two_bytes refl

encode-decode_frame_example :
    (encoded : List ℕ) × (encode_frame (123 ∷ 125 ∷ []) ≡ some encoded)
    × (encoded ++ [] ≡ two_bytes)
unfolding decode_frame uint32 read_full
encode-decode_frame_example =
    encode-decode_frame two_bytes (123 ∷ 125 ∷ []) []
      (omega arith, (omega arith, (omega arith, (omega arith, (omega arith, (omega arith, tt))))))
      refl

abbrev one_by_one : List WriteOutcome
one_by_one = written 1 ∷ written 2 ∷ written 4 ∷ []
