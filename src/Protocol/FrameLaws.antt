-- ===== src/Protocol/FrameLaws.antt =====
-- Frames read back as they were written (internal/protocol/codec.go).
use mathlib.Core.List.{append_assoc}
use cockpit_slurm.Base.{
  ℕ, zero, suc, ◌+◌, ◌/◌, ◌%◌, ◌<◌, ◌≤◌, ◌≡◌, ◌≢◌, refl, ◌∙◌, ap, true, some, List, [], ◌∷◌, ◌++◌,
  nat_eq, length, length-append, arith, ◌⊎◌, inl, inr, All,
}
use cockpit_slurm.Protocol.Frame.{
  put_uint32, uint32, max_payload_size, WriteOutcome, write_fails, written, write_full,
  encode_frame, read_full, decode_frame, frame, failed, short_header, short_payload, take, drop,
}

uint32_put :
    (n : ℕ)
    → n < 4294967296
    → uint32 ((n / 16777216) % 256) ((n / 65536) % 256) ((n / 256) % 256) (n % 256) ≡ n
unfolding uint32
uint32_put n h = omega arith

take_append : (xs ys : List ℕ) → take (length xs) (xs ++ ys) ≡ xs
take_append [] ys = refl
take_append (x ∷ xs) ys = ap (◌∷◌ x) (take_append xs ys)

drop_append : (xs ys : List ℕ) → drop (length xs) (xs ++ ys) ≡ ys
drop_append [] ys = refl
drop_append (x ∷ xs) ys = drop_append xs ys

take-drop : (n : ℕ) (xs : List ℕ) → take n xs ++ drop n xs ≡ xs
take-drop zero xs = refl
take-drop (suc n) [] = refl
take-drop (suc n) (x ∷ xs) = ap (◌∷◌ x) (take-drop n xs)

length-take : (n : ℕ) (xs : List ℕ) → n ≤ length xs → length (take n xs) ≡ n
length-take zero xs h = refl
length-take (suc n) [] h = absurd (omega arith)
length-take (suc n) (x ∷ xs) h = omega (arith, length-take n xs)

read_full_append : (xs ys : List ℕ) → read_full (length xs) (xs ++ ys) ≡ some (xs, ys)
unfolding read_full
read_full_append xs ys = ground (arith, length-append xs ys, take_append xs ys, drop_append xs ys)

read_full-some :
    (n : ℕ) (bytes p rest : List ℕ)
    → read_full n bytes ≡ some (p, rest)
    → (length p ≡ n) × (p ++ rest ≡ bytes)
unfolding read_full
read_full-some n bytes p rest h = ground (arith, take-drop n bytes, length-take n bytes)

-- A frame in front of any bytes decodes to its payload and those bytes.
pub decode-encode_frame :
    (payload rest bytes : List ℕ)
    → encode_frame payload ≡ some bytes
    → decode_frame (bytes ++ rest) ≡ frame payload rest
unfolding encode_frame decode_frame put_uint32
decode-encode_frame payload rest bytes h =
    ground (arith, uint32_put (length payload), read_full_append payload rest)

put_uint32_of :
    (a b c d : ℕ)
    → a < 256
    → b < 256
    → c < 256
    → d < 256
    → put_uint32 (uint32 a b c d) ≡ a ∷ b ∷ c ∷ d ∷ []
unfolding put_uint32 uint32
put_uint32_of a b c d p q r s = ground arith

decode_frame_facts :
    (a b c d : ℕ) (bytes payload rest : List ℕ)
    → decode_frame (a ∷ b ∷ c ∷ d ∷ bytes) ≡ frame payload rest
    → (uint32 a b c d ≢ 0)
      × (uint32 a b c d ≤ max_payload_size)
      × (read_full (uint32 a b c d) bytes ≡ some (payload, rest))
unfolding decode_frame
decode_frame_facts a b c d bytes payload rest e = ground arith

encode_frame-some :
    (payload : List ℕ)
    → length payload ≢ 0
    → length payload ≤ max_payload_size
    → encode_frame payload ≡ some (put_uint32 (length payload) ++ payload)
unfolding encode_frame
encode_frame-some payload h k = ground arith

-- Every number of the stream is a byte.
abbrev pub Bytes : List ℕ → Type 0
Bytes = All (λ b. b < 256)

-- A stream of bytes that decodes to a payload and a rest is the frame of the payload with the rest
-- behind it: no other bytes decode to them.
pub encode-decode_frame :
    (bytes payload rest : List ℕ)
    → Bytes bytes
    → decode_frame bytes ≡ frame payload rest
    → (encoded : List ℕ) × (encode_frame payload ≡ some encoded) × (encoded ++ rest ≡ bytes)
unfolding decode_frame
encode-decode_frame [] payload rest h e = cc
encode-decode_frame (a ∷ []) payload rest h e = cc
encode-decode_frame (a ∷ b ∷ []) payload rest h e = cc
encode-decode_frame (a ∷ b ∷ c ∷ []) payload rest h e = cc
encode-decode_frame (a ∷ b ∷ c ∷ d ∷ bytes) payload rest (p, (q, (r, (s, _)))) e =
    let (nonzero, small, read) = decode_frame_facts a b c d bytes payload rest e in
    let (size, whole) = read_full-some (uint32 a b c d) bytes payload rest read in
    let header : put_uint32 (length payload) ≡ a ∷ b ∷ c ∷ d ∷ [] =
      ap put_uint32 size ∙ put_uint32_of a b c d p q r s in
    (
      put_uint32 (length payload) ++ payload,
      encode_frame-some payload (omega arith) (omega arith),
      rw header (ap (λ xs. a ∷ b ∷ c ∷ d ∷ xs) whole),
    )

short_after_header :
    (payload : List ℕ) (m : ℕ)
    → length payload ≢ 0
    → length payload ≤ max_payload_size
    → m < length payload
    → decode_frame (put_uint32 (length payload) ++ take m payload) ≡ failed short_payload
unfolding decode_frame put_uint32 read_full
short_after_header payload m h k l =
    ground (arith, uint32_put (length payload), length-take m payload)

cut_short :
    (a b c d n : ℕ) (payload : List ℕ)
    → ((m : ℕ)
        → m < length payload
        → decode_frame (a ∷ b ∷ c ∷ d ∷ take m payload) ≡ failed short_payload)
    → n < length payload + 4
    → (decode_frame (take n (a ∷ b ∷ c ∷ d ∷ payload)) ≡ failed short_header)
      ⊎ (decode_frame (take n (a ∷ b ∷ c ∷ d ∷ payload)) ≡ failed short_payload)
unfolding decode_frame
cut_short a b c d zero payload f k = inl refl
cut_short a b c d (suc zero) payload f k = inl refl
cut_short a b c d (suc (suc zero)) payload f k = inl refl
cut_short a b c d (suc (suc (suc zero))) payload f k = inl refl
cut_short a b c d (suc (suc (suc (suc m)))) payload f k = inr (f m (omega arith))

encode_frame_facts :
    (payload bytes : List ℕ)
    → encode_frame payload ≡ some bytes
    → (length payload ≢ 0)
      × (length payload ≤ max_payload_size)
      × (bytes ≡ put_uint32 (length payload) ++ payload)
unfolding encode_frame
encode_frame_facts payload bytes h = ground arith

-- A frame that is cut off anywhere yields no payload: the read fails in the header or the payload.
pub decode_frame_short :
    (payload bytes : List ℕ) (n : ℕ)
    → encode_frame payload ≡ some bytes
    → n < length bytes
    → (decode_frame (take n bytes) ≡ failed short_header)
      ⊎ (decode_frame (take n bytes) ≡ failed short_payload)
unfolding put_uint32
decode_frame_short payload bytes n h k =
    let (nonzero, small, e) = encode_frame_facts payload bytes h in
    rw e (
      cut_short _ _ _ _ n payload (λ m l. short_after_header payload m nonzero small l)
        (omega (arith, ap length e)))

-- `writeFull` reports success only after all the bytes, in order, and otherwise a prefix went out.
pub write_full_prefix :
    (outcomes : List WriteOutcome) (p : List ℕ)
    → (rest : List ℕ) × ((write_full outcomes p).0 ++ rest ≡ p)
      × ((write_full outcomes p).1 ≡ true → rest ≡ [])
unfolding write_full
write_full_prefix outcomes [] = ([], refl, λ _. refl)
write_full_prefix [] (b ∷ p) = (b ∷ p, refl, λ e. cc)
write_full_prefix (write_fails ∷ outcomes) (b ∷ p) = (b ∷ p, refl, λ e. cc)
write_full_prefix (written zero ∷ outcomes) (b ∷ p) = (b ∷ p, refl, λ e. cc)
write_full_prefix (written (suc n) ∷ outcomes) (b ∷ p) =
    let (rest, e, d) = write_full_prefix outcomes (drop n p) in
    (rest, ap (◌∷◌ b) (append_assoc (take n p) _ rest ∙ ap (◌++◌ (take n p)) e ∙ take-drop n p), d)

-- The writer takes at least one byte at each call.
abbrev pub Progresses : List WriteOutcome → Type 0
Progresses = All (λ o. (n : ℕ) × (o ≡ written (suc n)))

length-drop-le : (n : ℕ) (xs : List ℕ) → length (drop n xs) ≤ length xs
length-drop-le zero xs = omega arith
length-drop-le (suc n) [] = omega arith
length-drop-le (suc n) (x ∷ xs) = omega (arith, length-drop-le n xs)

-- Against a writer that takes at least one byte at each call, `writeFull` ends with success after at
-- most as many calls as there are bytes.
pub write_full_done :
    (outcomes : List WriteOutcome) (p : List ℕ)
    → Progresses outcomes
    → length p ≤ length outcomes
    → write_full outcomes p ≡ (p, true)
unfolding write_full
write_full_done outcomes [] h k = refl
write_full_done [] (b ∷ p) h k = absurd (omega arith)
write_full_done (write_fails ∷ outcomes) (b ∷ p) h k = absurd (cc h.0.1)
write_full_done (written zero ∷ outcomes) (b ∷ p) h k = absurd (cc h.0.1)
write_full_done (written (suc n) ∷ outcomes) (b ∷ p) h k =
    rw (write_full_done outcomes (drop n p) h.1 (omega (arith, length-drop-le n p)))
      (rw (take-drop n p) refl)
