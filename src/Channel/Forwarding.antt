-- ===== src/Channel/Forwarding.antt =====
-- What the channel forwards, and how it ends (internal/channel/channel.go).
use mathlib.Core.List.{append_assoc}
use cockpit_slurm.Base.{
  ℕ, zero, suc, ◌≡◌, refl, ap, ◌∙◌, subst, sym, inl, inr, ◌↔◌, Bool, true, false, Option, none,
  some, List, [], ◌∷◌, ◌++◌, length, ◌==◌, if◌then◌else◌, nat_eq, arith, Bool-cases,
}
use cockpit_slurm.Channel.Transport.{
  close_channel, TransportError, eof, closed_transport, other_error, Write, wrote, write_error,
  Round, CopyResult, finished, channel_closed, take_bytes, write_result, after_read, copy_round,
  copy_loop, is_benign, Wires, close_wires, run_channel,
}

-- The bytes of the reads, up to the first one that returns an error.
abbrev pub received : List Round → List ℕ
received [] = []
received (r ∷ rounds) = r.read ++ elim r.error [ none ↦ received rounds | some e ↦ [] ]

-- The first bytes of `all`, and all of them where the copy has finished.
abbrev pub Forwards : List ℕ → List ℕ × CopyResult → Type 0
Forwards all (out, result) = (rest : List ℕ) × (all ≡ out ++ rest) × (result ≡ finished → rest ≡ [])

take_bytes-prefix :
    (n : ℕ) (bytes : List ℕ) → (rest : List ℕ) × (bytes ≡ take_bytes n bytes ++ rest)
unfolding take_bytes
take_bytes-prefix zero bytes = (bytes, refl)
take_bytes-prefix (suc n) [] = ([], refl)
take_bytes-prefix (suc n) (b ∷ bytes) =
    let (rest, e) = take_bytes-prefix n bytes in (rest, ap (◌∷◌ b) e)

after_read-Forwards :
    (e : Option TransportError) (bytes all : List ℕ) (following : List ℕ × CopyResult)
    → Forwards all following
    → Forwards (bytes ++ elim e [ none ↦ all | some x ↦ [] ]) (after_read e bytes following)
unfolding after_read
after_read-Forwards none bytes all (out, result) (rest, p, q) =
    (rest, ap (λ x. bytes ++ x) p ∙ sym (append_assoc bytes out rest), q)
after_read-Forwards (some e) bytes all following f = ([], refl, λ h. refl)

not_finished : (e : TransportError) → write_result e ≡ finished → ⊥
unfolding write_result
not_finished eof h = cc
not_finished closed_transport h = cc
not_finished other_error h = cc

write-Forwards :
    (w : Write) (e : Option TransportError) (bytes all : List ℕ) (following : List ℕ × CopyResult)
    → Forwards all following
    → Forwards (bytes ++ elim e [ none ↦ all | some x ↦ [] ]) (elim w [
      | wrote ↦ after_read e bytes following
      | write_error n x ↦ (take_bytes n bytes, write_result x)
    ])
unfolding write_result
write-Forwards wrote e bytes all following f = after_read-Forwards e bytes all following f
write-Forwards (write_error n x) e bytes all following f =
    let (rest, p) = take_bytes-prefix n bytes in
    (
      rest ++ elim e [ none ↦ all | some y ↦ [] ],
      ap (λ z. z ++ elim e [ none ↦ all | some y ↦ [] ]) p
          ∙ append_assoc (take_bytes n bytes) rest (elim e [ none ↦ all | some y ↦ [] ]),
      λ h. absurd (not_finished x h),
    )

if-Forwards :
    (all : List ℕ) (b : Bool) (x y : List ℕ × CopyResult)
    → (b ≡ true → Forwards all x)
    → (b ≡ false → Forwards all y)
    → Forwards all (if b then x else y)
if-Forwards all true x y f g = f refl
if-Forwards all false x y f g = g refl

closed_ne : channel_closed ≡ finished → ⊥
closed_ne h = cc

empty_read : (bytes : List ℕ) → (length bytes == 0) ≡ true → bytes ≡ []
empty_read [] h = refl
empty_read (b ∷ bytes) h = ground arith

-- Whatever the reads and writes return, the destination gets the first bytes of what was read, in
-- order; where the copy finishes without an error it gets all that was read before the end.
pub copy-Forwards : (rounds : List Round) → Forwards (received rounds) (copy_loop rounds)
unfolding copy_loop copy_round
copy-Forwards [] = ([], refl, λ h. refl)
copy-Forwards (r ∷ rounds) =
    let all = copy-Forwards rounds in
    let whole = received (r ∷ rounds) in
    if-Forwards whole r.closed_by_then ([], channel_closed) _
      (λ _. (whole, refl, λ h. absurd (closed_ne h)))
      λ _.
        if-Forwards whole (length r.read == 0) _ _
          (λ z.
            subst
              (λ bytes.
                Forwards (bytes ++ elim r.error [ none ↦ received rounds | some x ↦ [] ])
                  (after_read r.error [] (copy_loop rounds)))
              (sym (empty_read r.read z))
              (after_read-Forwards r.error [] (received rounds) (copy_loop rounds) all))
          (λ _. write-Forwards r.write r.error r.read (received rounds) (copy_loop rounds) all)

-- Both ends are closed, and so is the channel with its context and its connection.
abbrev pub AllClosed : Wires → Type 0
AllClosed w = (w.cockpit_closed ≡ true) × (w.bridge_closed ≡ true) × (w.channel.closed ≡ true)

close_wires-AllClosed : (w : Wires) → AllClosed (close_wires w)
unfolding close_wires close_channel
close_wires-AllClosed w = (refl, refl, ground arith)

-- However the two copies end, `Run` leaves both ends and the channel closed, and it returns no error
-- exactly if neither copy ended with an error other than the end of the input or a closed transport.
pub run_channel-closes :
    (bridge_is_conn : Bool) (first second : CopyResult) (w : Wires)
    → AllClosed (run_channel bridge_is_conn first second w).1
      × (((run_channel bridge_is_conn first second w).0 ≡ none)
          ↔ ((is_benign first ≡ true) × (is_benign second ≡ true)))
unfolding run_channel
run_channel-closes bridge_is_conn first second w = elim (Bool-cases (is_benign first)) [
  | inr e ↦
      rw e (close_wires-AllClosed _, ((λ h. absurd (cc)), (λ h. absurd (ground (arith, h.0)))))
  | inl e ↦ elim (Bool-cases (is_benign second)) [
    | inr f ↦
        rw (e, f)
          (close_wires-AllClosed _, ((λ h. absurd (cc)), (λ h. absurd (ground (arith, h.1)))))
    | inl f ↦ rw (e, f) (close_wires-AllClosed _, ((λ h. (refl, refl)), (λ h. refl)))
  ]
]
