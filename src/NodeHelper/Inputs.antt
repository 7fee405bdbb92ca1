-- ===== src/NodeHelper/Inputs.antt =====
-- Which node names and reasons the helper takes (internal/nodehelper/helper.go, `validNodeName` and
-- `validateDrainReason`), described without the code's own tests.
use cockpit_slurm.Base.{Bool-cases}
use Prim.Native.String.{len}
use cockpit_slurm.Base.{
  ℕ, ◌+◌, ◌≤◌, String, ◌≡◌, refl, ◌↔◌, ◌⊎◌, Bool, true, false, not, List, [], ◌∷◌, ◌||◌, nat_eq,
  is_empty, is_blank, has_control, codes, is_alphanumeric, is_name_mark, is_control, is_space,
  to_upper, all, any, All, arith,
}
use cockpit_slurm.NodeHelper.Scontrol.{
  is_all, valid_name_chars, valid_node_name, valid_drain_reason,
}

-- A digit or a letter of ASCII.
abbrev pub IsAlphanumeric : ℕ → Type 0
IsAlphanumeric c = ((48 ≤ c) × (c ≤ 57)) ⊎ (((65 ≤ c) × (c ≤ 90)) ⊎ ((97 ≤ c) × (c ≤ 122)))

-- Such a character, or one of "-", "." and "_".
abbrev pub IsNameChar : ℕ → Type 0
IsNameChar c = IsAlphanumeric c ⊎ ((c ≡ 45) ⊎ ((c ≡ 46) ⊎ (c ≡ 95)))

abbrev pub StartsAlphanumeric : List ℕ → Type 0
StartsAlphanumeric [] = ⊥
StartsAlphanumeric (c ∷ cs) = IsAlphanumeric c

-- A letter in either case, by its capital.
abbrev pub IsLetter : ℕ → ℕ → Type 0
IsLetter capital c = (c ≡ capital) ⊎ (c ≡ capital + 32)

-- "ALL" in any case.
abbrev pub SpellsAll : List ℕ → Type 0
SpellsAll (a ∷ b ∷ c ∷ []) = IsLetter 65 a × IsLetter 76 b × IsLetter 76 c
SpellsAll _ = ⊥

-- A name that starts with a letter or a digit, has name characters only and at most 255 of them, and
-- is not "ALL".
pub record ValidName (name : String) : Type 0 where
  pub starts : StartsAlphanumeric (codes name)
  pub name_chars : All IsNameChar (codes name)
  pub short : len name ≤ 255
  pub one_node : SpellsAll (codes name) → ⊥

-- A reason with something to read, in at most 256 bytes and without control characters.
pub record ValidReason (reason : String) : Type 0 where
  pub visible : All (λ c. is_space c ≡ true) (codes reason) → ⊥
  pub short : len reason ≤ 256
  pub printable : All (λ c. ((32 ≤ c) × (c ≤ 126)) ⊎ (160 ≤ c)) (codes reason)

is_alphanumeric_iff : (c : ℕ) → (is_alphanumeric c ≡ true) ↔ IsAlphanumeric c
unfolding is_alphanumeric
is_alphanumeric_iff c = ground arith

IsNameChar-iff : (c : ℕ) → (is_alphanumeric c || is_name_mark c ≡ true) ↔ IsNameChar c
unfolding is_alphanumeric is_name_mark
IsNameChar-iff c = ground arith

is_all_iff : (cs : List ℕ) → (is_all cs ≡ true) ↔ SpellsAll cs
unfolding is_all to_upper
is_all_iff [] = ground arith
is_all_iff (a ∷ []) = ground arith
is_all_iff (a ∷ b ∷ []) = ground arith
is_all_iff (a ∷ b ∷ c ∷ []) = ground arith
is_all_iff (a ∷ b ∷ c ∷ d ∷ cs) = ground arith

-- A test of every element holds exactly where what it tests holds of every one.
all_iff {ℓ} :
    {A : Type ℓ} (test : A → Bool) (P : A → Type 0)
    → ((x : A) → (test x ≡ true) ↔ P x)
    → (xs : List A) → (all test xs ≡ true) ↔ All P xs
all_iff test P f [] = ground arith
all_iff test P f (x ∷ xs) = ground (arith, f x, all_iff test P f xs)

not-any_iff :
    (cs : List ℕ)
    → (not (any is_control cs) ≡ true) ↔ All (λ c. ((32 ≤ c) × (c ≤ 126)) ⊎ (160 ≤ c)) cs
unfolding is_control
not-any_iff [] = ground arith
not-any_iff (c ∷ cs) = ground (arith, not-any_iff cs)

valid_name_chars_iff :
    (cs : List ℕ)
    → (valid_name_chars cs ≡ true) ↔ ((cs ≡ []) ⊎ (StartsAlphanumeric cs × All IsNameChar cs))
unfolding valid_name_chars
valid_name_chars_iff [] = ground arith
valid_name_chars_iff (c ∷ cs) = ground (
  arith,
  is_alphanumeric_iff c,
  IsNameChar-iff c,
  all_iff (λ x. is_alphanumeric x || is_name_mark x) IsNameChar IsNameChar-iff cs,
)

codes_empty : (s : String) → (is_empty s ≡ true) ↔ (codes s ≡ [])
unfolding is_empty
codes_empty String.[] = ground arith
codes_empty (String.◌∷◌ c s) = ground arith

starts_codes : (s : String) → StartsAlphanumeric (codes s) → is_empty s ≡ false
unfolding is_empty
starts_codes String.[] h = absurd h
starts_codes (String.◌∷◌ c s) h = refl

pub valid_node_name_iff : (name : String) → (valid_node_name name ≡ true) ↔ ValidName name
unfolding valid_node_name
valid_node_name_iff name =
    let chars = valid_name_chars_iff (codes name) in
    let empty = codes_empty name in
    let every = is_all_iff (codes name) in
    (
      (λ h. record {
        starts = ground (arith, h, chars, empty);
        name_chars = ground (arith, h, chars, empty);
        short = ground (arith, h);
        one_node = λ a. absurd (ground (arith, h, every, a));
      }),
      (λ v. ground (
        arith,
        chars,
        v.starts,
        v.name_chars,
        v.short,
        v.one_node,
        every,
        starts_codes name v.starts,
        Bool-cases (is_all (codes name)),
      )),
    )

pub valid_drain_reason_iff :
    (reason : String) → (valid_drain_reason reason ≡ true) ↔ ValidReason reason
unfolding valid_drain_reason is_blank has_control
valid_drain_reason_iff reason =
    let blank =
      all_iff is_space (λ c. is_space c ≡ true) (λ c. ((λ h. h), (λ h. h))) (codes reason) in
    let clean = not-any_iff (codes reason) in
    (
      (λ h. record {
        visible = λ a. absurd (ground (arith, h, blank, a));
        short = ground (arith, h);
        printable = ground (arith, h, clean);
      }),
      (λ v. ground (
        arith,
        v.visible,
        v.short,
        v.printable,
        blank,
        clean,
        Bool-cases (all is_space (codes reason)),
      )),
    )
