-- ===== src/Base/Texts.antt =====
-- Go strings as native texts: emptiness, the code points that a `range` loop visits, and the
-- functions of Go's `strings` and `unicode` packages that the program calls.
use Prim.Native.Nat.{ℕ, ◌-◌}
use Prim.Native.Char.{code}
use Prim.Native.String.{String, ◌++◌ as append_text}
use mathlib.Core.Path.{◌≡◌, ap, ◌∙◌}
use mathlib.Core.Bool.{Bool, true, false, ◌&&◌, ◌||◌}
use mathlib.Core.List.{List, [], ◌∷◌, ◌++◌}
use mathlib.Core.Option.{Option, none, some}
use text.Mathlib.TextLemmas.{nil-append, cons-append}
use cockpit_slurm.Base.Tests.{ltb, leb, if◌then◌else◌}
use cockpit_slurm.Base.Equality.{◌==◌, nat_eq, string_eq}
use cockpit_slurm.Base.Lists.{all, any}

-- `s == ""`
unfoldable pub is_empty : String → Bool
is_empty String.[] = true
is_empty (String.◌∷◌ c s) = false

-- `len(b) == 0` for a byte slice, which `nil` satisfies too.
unfoldable pub is_missing : Option String → Bool
unfolding is_empty
is_missing none = true
is_missing (some b) = is_empty b

abbrev pub codes : String → List ℕ
codes String.[] = []
codes (String.◌∷◌ c s) = code c ∷ codes s

-- Concatenation of two strings.
infixr 68 ◌<>◌
abbrev pub ◌<>◌ : String → String → String
s <> t = append_text s t

pub codes-append : (s t : String) → codes (s <> t) ≡ codes s ++ codes t
codes-append String.[] t = ap codes (nil-append t)
codes-append (String.◌∷◌ c s) t =
    ap codes (cons-append c s t) ∙ ap (◌∷◌ (code c)) (codes-append s t)

-- `unicode.IsControl`
unfoldable pub is_control : ℕ → Bool
is_control c = ltb c 32 || (leb 127 c && ltb c 160)

-- `unicode.IsSpace`
unfoldable pub is_space : ℕ → Bool
is_space c =
    (leb 9 c && leb c 13)
    || (c == 32
        || (c == 0x85
            || (c == 0xa0
                || (c == 0x1680
                    || ((leb 0x2000 c && leb c 0x200a)
                        || (c == 0x2028
                            || (c == 0x2029 || (c == 0x202f || (c == 0x205f || c == 0x3000)))))))))

-- `strings.TrimSpace(s) == ""`
unfoldable pub is_blank : String → Bool
unfolding is_space
is_blank s = all is_space (codes s)

unfoldable pub has_control : String → Bool
unfolding is_control
has_control s = any is_control (codes s)

-- The letters and digits of ASCII.
unfoldable pub is_alphanumeric : ℕ → Bool
is_alphanumeric c =
    (leb b'a' c && leb c b'z') || ((leb b'A' c && leb c b'Z') || (leb b'0' c && leb c b'9'))

-- The characters that `strings.ContainsRune("_.-", c)` accepts.
unfoldable pub is_name_mark : ℕ → Bool
is_name_mark c = c == b'_' || (c == b'.' || c == b'-')

-- An ASCII letter in upper case.
unfoldable pub to_upper : ℕ → ℕ
to_upper c = if leb b'a' c && leb c b'z' then c - 32 else c

abbrev pub member : String → List String → Bool
member k ks = any (λ x. x == k) ks

-- No text stands in the list twice.
abbrev pub Distinct : List String → Type 0
Distinct [] = Unit
Distinct (k ∷ ks) = (member k ks ≡ false) × Distinct ks
