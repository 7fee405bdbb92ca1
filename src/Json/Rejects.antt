-- ===== src/Json/Rejects.antt =====
-- Whatever the scanner accepts is the tokens of one value whose objects have distinct keys.
use cockpit_slurm.Base.{member}
use cockpit_slurm.Base.{Distinct}
use cockpit_slurm.Base.{
  ℕ, zero, suc, String, ◌≡◌, refl, ap, ◌∙◌, ◌↔◌, ◌⊎◌, inl, inr, Bool, true, false, List, [], ◌∷◌,
  arith, string_eq, if◌then◌else◌,
}
use cockpit_slurm.Json.Scanner.{
  Token, open_object, close_object, open_array, close_array, text, scalar, Scan, rest, failed,
  out_of_fuel, consume, consume_fields, consume_items, ◌>>=◌, fuel_for, ends_there,
  validate_unique_json_keys, Reading,
}
use cockpit_slurm.Json.Trees.{
  Value, string, atom, object, array, Fields, no_field, field, Items, no_item, item, print,
  print_fields, print_items, names, UniqueKeys, UniqueInFields, UniqueInItems, Fresh, seen_shrink,
}
use cockpit_slurm.Json.Accepts.{accepts-print}

-- What a successful scan of a value, of fields and of items has consumed.
abbrev ValueIn : List Token → List Token → Type 0
ValueIn ts us = (v : Value) × (ts ≡ print v us) × UniqueKeys v

abbrev FieldsIn : List String → List Token → List Token → Type 0
FieldsIn seen ts us =
    (fs : Fields) × (ts ≡ print_fields fs us)
    × Distinct (names fs)
    × Fresh seen (names fs)
    × UniqueInFields fs

abbrev ItemsIn : List Token → List Token → Type 0
ItemsIn ts us = (xs : Items) × (ts ≡ print_items xs us) × UniqueInItems xs

bind-rest :
    (s : Scan) (f : List Token → Scan) (us : List Token)
    → (s >>= f) ≡ rest us
    → (ts : List Token) × (s ≡ rest ts) × (f ts ≡ rest us)
bind-rest out_of_fuel f us h = absurd (cc)
bind-rest failed f us h = absurd (cc)
bind-rest (rest ts) f us h = (ts, refl, h)

if-rest :
    (b : Bool) (s : Scan) (us : List Token)
    → (if b then failed else s) ≡ rest us
    → (b ≡ false) × (s ≡ rest us)
if-rest b s us h = ground arith

rest_inj : (ts us : List Token) → rest ts ≡ rest us → ts ≡ us
rest_inj ts us h = cc

cons_fields :
    (k : String) (seen : List String) (ts vs us : List Token)
    → member k seen ≡ false
    → ValueIn ts vs
    → FieldsIn (k ∷ seen) vs us
    → FieldsIn seen (text k ∷ ts) us
unfolding print
cons_fields k seen ts vs us m (v, p, u) (fs, q, d, f, w) =
    let (n, g) = seen_shrink k seen (names fs) f in
    (field k v fs, ap (◌∷◌ (text k)) (p ∙ ap (print v) q), (n, d), (m, g), (u, w))

cons_items : (ts vs us : List Token) → ValueIn ts vs → ItemsIn vs us → ItemsIn ts us
unfolding print
cons_items ts vs us (v, p, u) (xs, q, w) = (item v xs, p ∙ ap (print v) q, (u, w))

object_in : (ts us : List Token) → FieldsIn [] ts us → ValueIn (open_object ∷ ts) us
unfolding print
object_in ts us (fs, p, d, f, u) = (object fs, ap (◌∷◌ open_object) p, (d, u))

array_in : (ts us : List Token) → ItemsIn ts us → ValueIn (open_array ∷ ts) us
unfolding print
array_in ts us (xs, p, u) = (array xs, ap (◌∷◌ open_array) p, u)

-- A successful loop over elements either ends at a bracket or reads an element first.
items_more :
    (n : ℕ) (t : Token) (ts us : List Token)
    → consume_items (suc n) (t ∷ ts) ≡ rest us
    → ((t ≡ close_array) × (ts ≡ us))
      ⊎ ((vs : List Token) × (consume n (t ∷ ts) ≡ rest vs) × (consume_items n vs ≡ rest us))
unfolding consume
items_more n close_array ts us h = inl (refl, rest_inj ts us h)
items_more n close_object ts us h = absurd (cc)
items_more n open_object ts us h =
    inr (bind-rest (consume n (open_object ∷ ts)) (consume_items n) us h)
items_more n open_array ts us h =
    inr (bind-rest (consume n (open_array ∷ ts)) (consume_items n) us h)
items_more n (text s) ts us h = inr (bind-rest (consume n (text s ∷ ts)) (consume_items n) us h)
items_more n scalar ts us h = inr (bind-rest (consume n (scalar ∷ ts)) (consume_items n) us h)

mutual
  unfolding consume print

  consume-rest : (n : ℕ) (ts us : List Token) → consume n ts ≡ rest us → ValueIn ts us
  consume-rest zero ts us h = absurd (cc)
  consume-rest (suc n) [] us h = absurd (cc)
  consume-rest (suc n) (close_object ∷ ts) us h = absurd (cc)
  consume-rest (suc n) (close_array ∷ ts) us h = absurd (cc)
  consume-rest (suc n) (text s ∷ ts) us h = (string s, ap (◌∷◌ (text s)) (rest_inj ts us h), tt)
  consume-rest (suc n) (scalar ∷ ts) us h = (atom, ap (◌∷◌ scalar) (rest_inj ts us h), tt)
  consume-rest (suc n) (open_object ∷ ts) us h = object_in ts us (consume_fields-rest n [] ts us h)
  consume-rest (suc n) (open_array ∷ ts) us h = array_in ts us (consume_items-rest n ts us h)

  consume_fields-rest :
      (n : ℕ) (seen : List String) (ts us : List Token)
      → consume_fields n seen ts ≡ rest us
      → FieldsIn seen ts us
  consume_fields-rest zero seen ts us h = absurd (cc)
  consume_fields-rest (suc n) seen [] us h = absurd (cc)
  consume_fields-rest (suc n) seen (close_array ∷ ts) us h = absurd (cc)
  consume_fields-rest (suc n) seen (open_object ∷ ts) us h = absurd (cc)
  consume_fields-rest (suc n) seen (open_array ∷ ts) us h = absurd (cc)
  consume_fields-rest (suc n) seen (scalar ∷ ts) us h = absurd (cc)
  consume_fields-rest (suc n) seen (close_object ∷ ts) us h =
      (no_field, ap (◌∷◌ close_object) (rest_inj ts us h), tt, tt, tt)
  consume_fields-rest (suc n) seen (text k ∷ ts) us h =
      let (m, b) = if-rest (member k seen) (consume n ts >>= consume_fields n (k ∷ seen)) us h in
      let (vs, p, q) = bind-rest (consume n ts) (consume_fields n (k ∷ seen)) us b in
      cons_fields k seen ts vs us m (consume-rest n ts vs p)
        (consume_fields-rest n (k ∷ seen) vs us q)

  consume_items-rest : (n : ℕ) (ts us : List Token) → consume_items n ts ≡ rest us → ItemsIn ts us
  consume_items-rest zero ts us h = absurd (cc)
  consume_items-rest (suc n) [] us h = absurd (cc)
  consume_items-rest (suc n) (t ∷ ts) us h = elim (items_more n t ts us h) [
    | inl (e, q) ↦ (no_item, ap (λ x. x ∷ ts) e ∙ ap (◌∷◌ close_array) q, tt)
    | inr (vs, p, q) ↦
        cons_items (t ∷ ts) vs us (consume-rest n (t ∷ ts) vs p) (consume_items-rest n vs us q)
  ]

ends_there-rest : (s : Scan) (eof : Bool) → ends_there s eof ≡ true → (s ≡ rest []) × (eof ≡ true)
unfolding ends_there
ends_there-rest out_of_fuel eof h = absurd (cc)
ends_there-rest failed eof h = absurd (cc)
ends_there-rest (rest []) eof h = (refl, h)
ends_there-rest (rest (t ∷ ts)) eof h = absurd (cc)

-- `validateUniqueJSONKeys` accepts what the decoder reads exactly if that is one whole JSON value, with
-- the end of the text behind it, in which no object has a key twice.
pub validate_unique_json_keys_iff :
    (r : Reading)
    → (validate_unique_json_keys r ≡ true)
      ↔ ((v : Value) × (r ≡ record { tokens = print v []; ends_with_eof = true }) × UniqueKeys v)
unfolding validate_unique_json_keys
validate_unique_json_keys_iff r = (
  λ h.
      (let (p, q) = ends_there-rest (consume (fuel_for r.tokens) r.tokens) r.ends_with_eof h in
        let (v, e, u) = consume-rest (fuel_for r.tokens) r.tokens [] p in
        (
          v,
          ap (λ ts. record { tokens = ts; ends_with_eof = r.ends_with_eof }) e
              ∙ ap (λ b. record { tokens = print v []; ends_with_eof = b }) q,
          u,
        )),
  λ (v, e, u). ap validate_unique_json_keys e ∙ accepts-print v u,
)
