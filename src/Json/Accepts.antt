-- ===== src/Json/Accepts.antt =====
-- The scanner accepts the tokens of every value with distinct keys, with the fuel it is given.
use cockpit_slurm.Base.{Distinct}
use cockpit_slurm.Base.{member}
use cockpit_slurm.Base.{if◌then◌else◌}
use cockpit_slurm.Base.{
  ℕ, zero, suc, ◌+◌, ◌*◌, ◌≤◌, String, ◌≡◌, refl, true, List, [], ◌∷◌, arith, length, string_eq,
}
use cockpit_slurm.Json.Scanner.{
  Token, rest, failed, failed, consume, consume_fields, consume_items, ◌>>=◌, fuel_for, ends_there,
  validate_unique_json_keys,
}
use cockpit_slurm.Json.Trees.{
  Value, string, atom, object, array, Fields, no_field, field, Items, no_item, item, print,
  print_fields, print_items, names, UniqueKeys, UniqueInFields, UniqueInItems, Fresh, new_names,
  seen_grow,
}

-- The fuel that the tokens of a value take.
abbrev mutual
  need : Value → ℕ
  need (string s) = 1
  need atom = 1
  need (object fs) = suc (need_fields fs)
  need (array xs) = suc (need_items xs)

  need_fields : Fields → ℕ
  need_fields no_field = 1
  need_fields (field k v fs) = suc (need v + need_fields fs)

  need_items : Items → ℕ
  need_items no_item = 1
  need_items (item v xs) = suc (need v + need_items xs)

mutual
  unfolding print

  need-le : (v : Value) (ts : List Token) → need v + 2 * length ts + 1 ≤ 2 * length (print v ts)
  need-le (string s) ts = omega arith
  need-le atom ts = omega arith
  need-le (object fs) ts = omega (arith, need_fields-le fs ts)
  need-le (array xs) ts = omega (arith, need_items-le xs ts)

  need_fields-le :
      (fs : Fields) (ts : List Token)
      → need_fields fs + 2 * length ts ≤ 2 * length (print_fields fs ts)
  need_fields-le no_field ts = omega arith
  need_fields-le (field k v fs) ts =
      omega (arith, need-le v (print_fields fs ts), need_fields-le fs ts)

  need_items-le :
      (xs : Items) (ts : List Token)
      → need_items xs + 2 * length ts ≤ 2 * length (print_items xs ts)
  need_items-le no_item ts = omega arith
  need_items-le (item v xs) ts = omega (arith, need-le v (print_items xs ts), need_items-le xs ts)

-- The loop over the elements reads the first one, whatever token it begins with.
consume_items_step :
    (v : Value) (n : ℕ) (ts : List Token)
    → consume_items (suc n) (print v ts) ≡ (consume n (print v ts) >>= consume_items n)
unfolding consume print
consume_items_step (string s) n ts = refl
consume_items_step atom n ts = refl
consume_items_step (object fs) n ts = refl
consume_items_step (array xs) n ts = refl

consume_fields_step :
    (k : String) (v : Value) (fs : Fields) (n : ℕ) (seen : List String) (ts : List Token)
    → consume_fields (suc n) seen (print_fields (field k v fs) ts) ≡ (
        if member k seen
        then failed
        else (consume n (print v (print_fields fs ts)) >>= consume_fields n (k ∷ seen)))
unfolding consume print
consume_fields_step k v fs n seen ts = refl

mutual
  unfolding consume print

  consume-print :
      (v : Value) (n : ℕ) (ts : List Token)
      → UniqueKeys v
      → need v ≤ n
      → consume n (print v ts) ≡ rest ts
  consume-print (string s) zero ts u h = absurd (omega arith)
  consume-print atom zero ts u h = absurd (omega arith)
  consume-print (object fs) zero ts u h = absurd (omega arith)
  consume-print (array xs) zero ts u h = absurd (omega arith)
  consume-print (string s) (suc n) ts u h = refl
  consume-print atom (suc n) ts u h = refl
  consume-print (object fs) (suc n) ts u h =
      consume_fields-print fs n [] ts u.0 (new_names (names fs)) u.1 (omega arith)
  consume-print (array xs) (suc n) ts u h = consume_items-print xs n ts u (omega arith)

  consume_fields-print :
      (fs : Fields) (n : ℕ) (seen : List String) (ts : List Token)
      → Distinct (names fs)
      → Fresh seen (names fs)
      → UniqueInFields fs
      → need_fields fs ≤ n
      → consume_fields n seen (print_fields fs ts) ≡ rest ts
  consume_fields-print no_field zero seen ts d f u h = absurd (omega arith)
  consume_fields-print (field k v fs) zero seen ts d f u h = absurd (omega arith)
  consume_fields-print no_field (suc n) seen ts d f u h = refl
  consume_fields-print (field k v fs) (suc n) seen ts d f u h =
      rw
        (
          consume_fields_step k v fs n seen ts,
          f.0,
          consume-print v n (print_fields fs ts) u.0 (omega arith),
        )
        (consume_fields-print fs n (k ∷ seen) ts d.1 (seen_grow k seen (names fs) d.0 f.1) u.1
          (omega arith))

  consume_items-print :
      (xs : Items) (n : ℕ) (ts : List Token)
      → UniqueInItems xs
      → need_items xs ≤ n
      → consume_items n (print_items xs ts) ≡ rest ts
  consume_items-print no_item zero ts u h = absurd (omega arith)
  consume_items-print (item v xs) zero ts u h = absurd (omega arith)
  consume_items-print no_item (suc n) ts u h = refl
  consume_items-print (item v xs) (suc n) ts u h =
      rw
        (
          consume_items_step v n (print_items xs ts),
          consume-print v n (print_items xs ts) u.0 (omega arith),
        )
        (consume_items-print xs n ts u.1 (omega arith))

-- The tokens of a value with distinct keys, and nothing behind them, pass.
pub accepts-print :
    (v : Value)
    → UniqueKeys v
    → validate_unique_json_keys (record { tokens = print v []; ends_with_eof = true }) ≡ true
unfolding validate_unique_json_keys ends_there
accepts-print v u =
    rw (consume-print v (fuel_for (print v [])) [] u (omega (arith, need-le v []))) refl
