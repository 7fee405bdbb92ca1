-- ===== src/NodeHelper/Safety.antt =====
-- What reaches `scontrol` (internal/nodehelper/helper.go).
use cockpit_slurm.Base.{sym}
use cockpit_slurm.Base.{subst}
use cockpit_slurm.Base.{◌!=◌}
use cockpit_slurm.Base.{if◌then◌else◌}
use cockpit_slurm.Base.{Option-cases}
use cockpit_slurm.Base.{ap}
use cockpit_slurm.NodeHelper.Inputs.{
  ValidName, ValidReason, valid_node_name_iff, valid_drain_reason_iff,
}
use cockpit_slurm.NodeHelper.Scontrol.{invalid_arguments}
use cockpit_slurm.Base.{none}
use cockpit_slurm.NodeHelper.Scontrol.{err}
use cockpit_slurm.NodeHelper.Scontrol.{refused}
use cockpit_slurm.NodeHelper.Scontrol.{access_denied}
use cockpit_slurm.NodeHelper.Scontrol.{HelperResult}
use cockpit_slurm.NodeHelper.Scontrol.{DbusErrorKind}
use cockpit_slurm.NodeHelper.Scontrol.{Reply}
use cockpit_slurm.NodeHelper.Scontrol.{HelperError}
use cockpit_slurm.Base.{false}
use cockpit_slurm.Base.{
  ℕ, String, ◌≡◌, ◌≢◌, ◌↔◌, refl, ◌⊎◌, inl, inr, Bool, true, not, ◌||◌, Option, some, List, [], ◌∷◌,
  nat_eq, string_eq, string_iff, is_empty, has_control, codes, codes-append, ◌<>◌, is_alphanumeric,
  is_name_mark, is_control, all, all-append, all_mono, all-not-any, All, arith,
}
use cockpit_slurm.NodeHelper.Scontrol.{
  ok, valid_node_name, valid_name_chars, valid_drain_reason, build_scontrol_args, set_node_state,
  run_request, succeeded, Sender, no_sender, other_sender, sender, scontrol_path,
  operation_node_drain, operation_node_resume,
}

-- A text without control characters.
abbrev pub IsPrintable : String → Type 0
IsPrintable s = all (λ c. not (is_control c)) (codes s) ≡ true

name_char-printable :
    (c : ℕ) → is_alphanumeric c || is_name_mark c ≡ true → not (is_control c) ≡ true
unfolding is_alphanumeric is_name_mark is_control
name_char-printable c h = ground arith

name_chars-printable :
    (cs : List ℕ) → valid_name_chars cs ≡ true → all (λ c. not (is_control c)) cs ≡ true
unfolding valid_name_chars
name_chars-printable [] h = refl
name_chars-printable (c ∷ cs) h = ground (
  arith,
  name_char-printable c,
  all_mono (λ x. is_alphanumeric x || is_name_mark x) (λ x. not (is_control x)) cs
      name_char-printable,
)

valid_node_name-IsPrintable : (name : String) → valid_node_name name ≡ true → IsPrintable name
unfolding valid_node_name
valid_node_name-IsPrintable name h = name_chars-printable (codes name) (ground arith)

valid_drain_reason-IsPrintable :
    (reason : String) → valid_drain_reason reason ≡ true → IsPrintable reason
unfolding valid_drain_reason has_control
valid_drain_reason-IsPrintable reason h = all-not-any is_control (codes reason) (ground arith)

append-IsPrintable : (s t : String) → IsPrintable s → IsPrintable t → IsPrintable (s <> t)
append-IsPrintable s t h k =
    rw (codes-append s t) (all-append (λ c. not (is_control c)) (codes s) (codes t) h k)

-- What an accepted request looks like.
pub record Accepts (op name reason : String) (args : List String) : Type 0 where
  pub name_valid : ValidName name
  pub known :
      ((op ≡ operation_node_drain)
        × ValidReason reason
        × (args ≡ "update" ∷ "NodeName=" <> name ∷ "State=DRAIN" ∷ "Reason=" <> reason ∷ []))
      ⊎ ((op ≡ operation_node_resume)
          × (reason ≡ "")
          × (args ≡ "update" ∷ "NodeName=" <> name ∷ "State=RESUME" ∷ []))

is_empty_iff : (s : String) → (is_empty s ≡ true) ↔ (s ≡ "")
unfolding is_empty
is_empty_iff String.[] = ((λ h. refl), (λ h. refl))
is_empty_iff (String.◌∷◌ c s) = ((λ h. absurd (cc)), (λ h. ap is_empty h))

drain-ne-resume : operation_node_drain ≢ operation_node_resume
drain-ne-resume = ground (arith, string_iff operation_node_drain operation_node_resume)

build_scontrol_args-Accepts :
    (op name reason : String) (args : List String)
    → build_scontrol_args op name reason ≡ ok args
    → Accepts op name reason args
unfolding build_scontrol_args
build_scontrol_args-Accepts op name reason args h =
    let name_ok = valid_node_name_iff name in
    let reason_ok = valid_drain_reason_iff reason in
    let drain = string_iff op operation_node_drain in
    let resume = string_iff op operation_node_resume in
    record {
      name_valid = ground (arith, h, name_ok);
      known = ground (arith, h, drain, resume, reason_ok, is_empty_iff reason);
    }

Accepts-build_scontrol_args :
    (op name reason : String) (args : List String)
    → Accepts op name reason args
    → build_scontrol_args op name reason ≡ ok args
unfolding build_scontrol_args
Accepts-build_scontrol_args op name reason args a = ground (
  arith,
  string_iff op operation_node_drain,
  string_iff op operation_node_resume,
  drain-ne-resume,
  valid_node_name_iff name,
  valid_drain_reason_iff reason,
  is_empty_iff reason,
  a.name_valid,
  a.known,
)

-- The helper builds a command line exactly for a drain and for a resume of a node whose name starts
-- with a letter or a digit, has only letters, digits and "-", ".", "_", at most 255, and is not
-- "ALL" in any case; a drain has a reason that is not blank, of at most 256 bytes and without control
-- characters, a resume has none; and then the line is the one written here.
pub build_scontrol_args_iff :
    (op name reason : String) (args : List String)
    → (build_scontrol_args op name reason ≡ ok args) ↔ Accepts op name reason args
build_scontrol_args_iff op name reason args = (
  build_scontrol_args-Accepts op name reason args,
  Accepts-build_scontrol_args op name reason args,
)

-- Every argument of the command line is free of control characters.
pub build_scontrol_args-IsPrintable :
    (op name reason : String) (args : List String)
    → build_scontrol_args op name reason ≡ ok args
    → All IsPrintable args
unfolding is_control
build_scontrol_args-IsPrintable op name reason args h =
    let a = build_scontrol_args-Accepts op name reason args h in
    let n =
      append-IsPrintable "NodeName=" name refl
        (valid_node_name-IsPrintable name ((valid_node_name_iff name).1 a.name_valid)) in
    elim a.known [
      | inl (_, v, e) ↦
          let r =
            append-IsPrintable "Reason=" reason refl
              (valid_drain_reason-IsPrintable reason ((valid_drain_reason_iff reason).1 v)) in
          rw e (refl, (n, (refl, (r, tt))))
      | inr (_, v, e) ↦ rw e (refl, (n, (refl, tt)))
    ]

no_ok : (e : HelperError) (args : List String) → HelperResult.err e ≡ ok args → ⊥
no_ok e args h = cc

no_sender_text : (s : String) → no_sender ≡ sender s → ⊥
no_sender_text s h = cc

other_sender_text : (s : String) → other_sender ≡ sender s → ⊥
other_sender_text s h = cc

sender_inj : (s t : String) → sender s ≡ sender t → s ≡ t
sender_inj s t h = cc

-- A result of the method that runs `scontrol` for the described arguments, and is a success exactly
-- where it runs and succeeds.
abbrev pub RunsFor :
    (String → List String → Bool)
    → (List String → Type 0)
    → Reply × Option (String × List String)
    → Type 0
RunsFor runner P r =
    ((args : List String) → (r.1 ≡ some (scontrol_path, args)) ↔ P args)
    × ((r.0 ≡ succeeded) ↔ (
        (args : List String) × (r.1 ≡ some (scontrol_path, args))
        × (runner scontrol_path args ≡ true)))

refused-RunsFor :
    (runner : String → List String → Bool) (P : List String → Type 0) (kind : DbusErrorKind)
    → ((args : List String) → P args → ⊥)
    → RunsFor runner P (refused kind, none)
refused-RunsFor runner P kind never = (
  (λ args. ((λ h. absurd (cc)), (λ p. absurd (never args p)))),
  ((λ h. absurd (cc)), (λ h. absurd (cc))),
)

run_request-RunsFor :
    (runner : String → List String → Bool) (P : List String → Type 0)
    (b : HelperResult (List String))
    → ((args : List String) → (b ≡ ok args) ↔ P args)
    → RunsFor runner P (run_request runner b)
unfolding run_request
run_request-RunsFor runner P (err e) f =
    refused-RunsFor runner P invalid_arguments (λ args p. absurd (no_ok e args ((f args).1 p)))
run_request-RunsFor runner P (ok built) f = (
  (λ args. ((λ h. (f args).0 (cc)), (λ p. let q : ok built ≡ ok args = (f args).1 p in cc))),
  (
    (λ h. (built, refl, ground (arith, h))),
    (λ (args, q, r).
        let same : built ≡ args = cc in
        ground (arith, subst (λ a. runner scontrol_path a ≡ true) (sym same) r)),
  ),
)

if-RunsFor :
    (runner : String → List String → Bool) (P : List String → Type 0) (b : Bool)
    (x y : Reply × Option (String × List String))
    → (b ≡ true → RunsFor runner P x)
    → (b ≡ false → RunsFor runner P y)
    → RunsFor runner P (if b then x else y)
if-RunsFor runner P true x y f g = f refl
if-RunsFor runner P false x y f g = g refl

-- `scontrol` is run exactly where the sender is known and is the service's user and the request is
-- accepted, and then with the request's command line; the reply is a success exactly where `scontrol`
-- is run and succeeds.
pub set_node_state_runs :
    (service_uid : ℕ) (peers : String → Option ℕ) (runner : String → List String → Bool)
    (from : Sender) (op name reason : String)
    → RunsFor runner
        (λ args.
          (s : String) × (from ≡ sender s)
          × (is_empty s ≡ false)
          × (peers s ≡ some service_uid)
          × (build_scontrol_args op name reason ≡ ok args))
        (set_node_state service_uid peers runner from op name reason)
unfolding set_node_state
set_node_state_runs service_uid peers runner no_sender op name reason =
    refused-RunsFor runner _ access_denied (λ args p. no_sender_text p.0 p.1)
set_node_state_runs service_uid peers runner other_sender op name reason =
    refused-RunsFor runner _ access_denied (λ args p. other_sender_text p.0 p.1)
set_node_state_runs service_uid peers runner (sender s) op name reason =
    if-RunsFor runner _ (is_empty s) _ _
      (λ e.
        refused-RunsFor runner _ access_denied
          (λ args p. absurd (ground (arith, e, ap is_empty (sender_inj s p.0 p.1), p.2))))
      (λ e. elim (Option-cases (peers s)) [
        | inl f ↦ rw f (
            refused-RunsFor runner _ access_denied
              (λ args p. absurd (ground (arith, f, ap peers (sender_inj s p.0 p.1), p.3))))
        | inr (uid, f) ↦ rw f (
            if-RunsFor runner _ (uid != service_uid) _ _
              (λ ne.
                refused-RunsFor runner _ access_denied
                  (λ args p. absurd (ground (arith, ne, f, ap peers (sender_inj s p.0 p.1), p.3))))
              (λ eq.
                run_request-RunsFor runner _ (build_scontrol_args op name reason)
                  (λ args. ((λ b. (s, refl, e, ground (arith, f, eq), b)), (λ p. p.4)))))
      ])
