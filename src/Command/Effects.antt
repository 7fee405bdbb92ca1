-- ===== src/Command/Effects.antt =====
-- What the outcome of an execution says of the run of scontrol (internal/command/dbus_executor.go,
-- internal/nodehelper/helper.go).
use cockpit_slurm.Base.{nat_eq, Option-cases}
use cockpit_slurm.Base.{is_empty}
use cockpit_slurm.Base.{
  ℕ, String, ◌≡◌, ◌≢◌, refl, inl, inr, Bool, true, false, ◌&&◌, Option, none, some, List, ◌!=◌,
  if◌then◌else◌, string_eq, string_iff, arith, Bool-cases,
}
use cockpit_slurm.NodeHelper.Scontrol.{
  DbusErrorKind, internal_error, access_denied, invalid_arguments, execution_failed, Reply,
  succeeded, refused, HelperResult, ok, err, Sender, no_sender, other_sender, sender, scontrol_path,
  run_request, set_node_state, build_scontrol_args, operation_node_drain, operation_node_resume,
}
use cockpit_slurm.Command.World.{execution_ok, execution_error}
use cockpit_slurm.Command.Executor.{
  error_name, CallResult, returned, dbus_error, other_error, CallerResult, caller_ok, caller_error,
  store_result, ExecuteResult, done, unsupported_operation, definite_error, outcome_unknown,
  is_definite, classify, execute_mutation, outcome_of, Bus, answers, loses_answer, refuses_call,
  result_of, call_helper,
}

-- A failure that is not an answer of the helper: none of its errors bears the name.
abbrev pub OfBus : CallResult → Type 0
OfBus (returned result) = ⊥
OfBus (dbus_error name) = (kind : DbusErrorKind) → name ≢ error_name kind
OfBus other_error = Unit

of_bus-indefinite :
    (name : String) → ((kind : DbusErrorKind) → name ≢ error_name kind) → is_definite name ≡ false
unfolding is_definite
of_bus-indefinite name b = ground (
  arith,
  b invalid_arguments,
  b access_denied,
  b execution_failed,
  string_iff name (error_name invalid_arguments),
  string_iff name (error_name access_denied),
  string_iff name (error_name execution_failed),
)

abbrev pub OwnFailures : Bus → Type 0
OwnFailures answers = Unit
OwnFailures (loses_answer failure) = OfBus failure
OwnFailures (refuses_call failure) = OfBus failure

-- No run of scontrol succeeded.
abbrev pub NotRun : (String → List String → Bool) → Option (String × List String) → Type 0
NotRun runner none = Unit
NotRun runner (some (path, args)) = runner path args ≡ false

-- scontrol ran, and succeeded.
abbrev pub Ran : (String → List String → Bool) → Option (String × List String) → Type 0
Ran runner none = ⊥
Ran runner (some (path, args)) = runner path args ≡ true

-- The reply of the helper fits its run.
abbrev Fits : (String → List String → Bool) → Reply × Option (String × List String) → Type 0
Fits runner (succeeded, ran) = Ran runner ran
Fits runner (refused kind, ran) = NotRun runner ran

run_request-Fits :
    (runner : String → List String → Bool) (args : HelperResult (List String))
    → Fits runner (run_request runner args)
unfolding run_request
run_request-Fits runner (err e) = tt
run_request-Fits runner (ok args) = elim (Bool-cases (runner scontrol_path args)) [
  | inl e ↦ rw e e
  | inr e ↦ rw e e
]

if-Fits :
    (runner : String → List String → Bool) (b : Bool) (x y : Reply × Option (String × List String))
    → Fits runner x
    → Fits runner y
    → Fits runner (if b then x else y)
if-Fits runner true x y f g = f
if-Fits runner false x y f g = g

set_node_state-Fits :
    (uid : ℕ) (peers : String → Option ℕ) (runner : String → List String → Bool) (from : Sender)
    (op name reason : String)
    → Fits runner (set_node_state uid peers runner from op name reason)
unfolding set_node_state
set_node_state-Fits uid peers runner no_sender op name reason = tt
set_node_state-Fits uid peers runner other_sender op name reason = tt
set_node_state-Fits uid peers runner (sender s) op name reason =
    if-Fits runner (is_empty s) (refused access_denied, none) _ tt
      (elim (Option-cases (peers s)) [
        | inl e ↦ rw e tt
        | inr (u, e) ↦ rw e (
            if-Fits runner (u != uid) (refused access_denied, none) _ tt
              (run_request-Fits runner (build_scontrol_args op name reason)))
      ])

-- What a result that the executor sees says of the run.
abbrev Reports : (String → List String → Bool) → CallResult → Option (String × List String) → Type 0
Reports runner result ran =
    ((name : String) → classify (store_result result) ≡ definite_error name → NotRun runner ran)
    × (classify (store_result result) ≡ done → Ran runner ran)

bus-Reports :
    (runner : String → List String → Bool) (failure : CallResult)
    (ran : Option (String × List String))
    → OfBus failure
    → Reports runner failure ran
unfolding classify store_result
bus-Reports runner (returned result) ran b = absurd b
bus-Reports runner (dbus_error name) ran b =
    let i = of_bus-indefinite name b in
    ((λ n h. absurd (ground (arith, h, i))), (λ h. absurd (ground (arith, h, i))))
bus-Reports runner other_error ran b = ((λ n h. absurd (cc)), (λ h. absurd (cc)))

result_of-Reports :
    (runner : String → List String → Bool) (reply : Reply) (ran : Option (String × List String))
    → Fits runner (reply, ran)
    → Reports runner (result_of reply) ran
unfolding result_of classify store_result is_definite error_name
result_of-Reports runner succeeded ran f = ((λ n h. absurd (cc)), λ h. f)
result_of-Reports runner (refused internal_error) ran f = ((λ n h. f), (λ h. absurd (cc)))
result_of-Reports runner (refused access_denied) ran f = ((λ n h. f), (λ h. absurd (cc)))
result_of-Reports runner (refused invalid_arguments) ran f = ((λ n h. f), (λ h. absurd (cc)))
result_of-Reports runner (refused execution_failed) ran f = ((λ n h. f), (λ h. absurd (cc)))

call_helper-Reports :
    (runner : String → List String → Bool) (bus : Bus)
    (answer : Reply × Option (String × List String))
    → OwnFailures bus
    → Fits runner answer
    → Reports runner (call_helper bus answer).0 (call_helper bus answer).1
unfolding call_helper
call_helper-Reports runner answers (reply, ran) b f = result_of-Reports runner reply ran f
call_helper-Reports runner (loses_answer failure) (reply, ran) b f =
    bus-Reports runner failure ran b
call_helper-Reports runner (refuses_call failure) (reply, ran) b f =
    bus-Reports runner failure none b

-- The call of the helper over the bus, with the command line that it ran, if any.
abbrev pub helper_call :
    ℕ
    → (String → Option ℕ)
    → (String → List String → Bool)
    → Sender
    → Bus
    → String
    → String
    → String
    → Option (String × List String)
    → CallResult × Option (String × List String)
helper_call uid peers runner from bus op name reason ran =
    call_helper bus (set_node_state uid peers runner from op name reason)

-- What an outcome says of the run.
abbrev pub Tells :
    (String → List String → Bool) → Bool → ExecuteResult × Option (String × List String) → Type 0
Tells runner ended (result, ran) =
    (outcome_of result ended ≡ execution_error false → NotRun runner ran)
    × (outcome_of result ended ≡ execution_ok → Ran runner ran)

classified-Tells :
    (runner : String → List String → Bool) (ended : Bool) (r : ExecuteResult)
    (ran : Option (String × List String))
    → ((name : String) → r ≡ definite_error name → NotRun runner ran)
    → (r ≡ done → Ran runner ran)
    → (r ≡ unsupported_operation → NotRun runner ran)
    → Tells runner ended (r, ran)
unfolding outcome_of
classified-Tells runner ended done ran f g k = ((λ h. absurd (cc)), λ h. g refl)
classified-Tells runner ended unsupported_operation ran f g k = ((λ h. k refl), (λ h. absurd (cc)))
classified-Tells runner ended (definite_error name) ran f g k =
    ((λ h. f name refl), (λ h. absurd (cc)))
classified-Tells runner ended outcome_unknown ran f g k = ((λ h. absurd (cc)), (λ h. absurd (cc)))

classify-supported : (r : CallerResult) → classify r ≡ unsupported_operation → ⊥
unfolding classify
classify-supported caller_ok h = cc
classify-supported (caller_error none) h = cc
classify-supported (caller_error (some name)) h = ground arith

if-Tells :
    (runner : String → List String → Bool) (ended b : Bool)
    (x y : ExecuteResult × Option (String × List String))
    → Tells runner ended x
    → Tells runner ended y
    → Tells runner ended (if b then x else y)
if-Tells runner ended true x y f g = f
if-Tells runner ended false x y f g = g

-- If a failure of the bus itself bears none of the names of the helper's errors, then an execution
-- over it is taken for a definite failure only where no run of scontrol succeeded, and for a success
-- only where scontrol ran and succeeded; every other outcome counts as unknown.
pub execute_mutation-Tells :
    (uid : ℕ) (peers : String → Option ℕ) (runner : String → List String → Bool) (from : Sender)
    (bus : Bus) (op name reason : String) (ended : Bool)
    → OwnFailures bus
    → Tells runner ended
        (execute_mutation (helper_call uid peers runner from bus) op name reason none)
unfolding execute_mutation
execute_mutation-Tells uid peers runner from bus op name reason ended own =
    let answer = set_node_state uid peers runner from op name reason in
    let (f, g) =
      call_helper-Reports runner bus answer own
        (set_node_state-Fits uid peers runner from op name reason) in
    let result = (call_helper bus answer).0 in
    if-Tells runner ended (op != operation_node_drain && op != operation_node_resume)
      (unsupported_operation, none) _
      (classified-Tells runner ended unsupported_operation none (λ n h. absurd (cc))
        (λ h. absurd (cc)) λ h. tt)
      (classified-Tells runner ended (classify (store_result result)) (call_helper bus answer).1 f g
        (λ h. absurd (classify-supported (store_result result) h)))
