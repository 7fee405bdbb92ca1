-- ===== src/Command/Executor.antt =====
-- internal/command/dbus_executor.go: the call of the node helper over D-Bus, and what the executor
-- makes of its result. What the bus does to a call is an argument; a nil executor is left out.
use cockpit_slurm.Base.{
  String, Bool, true, ◌&&◌, ◌||◌, Option, none, some, List, ◌==◌, ◌!=◌, if◌then◌else◌, string_eq,
  ◌<>◌,
}
use cockpit_slurm.NodeHelper.Scontrol.{
  DbusErrorKind, internal_error, access_denied, invalid_arguments, execution_failed, Reply,
  succeeded, refused, operation_node_drain, operation_node_resume,
}
use cockpit_slurm.Command.World.{Outcome, execution_ok, execution_error}

abbrev pub interface : String
interface = "org.cockpit_project.CockpitSlurm.NodeMutation"

-- `dbusError`: the name of an error of the helper.
unfoldable pub error_name : DbusErrorKind → String
error_name internal_error = interface <> ".Error.InternalError"
error_name access_denied = interface <> ".Error.AccessDenied"
error_name invalid_arguments = interface <> ".Error.InvalidArguments"
error_name execution_failed = interface <> ".Error.ExecutionFailed"

-- What `Store` sees of a call: its result, a D-Bus error by its name, or another error.
pub data CallResult : Type 0 where
  returned : String → CallResult
  dbus_error : String → CallResult
  other_error : CallResult

-- An error of the caller, with the name of the D-Bus error that it wraps, if it does.
pub data CallerResult : Type 0 where
  caller_ok : CallerResult
  caller_error : Option String → CallerResult

-- `dbusNodeMutationCaller.SetNodeState`
unfoldable pub store_result : CallResult → CallerResult
store_result (returned result) = if result != "succeeded" then caller_error none else caller_ok
store_result (dbus_error name) = caller_error (some name)
store_result other_error = caller_error none

-- What `Execute` returns.
pub data ExecuteResult : Type 0 where
  done : ExecuteResult
  unsupported_operation : ExecuteResult
  definite_error : String → ExecuteResult
  outcome_unknown : ExecuteResult

-- The names that `Execute` takes for an answer of the helper.
unfoldable pub is_definite : String → Bool
unfolding error_name
is_definite name =
    name == error_name invalid_arguments
    || (name == error_name access_denied || name == error_name execution_failed)

unfoldable pub classify : CallerResult → ExecuteResult
classify caller_ok = done
classify (caller_error none) = outcome_unknown
classify (caller_error (some name)) =
    if is_definite name then definite_error name else outcome_unknown

-- `DBusExecutor.Execute`; `call` is the call of the D-Bus object, with what it changes.
unfoldable pub execute_mutation {ℓ} :
    {S : Type ℓ}
    → (String → String → String → S → CallResult × S)
    → String
    → String
    → String
    → S
    → ExecuteResult × S
execute_mutation call op node_name reason state =
    if op != operation_node_drain && op != operation_node_resume
    then (unsupported_operation, state)
    else (let (result, state') = call op node_name reason state in
        (classify (store_result result), state'))

-- How the command service takes the result (internal/command/service.go): `ended` tells whether the
-- context of the request has ended.
unfoldable pub outcome_of : ExecuteResult → Bool → Outcome
outcome_of done ended = execution_ok
outcome_of unsupported_operation ended = execution_error ended
outcome_of (definite_error name) ended = execution_error ended
outcome_of outcome_unknown ended = execution_error true

-- What the bus does to a call: it brings the helper's answer back; the helper runs but the answer is
-- replaced by a failure of the bus; or the helper is not reached.
pub data Bus : Type 0 where
  answers : Bus
  loses_answer : CallResult → Bus
  refuses_call : CallResult → Bus

unfoldable pub result_of : Reply → CallResult
result_of succeeded = returned "succeeded"
result_of (refused kind) = dbus_error (error_name kind)

-- A call of the helper's method over the bus, and the command line that the helper ran, if any.
unfoldable pub call_helper :
    Bus → Reply × Option (String × List String) → CallResult × Option (String × List String)
call_helper answers (reply, ran) = (result_of reply, ran)
call_helper (loses_answer failure) (reply, ran) = (failure, ran)
call_helper (refuses_call failure) (reply, ran) = (failure, none)
