-- ===== src/Tests/Executor.antt =====
-- A drain over D-Bus whose answer is lost (internal/command/dbus_executor_test.go).
use cockpit_slurm.Base.{string_iff}
use cockpit_slurm.Base.{◌≡◌}
use cockpit_slurm.Base.{◌≢◌}
use cockpit_slurm.NodeHelper.Scontrol.{DbusErrorKind}
use cockpit_slurm.Command.Executor.{error_name}
use cockpit_slurm.Command.Executor.{is_definite, error_name}
use cockpit_slurm.Base.{ℕ, true, false, some, none, Bool, Option, List, String}
use cockpit_slurm.NodeHelper.Scontrol.{sender}
use cockpit_slurm.Command.Executor.{Bus, loses_answer, dbus_error, execute_mutation}
use cockpit_slurm.Command.Effects.{helper_call, Tells, execute_mutation-Tells}

abbrev peers : String → Option ℕ
peers name = some 990

abbrev runner : String → List String → Bool
runner path args = true

abbrev bus : Bus
bus = loses_answer (dbus_error "org.freedesktop.DBus.Error.NoReply")

abbrev lost_name : String
lost_name = "org.freedesktop.DBus.Error.NoReply"

foreign : (kind : DbusErrorKind) → lost_name ≢ error_name kind
unfolding error_name
foreign DbusErrorKind.internal_error h =
    let q : false ≡ true = (string_iff lost_name (error_name DbusErrorKind.internal_error)).1 h in
    cc
foreign DbusErrorKind.access_denied h =
    let q : false ≡ true = (string_iff lost_name (error_name DbusErrorKind.access_denied)).1 h in cc
foreign DbusErrorKind.invalid_arguments h =
    let q : false ≡ true =
      (string_iff lost_name (error_name DbusErrorKind.invalid_arguments)).1 h in
    cc
foreign DbusErrorKind.execution_failed h =
    let q : false ≡ true = (string_iff lost_name (error_name DbusErrorKind.execution_failed)).1 h in
    cc

execute_mutation-Tells_example : Tells runner false (
    execute_mutation
      (helper_call 990 peers runner (sender ":1.5") bus)
      "node.drain"
      "n1"
      "disk"
      none)
unfolding is_definite
execute_mutation-Tells_example =
    execute_mutation-Tells 990 peers runner (sender ":1.5") bus "node.drain" "n1" "disk" false
      foreign
