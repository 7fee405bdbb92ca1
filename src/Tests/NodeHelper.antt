-- ===== src/Tests/NodeHelper.antt =====
-- The privileged helper on one request (internal/nodehelper/helper.go).
use cockpit_slurm.Base.{false}
use cockpit_slurm.NodeHelper.Safety.{RunsFor}
use cockpit_slurm.NodeHelper.Scontrol.{run_request}
use cockpit_slurm.NodeHelper.Scontrol.{valid_name_chars}
use cockpit_slurm.NodeHelper.Scontrol.{is_all}
use cockpit_slurm.Base.{is_empty}
use cockpit_slurm.NodeHelper.Scontrol.{valid_node_name}
use cockpit_slurm.Base.{ℕ, String, Bool, true, ◌≡◌, ◌↔◌, refl, List, [], ◌∷◌, Option, some}
use cockpit_slurm.NodeHelper.Scontrol.{
  ok, build_scontrol_args, sender, set_node_state, scontrol_path,
}
use cockpit_slurm.NodeHelper.Safety.{Accepts, build_scontrol_args_iff, set_node_state_runs}

abbrev resume_args : List String
resume_args = "update" ∷ "NodeName=n1" ∷ "State=RESUME" ∷ []

build_scontrol_args_iff_example :
    (build_scontrol_args "node.resume" "n1" "" ≡ ok resume_args)
    ↔ Accepts "node.resume" "n1" "" resume_args
build_scontrol_args_iff_example = build_scontrol_args_iff "node.resume" "n1" "" resume_args

abbrev peers : String → Option ℕ
peers s = some 990

abbrev runner : String → List String → Bool
runner path args = true

set_node_state_runs_example :
    RunsFor runner
      (λ args.
        (s : String) × (sender ":1.7" ≡ sender s)
        × (is_empty s ≡ false)
        × (peers s ≡ some 990)
        × (build_scontrol_args "node.resume" "n1" "" ≡ ok args))
      (set_node_state 990 peers runner (sender ":1.7") "node.resume" "n1" "")
set_node_state_runs_example =
    set_node_state_runs 990 peers runner (sender ":1.7") "node.resume" "n1" ""

-- The request is run.
runs_resume :
    (set_node_state 990 peers runner (sender ":1.7") "node.resume" "n1" "").1
    ≡ some (scontrol_path, resume_args)
unfolding set_node_state is_empty run_request build_scontrol_args valid_node_name is_all
    valid_name_chars
runs_resume = refl
