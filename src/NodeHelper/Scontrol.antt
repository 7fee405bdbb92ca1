-- ===== src/NodeHelper/Scontrol.antt =====
-- internal/nodehelper/helper.go: the validation of a node mutation, the `scontrol` arguments and the
-- D-Bus method `SetNodeState`. The D-Bus headers, the peer lookup and the run of `scontrol` are
-- arguments; a nil service, resolver or runner is left out.
use Prim.Native.String.{len}
use cockpit_slurm.Base.{
  ℕ, String, Bool, true, false, not, ◌&&◌, ◌||◌, Option, none, some, List, [], ◌∷◌, ltb, ◌==◌, ◌!=◌,
  if◌then◌else◌, nat_eq, string_eq, is_empty, is_blank, has_control, codes, ◌<>◌, to_upper,
  is_alphanumeric, is_name_mark, all,
}

pub data HelperError : Type 0 where
  invalid_operation invalid_target invalid_reason : HelperError

pub data HelperResult {ℓ} (A : Type ℓ) : Type ℓ where
  ok : A → HelperResult A
  err : HelperError → HelperResult A

abbrev pub operation_node_drain : String
operation_node_drain = "node.drain"

abbrev pub operation_node_resume : String
operation_node_resume = "node.resume"

-- `strings.EqualFold(nodeName, "ALL")`; the letters A and L fold only to a and l.
unfoldable pub is_all : List ℕ → Bool
unfolding to_upper
is_all (a ∷ b ∷ c ∷ []) = to_upper a == b'A' && (to_upper b == b'L' && to_upper c == b'L')
is_all _ = false

-- The loop over the characters of a node name; the first one may not be a mark.
unfoldable pub valid_name_chars : List ℕ → Bool
unfolding is_alphanumeric is_name_mark
valid_name_chars [] = true
valid_name_chars (c ∷ cs) = is_alphanumeric c && all (λ x. is_alphanumeric x || is_name_mark x) cs

unfoldable pub valid_node_name : String → Bool
valid_node_name name =
    not (is_empty name || (ltb 255 (len name) || is_all (codes name)))
    && valid_name_chars (codes name)

-- `validateDrainReason(reason) == nil`
unfoldable pub valid_drain_reason : String → Bool
valid_drain_reason reason =
    not (is_blank reason || ltb 256 (len reason)) && not (has_control reason)

unfoldable pub build_scontrol_args : String → String → String → HelperResult (List String)
build_scontrol_args op name reason =
    if not (valid_node_name name)
    then err invalid_target
    else if op == operation_node_drain
    then (if valid_drain_reason reason
        then ok ("update" ∷ "NodeName=" <> name ∷ "State=DRAIN" ∷ "Reason=" <> reason ∷ [])
        else err invalid_reason)
    else if op == operation_node_resume
    then (if is_empty reason
        then ok ("update" ∷ "NodeName=" <> name ∷ "State=RESUME" ∷ [])
        else err invalid_reason)
    else err invalid_operation

-- The kinds of D-Bus errors that the method returns.
pub data DbusErrorKind : Type 0 where
  internal_error access_denied invalid_arguments execution_failed : DbusErrorKind

pub data Reply : Type 0 where
  succeeded : Reply
  refused : DbusErrorKind → Reply

-- The sender header of a D-Bus message: absent, of another type, or a text.
pub data Sender : Type 0 where
  no_sender : Sender
  other_sender : Sender
  sender : String → Sender

abbrev pub scontrol_path : String
scontrol_path = "/usr/bin/scontrol"

-- The reply, and the command line that was run, if one was.
unfoldable pub run_request :
    (String → List String → Bool)
    → HelperResult (List String)
    → Reply × Option (String × List String)
run_request runner (err e) = (refused invalid_arguments, none)
run_request runner (ok args) = (
  if runner scontrol_path args then succeeded else refused execution_failed,
  some (scontrol_path, args),
)

-- `peers` resolves a sender to its user, and `runner` tells whether a command line succeeds.
unfoldable pub set_node_state :
    ℕ
    → (String → Option ℕ)
    → (String → List String → Bool)
    → Sender
    → String
    → String
    → String
    → Reply × Option (String × List String)
set_node_state service_uid peers runner no_sender op name reason = (refused access_denied, none)
set_node_state service_uid peers runner other_sender op name reason = (refused access_denied, none)
set_node_state service_uid peers runner (sender s) op name reason =
    if is_empty s then (refused access_denied, none) else elim (peers s) [
      | none ↦ (refused access_denied, none)
      | some uid ↦
          if uid != service_uid
          then (refused access_denied, none)
          else run_request runner (build_scontrol_args op name reason)
    ]
