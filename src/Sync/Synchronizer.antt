-- ===== src/Sync/Synchronizer.antt =====
-- internal/resource/node_synchronizer.go over the cache and the streams of `Hub`. The mutex makes a
-- refresh one step; the adapter, the context and the outbound queues are arguments.
use cockpit_slurm.Base.{
  ℕ, String, Bool, true, false, not, Option, none, some, List, [], ◌∷◌, if◌then◌else◌, is_empty,
  member,
}
use cockpit_slurm.Base.Int.{ℤ, pos, int_leb}
use cockpit_slurm.Resource.Node.{Node, identity}
use cockpit_slurm.Stream.Registry.{Hub, Encoder, replace_and_publish}
use cockpit_slurm.Sync.Adapter.{NodesJson, list_nodes}

-- The loop of `validateNodeSnapshot`, with the identities so far; true where it returns no error.
unfoldable pub validate_from : List String → List Node → Bool
validate_from seen [] = true
validate_from seen (n ∷ nodes) =
    let rest = validate_from (identity n ∷ seen) nodes in
    if is_empty (identity n) then false else if member (identity n) seen then false else rest

-- `validateNodeSnapshot`
unfoldable pub validate_node_snapshot : List Node → Bool
validate_node_snapshot nodes = validate_from [] nodes

-- `NewNodeSynchronizer` on an interval: whether there is no error.
unfoldable pub valid_interval : ℤ → Bool
valid_interval interval = not (int_leb interval (pos 0))

-- What one refresh meets: the nodes or the error of the adapter, whether the context has ended by
-- then, and which queues take the envelope.
pub record Poll : Type 0 where
  pub listed : Option (List Node)
  pub cancelled : Bool
  pub accepts : ℕ → Bool

-- The rest of `Refresh` behind `ListNodes`; true where it returns no error.
unfoldable pub commit_listed : Encoder → Poll → Option (List Node) → Hub → Bool × Hub
commit_listed c p none h = (false, h)
commit_listed c p (some nodes) h =
    if p.cancelled
    then (false, h)
    else if not (validate_node_snapshot nodes)
    then (false, h)
    else (true, replace_and_publish c nodes p.accepts h)

-- `Refresh`
unfoldable pub refresh : Encoder → Poll → Hub → Bool × Hub
refresh c p h = commit_listed c p p.listed h

-- A poll of the adapter that reads scontrol's output.
unfoldable pub slurm_poll : NodesJson → ℕ → Option String → Bool → (ℕ → Bool) → Poll
slurm_poll json now output cancelled accepts = record {
  listed = list_nodes json now output;
  cancelled = cancelled;
  accepts = accepts;
}

-- What the `select` of `Run` receives.
pub data Signal : Type 0 where
  ticked : Poll → Signal
  stopped : Signal

-- `Run`, which logs an error of a refresh and goes on.
unfoldable pub run_synchronizer : Encoder → List Signal → Hub → Hub
run_synchronizer c [] h = h
run_synchronizer c (stopped ∷ signals) h = h
run_synchronizer c (ticked p ∷ signals) h = run_synchronizer c signals (refresh c p h).1
