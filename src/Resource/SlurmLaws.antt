-- ===== src/Resource/SlurmLaws.antt =====
-- What a Slurm node becomes (internal/resource/node.go, `MapSlurmNode`).
use cockpit_slurm.Base.{◌+◌}
use cockpit_slurm.Base.{◌∙◌}
use cockpit_slurm.Base.{◌≤◌}
use cockpit_slurm.Base.{if◌then◌else◌}
use cockpit_slurm.Base.{Bool}
use cockpit_slurm.Base.{
  ℕ, String, ◌≡◌, refl, ap, ◌⊎◌, inl, inr, true, not, ◌&&◌, some, List, [], ◌∷◌, string_eq,
  string_iff, member, arith, Bool-cases, ltb, ◌==◌,
}
use cockpit_slurm.Resource.Node.{Node, identity}
use cockpit_slurm.Resource.Slurm.{
  SlurmNode, new_node, nonempty_or, node_name_from_generated, is_primary, count_primary,
  first_primary, summarize_node_state, state_flags_from_generated, value_or, map_slurm_node,
}

-- The node's name pointer alone decides where it is there, even where the name is empty; the
-- hostname and the address serve only where there is none.
pub map_slurm_node-identity :
    (now : ℕ) (n : SlurmNode)
    → identity (map_slurm_node now n)
      ≡ value_or n.name (nonempty_or n.hostname (nonempty_or n.address ""))
unfolding map_slurm_node identity new_node node_name_from_generated
map_slurm_node-identity now n = ground arith

member-state_flags :
    (k : String) (states : List String)
    → member k (state_flags_from_generated states) ≡ (member k states && not (is_primary k))
unfolding state_flags_from_generated
member-state_flags k [] = refl
member-state_flags k (s ∷ states) = elim (Bool-cases (s == k)) [
  | inl e ↦ ground (arith, e, ap is_primary ((string_iff s k).0 e), member-state_flags k states)
  | inr e ↦ ground (arith, e, member-state_flags k states)
]

first_primary-cases :
    (other : String) (states : List String)
    → ((count_primary states ≡ 0) × (first_primary other states ≡ other))
      ⊎ ((is_primary (first_primary other states) ≡ true)
          × (member (first_primary other states) states ≡ true))
unfolding first_primary count_primary
first_primary-cases other [] = inl (refl, refl)
first_primary-cases other (s ∷ states) =
    ground (arith, string_iff s s, first_primary-cases other states)

-- The states that stand for a node on their own: the base states of Slurm, "FAIL" and "PLANNED".
abbrev pub own_states : List String
own_states =
    "ALLOCATED" ∷ "DOWN" ∷ "ERROR" ∷ "FAIL" ∷ "FUTURE" ∷ "IDLE" ∷ "MIXED" ∷ "PLANNED" ∷ "UNKNOWN"
    ∷ []

abbrev pub is_own : String → Bool
is_own state = member state own_states

abbrev pub count_own : List String → ℕ
count_own [] = 0
count_own (s ∷ states) = let n = count_own states in if is_own s then 1 + n else n

-- How the states of a node are told apart.
pub record Split (states : List String) (n : Node) : Type 0 where
  pub flags : (k : String) → member k n.status.state_flags ≡ (member k states && not (is_own k))
  pub several : 2 ≤ count_own states → n.status.state ≡ "MIXED"
  pub one :
      count_own states ≡ 1 → (is_own n.status.state ≡ true) × (member n.status.state states ≡ true)
  pub without :
      count_own states ≡ 0
      → ((states ≡ []) × (n.status.state ≡ "")) ⊎ (member n.status.state states ≡ true)

count_primary-own : (states : List String) → count_primary states ≡ count_own states
unfolding count_primary is_primary
count_primary-own [] = refl
count_primary-own (s ∷ states) = rw (count_primary-own states) refl

summarize-one :
    (states : List String)
    → count_primary states ≡ 1
    → (is_primary (summarize_node_state states) ≡ true)
      × (member (summarize_node_state states) states ≡ true)
unfolding summarize_node_state count_primary
summarize-one [] h = absurd (ground (arith, h))
summarize-one (s ∷ states) h = ground (arith, first_primary-cases s (s ∷ states))

summarize-several :
    (states : List String)
    → ltb 1 (count_primary states) ≡ true
    → summarize_node_state states ≡ "MIXED"
unfolding summarize_node_state count_primary
summarize-several [] h = absurd (ground (arith, h))
summarize-several (s ∷ states) h = ground arith

summarize-without :
    (states : List String)
    → count_primary states ≡ 0
    → ((states ≡ []) × (summarize_node_state states ≡ ""))
      ⊎ (member (summarize_node_state states) states ≡ true)
unfolding summarize_node_state
summarize-without [] h = inl (refl, refl)
summarize-without (s ∷ states) h =
    inr (ground (arith, first_primary-cases s (s ∷ states), string_iff s s))

-- A reported list of states is split into one state and the flags, by the nine states that stand on
-- their own: ALLOCATED, DOWN, ERROR, FAIL, FUTURE, IDLE, MIXED, PLANNED and UNKNOWN. The flags are
-- the other reported states; the state is the one of the nine where there is one, "MIXED" where there
-- are several, and one of the others where there is none but a state is reported.
pub map_slurm_node-Split :
    (now : ℕ) (n : SlurmNode) (states : List String)
    → n.state ≡ some states
    → Split states (map_slurm_node now n)
unfolding map_slurm_node is_primary
map_slurm_node-Split now n states h =
    let count = count_primary-own states in
    rw h (record {
      flags = λ k. member-state_flags k states;
      several = λ m. summarize-several states (ground (arith, m, count));
      one = λ e. summarize-one states (count ∙ e);
      without = λ e. summarize-without states (count ∙ e);
    })
