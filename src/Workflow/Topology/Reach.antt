-- ===== src/Workflow/Topology/Reach.antt =====
-- The search from the Start nodes in `validate_workflow_topology`.
pub mod Fuel
pub mod Paths
use deepagent_shell.Prelude.{
  ℕ, zero, suc, ◌+◌, String, Bool, ◌&&◌, List, [], ◌∷◌, ◌++◌, Option, none, some, Dict, lookup,
  insert, contains, add, is_some, if◌then◌else◌, string_eq, length,
}
use deepagent_shell.Workflow.Contracts.{WorkflowEdge}
use deepagent_shell.Workflow.Topology.Table.{NodeTable}

abbrev pub Successors : Type 0
Successors = Dict String (List String)

-- `outgoing[n]`
abbrev pub targets_of : String → Successors → List String
targets_of n out = elim (lookup n out) [ none ↦ [] | some targets ↦ targets ]

module _ {C : Type 0} where
  abbrev pub is_known : NodeTable C → String → Bool
  is_known table id = is_some (lookup id table)

  unfoldable pub link : NodeTable C → WorkflowEdge → Successors → Successors
  link table e out =
      if is_known table e.source && is_known table e.target
      then insert e.source (add e.target (targets_of e.source out)) out
      else out

  -- The loop that fills `outgoing`. A node with no edge has no entry here, and the empty set there.
  unfoldable pub link_edges : NodeTable C → List WorkflowEdge → Successors → Successors
  link_edges table [] out = out
  link_edges table (e ∷ edges) out = link_edges table edges (link table e out)

-- The set `reachable_from_start` and the stack `pending`, its top first.
pub record Search : Type 0 where
  pub reachable : List String
  pub pending : List String

unfoldable pub push : String → Search → Search
push t s =
    if contains t s.reachable
    then s
    else record { reachable = s.reachable ++ t ∷ []; pending = t ∷ s.pending }

unfoldable pub push_targets : List String → Search → Search
push_targets [] s = s
push_targets (t ∷ ts) s = push_targets ts (push t s)

-- `while pending`, on fuel; `none` means that the fuel ran out.
unfoldable pub explore : ℕ → Successors → List String → List String → Option (List String)
explore fuel out reachable [] = some reachable
explore zero out reachable (n ∷ pending) = none
explore (suc fuel) out reachable (n ∷ pending) =
    let s = push_targets (targets_of n out) (record { reachable = reachable; pending = pending }) in
    explore fuel out s.reachable s.pending

-- Each round takes one id off the stack, and an id is put there at most once: as a Start node, or when
-- it enters the set.
unfoldable pub reachable_from :
    {C : Type 0} → NodeTable C → List WorkflowEdge → List String → Option (List String)
reachable_from table edges start_ids =
    explore (length start_ids + length table) (link_edges table edges []) start_ids start_ids
