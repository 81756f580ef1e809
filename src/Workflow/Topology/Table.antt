-- ===== src/Workflow/Topology/Table.antt =====
-- The tables that topology.py builds from the nodes, and the endpoints of an edge.
pub mod Lookup
use deepagent_shell.Prelude.{
  ℕ, suc, String, List, [], ◌∷◌, Option, none, some, Dict, lookup, insert, first, ◌==◌, string_eq,
}
use deepagent_shell.Workflow.Contracts.{WorkflowNode, WorkflowEdge}
use deepagent_shell.Workflow.Catalog.{NodeHandleSpec, NodeTypeSpec, node_type_spec}

-- An entry of `node_by_id` with the entry of `specs` under the same key, and the entry of
-- `node_indexes`: the three dicts are filled by one pass over the nodes each, so they have the same
-- keys, and under a repeated id each keeps the last node.
pub record Placed (C : Type 0) : Type 0 where
  pub node : WorkflowNode C
  pub spec : NodeTypeSpec
  pub index : ℕ

abbrev pub NodeTable : Type 0 → Type 0
NodeTable C = Dict String (Placed C)

module _ {C : Type 0} where
  abbrev pub put_node :
      ℕ → WorkflowNode C → Option NodeTypeSpec → NodeTable C → Option (NodeTable C)
  put_node index node none table = none
  put_node index node (some spec) table =
      some (insert node.id (record { node = node; spec = spec; index = index }) table)

  abbrev pub and_then :
      Option (NodeTable C) → (NodeTable C → Option (NodeTable C)) → Option (NodeTable C)
  and_then none f = none
  and_then (some t) f = f t

  -- `none` is the failed `assert spec is not None`.
  unfoldable pub place_nodes : ℕ → List (WorkflowNode C) → NodeTable C → Option (NodeTable C)
  place_nodes index [] table = some table
  place_nodes index (node ∷ nodes) table =
      and_then (put_node index node (node_type_spec node.type node.type_version) table)
        (place_nodes (suc index) nodes)

-- `_handle(spec, handle_id, output=...)` over the handles of the side asked for.
unfoldable pub find_handle : List NodeHandleSpec → String → Option NodeHandleSpec
find_handle handles id = first (λ h. h.id == id) handles

pub record Endpoints (C : Type 0) : Type 0 where
  pub source : Option (Placed C)
  pub target : Option (Placed C)
  pub source_handle : Option NodeHandleSpec
  pub target_handle : Option NodeHandleSpec

abbrev pub source_handle_of : {C : Type 0} → Option (Placed C) → String → Option NodeHandleSpec
source_handle_of none id = none
source_handle_of (some p) id = find_handle p.spec.output_handles id

abbrev pub target_handle_of : {C : Type 0} → Option (Placed C) → String → Option NodeHandleSpec
target_handle_of none id = none
target_handle_of (some p) id = find_handle p.spec.input_handles id

unfoldable pub endpoints : {C : Type 0} → NodeTable C → WorkflowEdge → Endpoints C
endpoints table edge = record {
  source = lookup edge.source table;
  target = lookup edge.target table;
  source_handle = source_handle_of (lookup edge.source table) edge.source_handle;
  target_handle = target_handle_of (lookup edge.target table) edge.target_handle;
}
