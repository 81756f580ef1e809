-- ===== src/Workflow/Topology/Scan/Report.antt =====
-- What the pass over the edges of topology.py reports, said without its sets and dicts: each edge is
-- judged by itself and the edges before it.
use deepagent_shell.Prelude.{
  pair_eq, option_eq, ℕ, suc, String, Bool, ◌&&◌, List, [], ◌∷◌, ◌++◌, Option, none, some, any,
  ◌==◌, string_eq, pair_eq, option_eq,
}
use deepagent_shell.Workflow.Contracts.{WorkflowEdge}
use deepagent_shell.Workflow.Catalog.{EdgeType, branch, dispatch, edge_type_eq, NodeHandleSpec}
use deepagent_shell.Workflow.Issues.{Issue, when, edge_issue, edge_duplicate}
use deepagent_shell.Workflow.Topology.Table.{Placed, NodeTable, endpoints}
use deepagent_shell.Workflow.Topology.Scan.{connection, is_compatible, endpoint_issues, key_issues}

abbrev pub type_of_handle : Option NodeHandleSpec → Option EdgeType
type_of_handle none = none
type_of_handle (some h) = some h.edge_type

abbrev pub id_of : {C : Type 0} → Option (Placed C) → Option String
id_of none = none
id_of (some p) = some p.node.id

module _ {C : Type 0} (table : NodeTable C) where
  -- The edge leaves its source by a handle of type `t`, under the key `k`.
  abbrev pub uses_key :
      EdgeType → (WorkflowEdge → Option String) → String → String → WorkflowEdge → Bool
  uses_key t key_of source key e =
      (type_of_handle (endpoints table e).source_handle == some t)
      && (e.source == source && (key_of e == some key))

  -- The edge enters node `n` and is of type `t`.
  abbrev pub enters : String → EdgeType → WorkflowEdge → Bool
  enters n t e =
      (id_of (endpoints table e).target == some n)
      && (type_of_handle (endpoints table e).source_handle == some t)

  -- The edge leaves node `n` and its ends fit.
  abbrev pub fits_from : String → WorkflowEdge → Bool
  fits_from n e =
      (id_of (endpoints table e).source == some n)
      && is_compatible (endpoints table e).source_handle (endpoints table e).target_handle

  abbrev pub branch_before : List WorkflowEdge → String → String → Bool
  branch_before before source key = any (uses_key branch (λ e. e.branch_key) source key) before

  abbrev pub dispatch_before : List WorkflowEdge → String → String → Bool
  dispatch_before before source key =
      any (uses_key dispatch (λ e. e.dispatch_key) source key) before

  unfoldable pub edge_report : List WorkflowEdge → ℕ → WorkflowEdge → List Issue
  edge_report before index edge =
      endpoint_issues index edge (endpoints table edge)
      ++ (when (any (λ e. connection edge == connection e) before)
            (edge_issue edge.id index edge_duplicate "")
          ++ key_issues (branch_before before edge.source) (dispatch_before before edge.source)
              index edge (endpoints table edge).source_handle)

  unfoldable pub report : List WorkflowEdge → ℕ → List WorkflowEdge → List Issue
  report before index [] = []
  report before index (edge ∷ edges) =
      edge_report before index edge ++ report (before ++ edge ∷ []) (suc index) edges
