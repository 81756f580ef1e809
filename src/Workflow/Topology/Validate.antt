-- ===== src/Workflow/Topology/Validate.antt =====
-- `validate_workflow_topology`, whole: the pass over the edges, then the checks on the nodes.
pub mod Edges
pub mod Parts
pub mod Accepted
pub mod Bound
use deepagent_shell.Prelude.{
  ℕ, String, ◌≡◌, ◌↔◌, Bool, true, false, ◌&&◌, not, List, [], ◌∷◌, ◌++◌, Option, none, some, arith,
  Dict, lookup, contains, add, if◌then◌else◌, string_eq, nat_eq, length, ◌==◌, Eq, ltb,
}
use deepagent_shell.Workflow.Contracts.{WorkflowNode, WorkflowEdge}
use deepagent_shell.Workflow.Catalog.{
  RuntimeKind, graph_entry, graph_exit, agent_wrapper, command_node, send_dispatcher, EdgeType,
  dispatch, edge_type_eq,
}
use deepagent_shell.Workflow.Issues
use deepagent_shell.Workflow.Issues.{Issue, IssueCode, when, IssuePath}
use deepagent_shell.Workflow.Topology.Table.{NodeTable, place_nodes}
use deepagent_shell.Workflow.Topology.Scan.{Scan, fresh, scan_edges, by_key, Routed}
use deepagent_shell.Workflow.Topology.Reach.{reachable_from}

abbrev pub kind_beq : RuntimeKind → RuntimeKind → Bool
kind_beq graph_entry graph_entry = true
kind_beq graph_exit graph_exit = true
kind_beq agent_wrapper agent_wrapper = true
kind_beq command_node command_node = true
kind_beq send_dispatcher send_dispatcher = true
kind_beq _ _ = false

pub kind_beq_iff : (a b : RuntimeKind) → (kind_beq a b ≡ true) ↔ (a ≡ b)
kind_beq_iff a b = (λ h. ground arith, λ h. ground arith)

instance abbrev pub kind_eq : Eq RuntimeKind
kind_eq = record { beq = kind_beq; beq_iff = kind_beq_iff }

abbrev pub is_empty : Dict String ℕ → Bool
is_empty [] = true
is_empty (_ ∷ _) = false

-- `not routed_dispatches.get(id)`
abbrev pub has_no_route : Routed → String → Bool
has_no_route routed id = is_empty (by_key id routed)

-- `"dispatch" in edge_types and len(edge_types) != 1`
abbrev pub is_mixed : List EdgeType → Bool
is_mixed types = contains dispatch types && not (length types == 1)

abbrev pub joined : List Issue → Option (List Issue) → Option (List Issue)
joined issues none = none
joined issues (some more) = some (issues ++ more)

module _ {C : Type 0} where
  -- `specs[id].runtime_kind == kind`
  abbrev pub has_kind : NodeTable C → String → RuntimeKind → Bool
  has_kind table id kind = elim (lookup id table) [
    | none ↦ false
    | some p ↦ p.spec.runtime_kind == kind
  ]

  -- `node_indexes[id]`. The ids asked for are those of nodes.
  abbrev index_of : NodeTable C → String → ℕ
  index_of table id = elim (lookup id table) [ none ↦ 0 | some p ↦ p.index ]

  -- `node_by_id[id].type`
  abbrev type_of : NodeTable C → String → String
  type_of table id = elim (lookup id table) [ none ↦ "" | some p ↦ p.node.type ]

  abbrev pub node_issue : NodeTable C → WorkflowNode C → IssueCode → String → Issue
  node_issue table node code field = record {
    code = code;
    path = IssuePath.node_path (index_of table node.id) field;
    owner_id = node.id;
    owner_type = node.type;
  }

  unfoldable pub command_issues : NodeTable C → List String → List (WorkflowNode C) → List Issue
  command_issues table commands [] = []
  command_issues table commands (node ∷ nodes) =
      when (has_kind table node.id command_node && not (contains node.id commands))
        (node_issue table node Issues.command_not_found "config.command_id")
      ++ command_issues table commands nodes

  unfoldable pub dispatcher_node_issues :
      NodeTable C → List String → Routed → WorkflowNode C → List Issue
  dispatcher_node_issues table dispatchers routed node =
      if has_kind table node.id send_dispatcher
      then (if contains node.id dispatchers
          then when (has_no_route routed node.id)
              (node_issue table node Issues.task_dispatcher_target_missing "")
          else node_issue table node Issues.task_dispatcher_not_found "config.task_dispatcher_id"
            ∷ [])
      else []

  unfoldable pub dispatcher_issues :
      NodeTable C → List String → Routed → List (WorkflowNode C) → List Issue
  dispatcher_issues table dispatchers routed [] = []
  dispatcher_issues table dispatchers routed (node ∷ nodes) =
      dispatcher_node_issues table dispatchers routed node
      ++ dispatcher_issues table dispatchers routed nodes

  unfoldable pub mixed_issues : NodeTable C → Dict String (List EdgeType) → List Issue
  mixed_issues table [] = []
  mixed_issues table ((id, types) ∷ rest) =
      when (is_mixed types) (record {
        code = Issues.task_worker_input_mixed;
        path = IssuePath.node_path (index_of table id) "";
        owner_id = id;
        owner_type = type_of table id;
      })
      ++ mixed_issues table rest

  -- `{node.id for node in nodes if node.type == type}`
  unfoldable pub ids_of_type : String → List (WorkflowNode C) → List String → List String
  ids_of_type type [] ids = ids
  ids_of_type type (node ∷ nodes) ids =
      ids_of_type type nodes (if node.type == type then add node.id ids else ids)

  unfoldable pub start_issues : NodeTable C → List String → List String → List Issue
  start_issues table compatible (start_id ∷ []) =
      when (not (contains start_id compatible)) (record {
        code = Issues.start_outgoing_required;
        path = IssuePath.node_path (index_of table start_id) "";
        owner_id = start_id;
        owner_type = "start";
      })
  start_issues table compatible _ = []

  unfoldable pub unreachable_issues : NodeTable C → List String → List (WorkflowNode C) → List Issue
  unreachable_issues table reachable [] = []
  unreachable_issues table reachable (node ∷ nodes) =
      when (not (node.type == "end") && not (contains node.id reachable))
        (node_issue table node Issues.node_unreachable_from_start "")
      ++ unreachable_issues table reachable nodes

  abbrev pub found_issues :
      NodeTable C → List (WorkflowNode C) → Option (List String) → Option (List Issue)
  found_issues table nodes none = none
  found_issues table nodes (some reachable) = some (unreachable_issues table reachable nodes)

  -- `if start_ids:`
  unfoldable pub search_issues :
      NodeTable C → List (WorkflowNode C) → List WorkflowEdge → List String → Option (List Issue)
  search_issues table nodes edges [] = some []
  search_issues table nodes edges (s ∷ rest) =
      found_issues table nodes (reachable_from table edges (s ∷ rest))

-- The issues on how many nodes of a type there are.
unfoldable pub count_issues : IssueCode → IssueCode → List String → List Issue
count_issues required multiple ids =
    when (length ids == 0)
      (record { code = required; path = IssuePath.nodes_path; owner_id = ""; owner_type = "graph" })
    ++ when (ltb 1 (length ids)) (record {
      code = multiple;
      path = IssuePath.nodes_path;
      owner_id = "";
      owner_type = "graph";
    })

-- A check of a mapping that the caller may leave out.
abbrev pub if_given : Option (List String) → (List String → List Issue) → List Issue
if_given none check = []
if_given (some names) check = check names

module _ {C : Type 0} (commands task_dispatchers : Option (List String)) where
  abbrev pub static_issues : NodeTable C → List (WorkflowNode C) → Scan → List Issue
  static_issues table nodes s =
      let start_ids = ids_of_type "start" nodes [] in
      s.issues
      ++ (if_given commands (λ names. command_issues table names nodes)
          ++ (if_given task_dispatchers
                (λ names. dispatcher_issues table names s.routed_dispatches nodes)
              ++ (mixed_issues table s.incoming_edge_types
                  ++ (count_issues Issues.start_required Issues.start_multiple start_ids
                      ++ (count_issues Issues.end_required Issues.end_multiple
                            (ids_of_type "end" nodes [])
                          ++ start_issues table s.endpoint_compatible_sources start_ids)))))

  abbrev pub checked :
      List (WorkflowNode C) → List WorkflowEdge → Option (NodeTable C) → Option (List Issue)
  checked nodes edges none = none
  checked nodes edges (some table) =
      joined (static_issues table nodes (scan_edges table 0 edges fresh))
        (search_issues table nodes edges (ids_of_type "start" nodes []))

  -- `none` is the `AssertionError` on a node whose type is not in the catalog.
  unfoldable pub validate_workflow_topology :
      List (WorkflowNode C) → List WorkflowEdge → Option (List Issue)
  validate_workflow_topology nodes edges = checked nodes edges (place_nodes 0 nodes [])
