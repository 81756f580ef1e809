-- ===== src/Workflow/Topology/Validate/Parts.antt =====
-- The checks of `validate_workflow_topology`, each with nothing to report where the whole has no issue.
use mathlib.Core.Option.{some-injective}
use deepagent_shell.Prelude.{
  String, ◌≡◌, refl, List, [], Option, none, some, string_eq, option_eq, pair_eq, append-eq-nil, ap,
}
use deepagent_shell.Workflow.Contracts.{WorkflowNode, WorkflowEdge}
use deepagent_shell.Workflow.Catalog.{edge_type_eq}
use deepagent_shell.Workflow.Issues
use deepagent_shell.Workflow.Issues.{Issue, IssueCode, when}
use deepagent_shell.Workflow.Topology.Table.{NodeTable, place_nodes}
use deepagent_shell.Workflow.Topology.Scan.{fresh, scan_edges}
use deepagent_shell.Workflow.Topology.Validate.{
  validate_workflow_topology, search_issues, ids_of_type, checked, joined, command_issues,
  dispatcher_issues, mixed_issues, count_issues, start_issues, if_given,
}

-- What the absence of issues gives, part by part.
pub record Parts {C : Type 0} (commands task_dispatchers : Option (List String))
    (nodes : List (WorkflowNode C)) (edges : List WorkflowEdge) : Type 0 where
  pub table : NodeTable C
  pub placed : place_nodes 0 nodes [] ≡ some table
  pub scan_clean : (scan_edges table 0 edges fresh).issues ≡ []
  pub commands_clean : if_given commands (λ names. command_issues table names nodes) ≡ []
  pub dispatchers_clean :
      if_given task_dispatchers (λ names.
        dispatcher_issues table names (scan_edges table 0 edges fresh).routed_dispatches nodes)
      ≡ []
  pub mixed_clean : mixed_issues table (scan_edges table 0 edges fresh).incoming_edge_types ≡ []
  pub start_counted :
      count_issues Issues.start_required Issues.start_multiple (ids_of_type "start" nodes []) ≡ []
  pub end_counted :
      count_issues Issues.end_required Issues.end_multiple (ids_of_type "end" nodes []) ≡ []
  pub start_clean :
      start_issues table
        (scan_edges table 0 edges fresh).endpoint_compatible_sources
        (ids_of_type "start" nodes [])
      ≡ []
  pub search_clean : search_issues table nodes edges (ids_of_type "start" nodes []) ≡ some []

joined-eq-nil :
    (issues : List Issue) (more : Option (List Issue))
    → joined issues more ≡ some []
    → (issues ≡ []) × (more ≡ some [])
joined-eq-nil issues none h = cc
joined-eq-nil issues (some more) h =
    let (l, r) = append-eq-nil issues more (some-injective _ _ h) in (l, ap some r)

module _ {C : Type 0} (commands task_dispatchers : Option (List String))
    (nodes : List (WorkflowNode C)) (edges : List WorkflowEdge) where
  Parts-of :
      (table : Option (NodeTable C))
      → place_nodes 0 nodes [] ≡ table
      → checked commands task_dispatchers nodes edges table ≡ some []
      → Parts commands task_dispatchers nodes edges
  Parts-of none e h = cc
  Parts-of (some table) e h =
      let (static, search) = joined-eq-nil _ _ h in
      let (scan, r1) = append-eq-nil _ _ static in
      let (cmds, r2) = append-eq-nil _ _ r1 in
      let (disp, r3) = append-eq-nil _ _ r2 in
      let (mixed, r4) = append-eq-nil _ _ r3 in
      let (starts, r5) = append-eq-nil _ _ r4 in
      let (ends, first) = append-eq-nil _ _ r5 in
      record {
        table = table;
        placed = e;
        scan_clean = scan;
        commands_clean = cmds;
        dispatchers_clean = disp;
        mixed_clean = mixed;
        start_counted = starts;
        end_counted = ends;
        start_clean = first;
        search_clean = search;
      }

  pub validate-Parts :
      validate_workflow_topology commands task_dispatchers nodes edges ≡ some []
      → Parts commands task_dispatchers nodes edges
  unfolding validate_workflow_topology
  validate-Parts h = Parts-of (place_nodes 0 nodes []) refl h
