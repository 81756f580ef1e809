-- ===== src/Workflow/Issues.antt =====
-- The `ValidationIssue` values that workflow/topology.py and workflow/validation.py produce. A code
-- determines the message and its key, so these are left out, with their arguments.
use deepagent_shell.Prelude.{ℕ, String, Bool, true, false, List, [], ◌∷◌}

pub data IssueCode : Type 0 where
  edge_source_not_found edge_target_not_found : IssueCode
  edge_source_handle_invalid edge_target_handle_invalid : IssueCode
  edge_type_mismatch edge_duplicate : IssueCode
  branch_key_required branch_key_duplicate branch_key_not_allowed : IssueCode
  dispatch_key_required dispatch_key_duplicate dispatch_key_not_allowed : IssueCode
  command_not_found task_dispatcher_not_found task_dispatcher_target_missing : IssueCode
  task_worker_input_mixed : IssueCode
  start_required start_multiple end_required end_multiple : IssueCode
  start_outgoing_required node_unreachable_from_start : IssueCode
  node_id_duplicate edge_id_duplicate layout_node_not_found : IssueCode
  node_type_unsupported node_version_unsupported node_role_not_allowed : IssueCode
  node_graph_missing : IssueCode
  config_invalid : String → IssueCode

-- `definition.edges[i].field`, `definition.nodes[i].field` (the field may be empty),
-- `definition.nodes` and `layout.nodes.id`.
pub data IssuePath : Type 0 where
  edge_path node_path : ℕ → String → IssuePath
  nodes_path : IssuePath
  layout_path : String → IssuePath

pub record Issue : Type 0 where
  pub code : IssueCode
  pub path : IssuePath
  pub owner_id : String
  pub owner_type : String

-- `if b: issues.append(i)`
abbrev pub when : Bool → Issue → List Issue
when true i = i ∷ []
when false i = []

abbrev pub edge_issue : String → ℕ → IssueCode → String → Issue
edge_issue edge_id index code field = record {
  code = code;
  path = edge_path index field;
  owner_id = edge_id;
  owner_type = "edge";
}
