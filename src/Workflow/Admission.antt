-- ===== src/Workflow/Admission.antt =====
-- server/src/agent_shell/workflow/validation.py: admission of a document. The config models are
-- pydantic's: `validate_config` stands for `config_model.model_validate(...).model_dump(...)`.
pub mod Admitted
use deepagent_shell.Prelude.{
  ℕ, zero, suc, String, Bool, true, false, ◌&&◌, ◌||◌, not, List, [], ◌∷◌, ◌++◌, map, Option, none,
  some, Dict, lookup, insert, contains, is_some, if◌then◌else◌, string_eq, ◌==◌,
}
use deepagent_shell.Workflow.Contracts.{
  WorkflowNode, WorkflowEdge, WorkflowGraphDefinition, WorkflowGraphDocument,
}
use deepagent_shell.Workflow.Catalog.{
  ConfigModel, WorkflowRole, role_eq, NodeTypeSpec, node_type_spec, is_supported_type,
}
use deepagent_shell.Workflow.Issues
use deepagent_shell.Workflow.Issues.{Issue, IssueCode, when, IssuePath}

-- A validated config, or the codes of the validation errors.
pub data ConfigResult (C : Type 0) : Type 0 where
  valid : C → ConfigResult C
  invalid : String → List String → ConfigResult C

-- `if previous is None: indexes[id] = index`
abbrev pub note_index : String → ℕ → Dict String ℕ → Dict String ℕ
note_index id index indexes =
    if is_some (lookup id indexes) then indexes else insert id index indexes

-- The loop on the edges' ids in `_admission_issues`.
unfoldable pub edge_id_issues : ℕ → Dict String ℕ → List WorkflowEdge → List Issue
edge_id_issues index indexes [] = []
edge_id_issues index indexes (edge ∷ edges) =
    when (is_some (lookup edge.id indexes)) (record {
      code = Issues.edge_id_duplicate;
      path = IssuePath.edge_path index "id";
      owner_id = edge.id;
      owner_type = "edge";
    })
    ++ edge_id_issues (suc index) (note_index edge.id index indexes) edges

-- The loop on the layout in `_admission_issues`.
unfoldable pub layout_issues : List String → List String → List Issue
layout_issues node_ids [] = []
layout_issues node_ids (id ∷ ids) =
    when (not (contains id node_ids)) (record {
      code = Issues.layout_node_not_found;
      path = IssuePath.layout_path id;
      owner_id = id;
      owner_type = "layout";
    })
    ++ layout_issues node_ids ids

module _ {C : Type 0} where
  abbrev pub field_issue : ℕ → WorkflowNode C → IssueCode → String → Issue
  field_issue index node code field = record {
    code = code;
    path = IssuePath.node_path index field;
    owner_id = node.id;
    owner_type = node.type;
  }

  -- `_config_issues`: one issue for each error that pydantic reports, of which there is at least one.
  abbrev pub config_issues : ℕ → WorkflowNode C → ConfigResult C → List Issue
  config_issues index node (valid c) = []
  config_issues index node (invalid error errors) =
      map (λ e. field_issue index node (Issues.config_invalid e) "config") (error ∷ errors)

  abbrev pub normalized_node : WorkflowNode C → ConfigResult C → WorkflowNode C
  normalized_node node (valid c) = record node { config = c }
  normalized_node node (invalid error errors) = node

  abbrev pub role_issues : Option WorkflowRole → ℕ → WorkflowNode C → NodeTypeSpec → List Issue
  role_issues none index node spec = []
  role_issues (some role) index node spec =
      when (not (contains role spec.workflow_roles))
        (field_issue index node Issues.node_role_not_allowed "type")

  abbrev pub unsupported_issue : ℕ → WorkflowNode C → Issue
  unsupported_issue index node =
      if is_supported_type node.type
      then field_issue index node Issues.node_version_unsupported "type_version"
      else field_issue index node Issues.node_type_unsupported "type"

  module _ (validate_config : ConfigModel → C → ConfigResult C) (role : Option WorkflowRole) where
    -- The issues of one node beside those on its id, and the node as it goes on.
    abbrev pub check_spec : ℕ → WorkflowNode C → Option NodeTypeSpec → List Issue × WorkflowNode C
    check_spec index node none = (unsupported_issue index node ∷ [], node)
    check_spec index node (some spec) =
        let result = validate_config spec.config_model node.config in
        (
          config_issues index node result ++ role_issues role index node spec,
          normalized_node node result,
        )

    -- `_normalize_nodes`
    unfoldable pub normalize_nodes :
        ℕ → Dict String ℕ → List (WorkflowNode C) → List Issue × List (WorkflowNode C)
    normalize_nodes index indexes [] = ([], [])
    normalize_nodes index indexes (node ∷ nodes) =
        let (issues, node') = check_spec index node (node_type_spec node.type node.type_version) in
        let (more, nodes') = normalize_nodes (suc index) (note_index node.id index indexes) nodes in
        (
          when (is_some (lookup node.id indexes))
                (field_issue index node Issues.node_id_duplicate "id")
              ++ (issues ++ more),
          node' ∷ nodes',
        )

    unfoldable pub admission_issues : WorkflowGraphDocument C → List Issue × WorkflowGraphDocument C
    admission_issues document =
        let (issues, nodes) = normalize_nodes 0 [] document.definition.nodes in
        let definition : WorkflowGraphDefinition C = record {
          nodes = nodes;
          edges = document.definition.edges;
        } in
        (
          issues
              ++ (edge_id_issues 0 [] document.definition.edges
                  ++ layout_issues (map (λ n. n.id) nodes) document.layout_nodes),
          record document { definition = definition },
        )

    -- `admit_workflow_document` of a document: the report's issues, and the normalized document if there
    -- are none. All issues here are errors, so a report is valid exactly if it has none.
    abbrev pub admitted_if_clean :
        List Issue → WorkflowGraphDocument C → Option (WorkflowGraphDocument C)
    admitted_if_clean [] document = some document
    admitted_if_clean (_ ∷ _) document = none

    unfoldable pub admit_workflow_document :
        WorkflowGraphDocument C → List Issue × Option (WorkflowGraphDocument C)
    admit_workflow_document document =
        let (issues, normalized) = admission_issues document in
        (issues, admitted_if_clean issues normalized)
