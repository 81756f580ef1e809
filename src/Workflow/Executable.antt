-- ===== src/Workflow/Executable.antt =====
-- `validate_workflow_executable` of server/src/agent_shell/workflow/validation.py: admission, topology
-- and the reports on the agents. `validate_main_agent` is a callback of the caller, and `main_agent_id`
-- reads the field of an agent node's config.
pub mod Total
use deepagent_shell.Prelude.{
  ℕ, zero, suc, String, ◌≡◌, Bool, true, false, List, [], ◌∷◌, ◌++◌, map, Option, none, some, Dict,
  lookup, insert, if◌then◌else◌, string_eq, ◌==◌,
}
use deepagent_shell.Workflow.Contracts.{WorkflowNode, WorkflowGraphDocument}
use deepagent_shell.Workflow.Catalog.{ConfigModel, WorkflowRole}
use deepagent_shell.Workflow.Issues.{Issue, IssuePath}
use deepagent_shell.Workflow.Admission.{ConfigResult, admit_workflow_document}
use deepagent_shell.Workflow.Topology.Validate.{validate_workflow_topology}

abbrev pub Reports : Type 0
Reports = Dict String (List Issue)

module _ {C : Type 0} (main_agent_id : C → String) (validate_main_agent : String → List Issue) where
  -- `agent_reports.get(id)`, and the call of the callback if it is not there.
  abbrev pub cached_report : String → Option (List Issue) → Reports → List Issue × Reports
  cached_report id none reports =
      (validate_main_agent id, insert id (validate_main_agent id) reports)
  cached_report id (some report) reports = (report, reports)

  -- The issue of an agent's report, moved to the node that uses the agent.
  abbrev pub moved_issue : ℕ → WorkflowNode C → Issue → Issue
  moved_issue index node i = record {
    code = i.code;
    path = IssuePath.node_path index "config.main_agent_id";
    owner_id = node.id;
    owner_type = "agent";
  }

  -- The loop over the nodes. The ids are distinct, so `node_index[id]` is the node's own index.
  unfoldable pub agent_issues : ℕ → Reports → List (WorkflowNode C) → List Issue
  agent_issues index reports [] = []
  agent_issues index reports (node ∷ nodes) =
      let id = main_agent_id node.config in
      let (report, reports') = cached_report id (lookup id reports) reports in
      let here = if node.type == "agent" then map (moved_issue index node) report else [] in
      here ++ agent_issues (suc index) (if node.type == "agent" then reports' else reports) nodes

module _ {C : Type 0} (validate_config : ConfigModel → C → ConfigResult C)
    (main_agent_id : C → String) (validate_main_agent : String → List Issue)
    (commands task_dispatchers : Option (List String)) (role : Option WorkflowRole) where
  abbrev pub with_agents : WorkflowGraphDocument C → Option (List Issue) → Option (List Issue)
  with_agents document none = none
  with_agents document (some issues) =
      some (issues ++ agent_issues main_agent_id validate_main_agent 0 [] document.definition.nodes)

  abbrev pub after_admission : List Issue × Option (WorkflowGraphDocument C) → Option (List Issue)
  after_admission (issues, none) = some issues
  after_admission (issues, some document) = with_agents document (
      validate_workflow_topology commands task_dispatchers document.definition.nodes
        document.definition.edges)

  -- The issues of the report; `none` is an `AssertionError`.
  unfoldable pub validate_workflow_executable : WorkflowGraphDocument C → Option (List Issue)
  validate_workflow_executable document =
      after_admission (admit_workflow_document validate_config role document)
